-- ===== src/TimerQueue/Tests.antt =====
-- A queue with a repeating timer, at concrete inputs: it expires, and its callback cancels it.
use muduo.Base.{
  true, ◌&&◌, ℕ, Option, none, some, List, [], ◌∷◌, leb, ◌≡◌, refl, arith, Gives, ◌>>=◌,
}
use muduo.Base.PairSet.{Pair, contains, insert, erase, below, lower_bound}
use muduo.TimerQueue.{
  TimerQueue, Callbacks, new_queue, new_timer, add_timer, add_timer_in_loop, insert_timer,
  reset_timerfd, cancel_in_loop, erase_timer, get_expired, deactivate, reset, reset_all, reset_one,
  restart, next_expire, run_all, handle_read,
}
use muduo.TimerQueue.Invariant.{Inv}
use muduo.TimerQueue.Operations.{rest_of-Inv}
use muduo.TimerQueue.Cancel.{IsCancelled, cancel_in_loop-IsCancelled}
use muduo.TimerQueue.Expired.{due, later, get_expired-Inv}
use muduo.TimerQueue.Reset.{IsArmed, IsResetArmed, reset-IsResetArmed}
use muduo.TimerQueue.HandleRead.{Keeps, handle_read-Inv}
use muduo.TimerQueue.Armed.{IsHealthy, new_queue-IsHealthy, add_timer-IsHealthy}

-- The queue with the timer.
one : TimerQueue
unfolding new_queue
one =
    (add_timer-IsHealthy new_queue 16 100 50 true new_queue-IsHealthy refl (omega arith)
      (omega arith)).0

one-IsHealthy : IsHealthy one
unfolding one new_queue
one-IsHealthy =
    (add_timer-IsHealthy new_queue 16 100 50 true new_queue-IsHealthy refl (omega arith)
      (omega arith)).2

-- Every callback cancels the timer.
abbrev cancelling : Callbacks
cancelling s q = cancel_in_loop (16, 1) q

cancelling-Keeps : (s : ℕ) → Keeps (cancelling s)
cancelling-Keeps s out q v = let (q', e, c) = cancel_in_loop-IsCancelled v 16 1 in (q', e, c.inv)

handle_read-Inv_example :
    Gives (handle_read cancelling 120 one) (λ q'. Inv [] q' × IsArmed q'.timers q'.timerfd)
handle_read-Inv_example =
    handle_read-Inv cancelling 120 one cancelling-Keeps (omega arith) one-IsHealthy.inv

get_expired-Inv_example :
    (q' : TimerQueue) × (get_expired 120 one ≡ some (due 120 one, q'))
    × Inv (due 120 one) q'
    × ((t a : ℕ) → contains (t, a) (due 120 one) ≡ (leb t 120 && contains (t, a) one.timers))
    × (q'.timers ≡ later 120 one)
get_expired-Inv_example = get_expired-Inv 120 one-IsHealthy.inv

-- The queue while the expired timer waits for its reset.
fired : TimerQueue
fired = (get_expired-Inv 120 one-IsHealthy.inv).0

fired-Inv : Inv (due 120 one) fired
unfolding fired
fired-Inv = (get_expired-Inv 120 one-IsHealthy.inv).2

-- The callback of the timer has not returned.
abbrev ringing : TimerQueue
ringing = record fired { calling_expired_timers = true; canceling_timers = [] }

cancel_in_loop-IsCancelled_example :
    Gives (cancel_in_loop (16, 1) ringing) (IsCancelled (due 120 one) 16 1 ringing)
cancel_in_loop-IsCancelled_example =
    cancel_in_loop-IsCancelled (rest_of-Inv fired.timerfd [] true fired.num_created fired-Inv) 16 1

reset-IsResetArmed_example :
    Gives (reset 120 (due 120 one) fired) (IsResetArmed 120 (due 120 one) fired)
reset-IsResetArmed_example = reset-IsResetArmed 120 (due 120 one) fired (omega arith) fired-Inv

abbrev timers_of : Option TimerQueue → List Pair
timers_of none = []
timers_of (some q) = q.timers

-- A timer that is not cancelled expires at 120 and waits again, until 170.
expires_again :
    timers_of (add_timer 16 100 50 true new_queue >>= λ r. handle_read (λ s q. some q) 120 r.1)
    ≡ (170, 16) ∷ []
unfolding new_queue add_timer add_timer_in_loop insert_timer insert erase below lower_bound
    new_timer reset_timerfd handle_read get_expired deactivate run_all reset reset_all reset_one
    restart next_expire
expires_again = refl

-- One that its callback cancels is gone.
cancelled :
    timers_of (add_timer 16 100 50 true new_queue >>= λ r. handle_read cancelling 120 r.1) ≡ []
unfolding new_queue add_timer add_timer_in_loop insert_timer insert erase below lower_bound
    new_timer reset_timerfd handle_read get_expired deactivate run_all reset reset_all reset_one
    restart next_expire cancel_in_loop erase_timer
cancelled = refl
