-- ===== src/TimerQueue.antt =====
-- muduo/net/TimerQueue.h and TimerQueue.cc, Timer.h and Timer.cc: the timers of a loop, on the loop's
-- thread. A time is a number of microseconds, 0 the invalid one; a timer is an address of the heap,
-- `none` one that was deleted. `none` as a result is a failed assertion or a deleted timer that is used.
pub mod Invariant
pub mod Operations
pub mod Cancel
pub mod Expired
pub mod Reset
pub mod HandleRead
pub mod Armed
mod Tests
use muduo.Base.{
  Bool, true, false, not, ◌||◌, ◌&&◌, ℕ, suc, ◌+◌, ◌-◌, ◌^◌, Option, none, some, List, [], ◌∷◌,
  length, ltb, ◌==◌, if◌then◌else◌, ◌>>=◌, ◌>>◌, assert,
}
use muduo.Base.PairSet.{Pair, contains, insert, erase, below, lower_bound}

-- `interval` is what `addTime` adds, in microseconds; `callback_` stands outside.
pub record Timer : Type 0 where
  pub expiration : ℕ
  pub interval : ℕ
  pub repeat : Bool
  pub sequence : ℕ

-- `timers_` has pairs of expiration and address, `activeTimers_` and `cancelingTimers_` of address and
-- sequence. `timerfd` is the time at which the descriptor was set to become readable, `none` when it has
-- become so; `num_created` is `Timer::s_numCreated_`.
pub record TimerQueue : Type 0 where
  pub heap : ℕ → Option Timer
  pub timers : List Pair
  pub active_timers : List Pair
  pub canceling_timers : List Pair
  pub calling_expired_timers : Bool
  pub timerfd : Option ℕ
  pub num_created : ℕ

abbrev pub update_at : (ℕ → Option Timer) → ℕ → Option Timer → ℕ → Option Timer
update_at h a o b = if a == b then o else h b

unfoldable pub new_queue : TimerQueue
new_queue = record {
  heap = λ _. none;
  timers = [];
  active_timers = [];
  canceling_timers = [];
  calling_expired_timers = false;
  timerfd = none;
  num_created = 0;
}

abbrev pub sizes_agree : TimerQueue → Bool
sizes_agree q = length q.timers == length q.active_timers

-- `it == timers_.end() || when < it->first`
abbrev pub is_earliest : ℕ → List Pair → Bool
is_earliest when [] = true
is_earliest when ((t, a) ∷ ts) = ltb when t

-- `insert`: whether the earliest expiration changed.
unfoldable pub insert_timer : ℕ → TimerQueue → Option (Bool × TimerQueue)
insert_timer timer q = do
  assert (sizes_agree q)
  tm ← q.heap timer
  let earliest_changed = is_earliest tm.expiration q.timers
  assert (not (contains (tm.expiration, timer) q.timers))
  assert (not (contains (timer, tm.sequence) q.active_timers))
  let q' = record q {
    timers = insert (tm.expiration, timer) q.timers;
    active_timers = insert (timer, tm.sequence) q.active_timers;
  }
  assert (sizes_agree q')
  some (earliest_changed, q')

-- The constructor of `Timer`, at the address that `new` gave.
unfoldable pub new_timer : ℕ → ℕ → ℕ → Bool → TimerQueue → TimerQueue
new_timer timer when interval repeat q = record q {
  heap = update_at q.heap timer (
      some (record {
        expiration = when;
        interval = interval;
        repeat = repeat;
        sequence = suc q.num_created;
      }));
  num_created = suc q.num_created;
}

unfoldable pub reset_timerfd : ℕ → TimerQueue → TimerQueue
reset_timerfd expiration q = record q { timerfd = some expiration }

unfoldable pub add_timer_in_loop : ℕ → TimerQueue → Option TimerQueue
unfolding insert_timer reset_timerfd
add_timer_in_loop timer q = do
  inserted ← insert_timer timer q
  tm ← q.heap timer
  some (if inserted.0 then reset_timerfd tm.expiration inserted.1 else inserted.1)

-- `addTimer` on the loop's thread: the new queue, and the `TimerId`.
unfoldable pub add_timer : ℕ → ℕ → ℕ → Bool → TimerQueue → Option (Pair × TimerQueue)
unfolding new_timer add_timer_in_loop
add_timer timer when interval repeat q = do
  q' ← add_timer_in_loop timer (new_timer timer when interval repeat q)
  some ((timer, suc q.num_created), q')

-- The branch of `cancelInLoop` for an active timer.
unfoldable pub erase_timer : Pair → TimerQueue → Option TimerQueue
erase_timer (timer, sequence) q = do
  tm ← q.heap timer
  assert (contains (tm.expiration, timer) q.timers)
  let q' = record q {
    timers = erase (tm.expiration, timer) q.timers;
    active_timers = erase (timer, sequence) q.active_timers;
    heap = update_at q.heap timer none;
  }
  assert (sizes_agree q')
  some q'

unfoldable pub cancel_in_loop : Pair → TimerQueue → Option TimerQueue
unfolding erase_timer
cancel_in_loop id q = do
  assert (sizes_agree q)
  if contains id q.active_timers
      then erase_timer id q
      else some (
          if q.calling_expired_timers
          then record q { canceling_timers = insert id q.canceling_timers }
          else q)

-- The largest address, `UINTPTR_MAX`.
abbrev pub uintptr_max : ℕ
uintptr_max = 2 ^ 64 - 1

-- `end == timers_.end() || now < end->first`
abbrev pub starts_after : ℕ → List Pair → Bool
starts_after now [] = true
starts_after now ((t, a) ∷ ts) = ltb now t

-- The loop of `getExpired` that takes the expired timers out of `activeTimers_`.
unfoldable pub deactivate : List Pair → TimerQueue → Option TimerQueue
deactivate [] q = some q
deactivate ((t, a) ∷ ts) q = do
  tm ← q.heap a
  assert (contains (a, tm.sequence) q.active_timers)
  deactivate ts (record q { active_timers = erase (a, tm.sequence) q.active_timers })

unfoldable pub get_expired : ℕ → TimerQueue → Option (List Pair × TimerQueue)
get_expired now q = do
  assert (sizes_agree q)
  let sentry : Pair = (now, uintptr_max)
  let expired = below sentry q.timers
  let rest = lower_bound sentry q.timers
  assert (starts_after now rest)
  q' ← deactivate expired (record q { timers = rest })
  assert (sizes_agree q')
  some (expired, q')

-- `Timer::restart`
unfoldable pub restart : ℕ → Timer → Timer
restart now tm = record tm { expiration = if tm.repeat then now + tm.interval else 0 }

-- One round of the loop of `reset`, for the timer at an address.
unfoldable pub reset_one : ℕ → ℕ → TimerQueue → Option TimerQueue
unfolding restart
reset_one now a q = do
  tm ← q.heap a
  if tm.repeat && not (contains (a, tm.sequence) q.canceling_timers)
      then (do
        inserted ← insert_timer a (record q { heap = update_at q.heap a (some (restart now tm)) })
        some inserted.1)
      else some (record q { heap = update_at q.heap a none })

unfoldable pub reset_all : ℕ → List Pair → TimerQueue → Option TimerQueue
reset_all now [] q = some q
reset_all now ((t, a) ∷ ts) q = do q' ← reset_one now a q; reset_all now ts q'

-- The expiration of the first timer; 0 is the invalid time.
unfoldable pub next_expire : TimerQueue → List Pair → Option ℕ
next_expire q [] = some 0
next_expire q ((t, a) ∷ ts) = do tm ← q.heap a; some tm.expiration

unfoldable pub reset : ℕ → List Pair → TimerQueue → Option TimerQueue
unfolding reset_timerfd
reset now expired q = do
  q' ← reset_all now expired q
  next ← next_expire q' q'.timers
  some (if ltb 0 next then reset_timerfd next q' else q')

-- The callback of a timer, which may add and cancel timers; it runs on the loop's thread.
abbrev pub Callbacks : Type 0
Callbacks = ℕ → TimerQueue → Option TimerQueue

unfoldable pub run_all : Callbacks → List Pair → TimerQueue → Option TimerQueue
run_all run [] q = some q
run_all run ((t, a) ∷ ts) q = do tm ← q.heap a; q' ← run tm.sequence q; run_all run ts q'

-- `handleRead`, when the timer's descriptor has become readable and has been read.
unfoldable pub handle_read : Callbacks → ℕ → TimerQueue → Option TimerQueue
handle_read run now q = do
  expired ← get_expired now (record q { timerfd = none })
  q₁ ←
      run_all run expired.0
        (record expired.1 { calling_expired_timers = true; canceling_timers = [] })
  reset now expired.0 (record q₁ { calling_expired_timers = false })
