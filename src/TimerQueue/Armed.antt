-- ===== src/TimerQueue/Armed.antt =====
-- No timer is forgotten: the descriptor stays set for the first timer or for a time before it.
use muduo.Base.{
  Bool, true, false, ◌&&◌, Bool-cases, ℕ, suc, ◌≤◌, ◌<◌, Option, none, some, List, [], ◌∷◌, ltb,
  ◌==◌, if◌then◌else◌, Gives, ◌≡◌, refl, sym, subst, inl, inr, arith, ==_iff, and_left,
}
use muduo.Base.PairSet.{Pair, contains, insert, erase, pair_eq, Sorted, Above}
use muduo.TimerQueue.{
  TimerQueue, is_earliest, reset_timerfd, add_timer, cancel_in_loop, uintptr_max, new_queue,
}
use muduo.TimerQueue.Invariant.{Inv}
use muduo.TimerQueue.Operations.{added, added-Inv, add_timer-eq, rest_of-Inv}
use muduo.TimerQueue.Cancel.{IsCancelled, cancel_in_loop-IsCancelled}
use muduo.Base.PairSet.Laws.{inserted_here}
use muduo.TimerQueue.Reset.{IsArmed}

IsArmed-insert :
    (t a : ℕ) (ts : List Pair) (o : Option ℕ)
    → IsArmed ts o
    → IsArmed (insert (t, a) ts) (if is_earliest t ts then some t else o)
unfolding insert
IsArmed-insert t a [] o h = (t, refl, omega arith)
IsArmed-insert t a ((u, b) ∷ ts) o h = elim (Bool-cases (ltb t u)) [
  | inl l ↦ rw l ((t, refl, omega arith))
  | inr l ↦ rw l (elim (Bool-cases (t == u && ltb a b)) [
    | inl m ↦ rw m (
        subst (λ n. (x : ℕ) × (o ≡ some x) × (x ≤ n)) (sym ((==_iff t u).0 (and_left (t == u) _ m)))
          h)
    | inr m ↦ rw m (elim (Bool-cases (pair_eq (t, a) (u, b))) [ inl f ↦ rw f h | inr f ↦ rw f h ])
  ])
]

IsArmed-erase :
    (x : Pair) (ts : List Pair) (o : Option ℕ) → Sorted ts → IsArmed ts o → IsArmed (erase x ts) o
unfolding erase
IsArmed-erase x [] o s h = tt
IsArmed-erase x ((u, b) ∷ ts) o s h = elim (Bool-cases (pair_eq x (u, b))) [
  | inl f ↦ rw f (next ts s.0)
  | inr f ↦ rw f h
]
  where
    next : (us : List Pair) → Above (u, b) us → IsArmed us o
    next [] k = tt
    next ((v, c) ∷ us) k = let (x, e, l) = h in (x, e, ground arith)

-- The state of a queue between the calls of `handleRead`: the sets agree, and the descriptor is set.
pub record IsHealthy (q : TimerQueue) : Type 0 where
  pub inv : Inv [] q
  pub armed : IsArmed q.timers q.timerfd

pub new_queue-IsHealthy : IsHealthy new_queue
unfolding new_queue
new_queue-IsHealthy = record {
  inv = record {
    sizes = refl;
    sorted_timers = tt;
    sorted_active = tt;
    in_timers = λ t a h. absurd (cc (h));
    in_active = λ a s h. absurd (cc (h));
    valid = λ t a h. absurd (cc (h));
    small = λ a. inl refl;
    distinct = tt;
    idle = tt;
  };
  armed = tt;
}

module _ (q : TimerQueue) (a when interval : ℕ) (repeat : Bool) (h : IsHealthy q)
    (free : q.heap a ≡ none) (small : a < uintptr_max) (valid : 0 < when) where
  abbrev with_timer : TimerQueue
  with_timer = added h.inv a when interval repeat free small valid

  with_timer-Inv : Inv [] with_timer
  with_timer-Inv = added-Inv h.inv a when interval repeat free small valid

  with_timer-IsHealthy :
      (test : Bool)
      → is_earliest when q.timers ≡ test
      → IsHealthy (if test then reset_timerfd when with_timer else with_timer)
        × (contains (when, a) (if test then reset_timerfd when with_timer else with_timer).timers
            ≡ true)
        × (contains
              (a, suc q.num_created)
              (if test then reset_timerfd when with_timer else with_timer).active_timers
            ≡ true)
  unfolding reset_timerfd
  with_timer-IsHealthy true e = (
    record {
      inv =
          rest_of-Inv (some when) q.canceling_timers q.calling_expired_timers (suc q.num_created)
            with_timer-Inv;
      armed = rw e at (IsArmed-insert when a q.timers q.timerfd h.armed);
    },
    inserted_here (when, a) q.timers,
    inserted_here (a, suc q.num_created) q.active_timers,
  )
  with_timer-IsHealthy false e = (
    record {
      inv = with_timer-Inv;
      armed = rw e at (IsArmed-insert when a q.timers q.timerfd h.armed);
    },
    inserted_here (when, a) q.timers,
    inserted_here (a, suc q.num_created) q.active_timers,
  )

  -- `addTimer` of a valid time, at a free address, runs through: the timer's id is its address and a new
  -- sequence number, the timer waits under that time and is active, and the queue stays healthy: the sets
  -- agree, and the descriptor is set for the first timer or for a time before it.
  pub add_timer-IsHealthy :
      (q' : TimerQueue) × (add_timer a when interval repeat q ≡ some ((a, suc q.num_created), q'))
      × IsHealthy q'
      × (contains (when, a) q'.timers ≡ true)
      × (contains (a, suc q.num_created) q'.active_timers ≡ true)
  add_timer-IsHealthy =
      let (i, j, k) = with_timer-IsHealthy (is_earliest when q.timers) refl in
      (_, add_timer-eq h.inv a when interval repeat free small valid, i, j, k)

IsArmed-cancelled :
    {out : List Pair} {a s : ℕ} (q q' : TimerQueue)
    → Sorted q.timers
    → IsCancelled out a s q q'
    → IsArmed q.timers q.timerfd
    → IsArmed q'.timers q'.timerfd
IsArmed-cancelled q q' s c h =
    rw c.same_timerfd (elim c.timers [
      | inl e ↦ rw e h
      | inr (x, e) ↦ rw e (IsArmed-erase x q.timers q.timerfd s h)
    ])

-- `cancelInLoop` runs through for every `TimerId`, of a timer that waits, has run or never was, and keeps
-- the queue healthy: exactly that timer is not active any more, and where expired timers run and it was
-- not active, it is noted as cancelled.
pub cancel_in_loop-IsHealthy :
    (q : TimerQueue) (a s : ℕ)
    → IsHealthy q
    → Gives (cancel_in_loop (a, s) q) (λ q'. IsHealthy q' × IsCancelled [] a s q q')
cancel_in_loop-IsHealthy q a s h =
    let (q', e, c) = cancel_in_loop-IsCancelled h.inv a s in
    (
      q',
      e,
      (record { inv = c.inv; armed = IsArmed-cancelled q q' h.inv.sorted_timers c h.armed }, c),
    )
