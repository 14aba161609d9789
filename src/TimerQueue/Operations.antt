-- ===== src/TimerQueue/Operations.antt =====
-- Adding a timer keeps the invariant, also inside a timer's callback.
use muduo.Base.{
  Bool, true, false, ℕ, suc, ◌<◌, Option, none, some, List, [], ◌∷◌, if◌then◌else◌, Gives, ◌≡◌,
  refl, inr, arith,
}
use muduo.Base.PairSet.{Pair, insert}
use muduo.TimerQueue.{
  Timer, TimerQueue, update_at, is_earliest, new_timer, reset_timerfd, add_timer_in_loop, add_timer,
  uintptr_max,
}
use muduo.TimerQueue.Invariant.{
  has_address, AllIdle, AllIdle-keep, Inv, IsAbsent, IsAbsent-free, heap-Inv, inserted-Inv,
  insert_timer-eq, update_here,
}

AllIdle-alive :
    (q : TimerQueue) (out : List Pair) (a : ℕ)
    → AllIdle q out
    → q.heap a ≡ none
    → has_address a out ≡ false
AllIdle-alive q [] a i e = refl
AllIdle-alive q ((t, b) ∷ ts) a ((tm, f, _), i) e = ground (arith, AllIdle-alive q ts a i e, e, f)

abbrev made : ℕ → ℕ → ℕ → Bool → TimerQueue → Timer
made a when interval repeat q = record {
  expiration = when;
  interval = interval;
  repeat = repeat;
  sequence = suc q.num_created;
}

-- The other fields do not matter to the invariant.
abbrev pub rest_of : Option ℕ → List Pair → Bool → ℕ → TimerQueue → TimerQueue
rest_of o cs calling n q = record q {
  timerfd = o;
  canceling_timers = cs;
  calling_expired_timers = calling;
  num_created = n;
}

pub rest_of-Inv :
    {out : List Pair} {q : TimerQueue} (o : Option ℕ) (cs : List Pair) (calling : Bool) (n : ℕ)
    → Inv out q
    → Inv out (rest_of o cs calling n q)
rest_of-Inv {out} {q} o cs calling n v = record {
  sizes = v.sizes;
  sorted_timers = v.sorted_timers;
  sorted_active = v.sorted_active;
  in_timers = v.in_timers;
  in_active = v.in_active;
  valid = v.valid;
  small = v.small;
  distinct = v.distinct;
  idle = AllIdle-keep q (rest_of o cs calling n q) out (λ b m. refl) (λ b s m k. k) v.idle;
}

module _ {out : List Pair} {q : TimerQueue} (v : Inv out q) where
  module _ (a when interval : ℕ) (repeat : Bool) (free : q.heap a ≡ none) (small : a < uintptr_max)
      (valid : 0 < when) where
    not_out : has_address a out ≡ false
    not_out = AllIdle-alive q out a v.idle free

    new_timer-Inv : Inv out (new_timer a when interval repeat q)
    unfolding new_timer
    new_timer-Inv =
        rest_of-Inv q.timerfd q.canceling_timers q.calling_expired_timers (suc q.num_created) (
          heap-Inv v a (IsAbsent-free v a free) not_out (some (made a when interval repeat q))
            (inr small))

    new_timer-IsAbsent : IsAbsent (new_timer a when interval repeat q) a
    unfolding new_timer
    new_timer-IsAbsent = record {
      not_timer = (IsAbsent-free v a free).not_timer;
      not_active = (IsAbsent-free v a free).not_active;
    }

    new_timer-heap :
        (new_timer a when interval repeat q).heap a ≡ some (made a when interval repeat q)
    unfolding new_timer
    new_timer-heap = update_here q.heap a (some (made a when interval repeat q))

    reset_if-Inv :
        (test : Bool) (t : ℕ) {q' : TimerQueue}
        → Inv out q'
        → Inv out (if test then reset_timerfd t q' else q')
    unfolding reset_timerfd
    reset_if-Inv true t {q' = q'} w =
        rest_of-Inv (some t) q'.canceling_timers q'.calling_expired_timers q'.num_created w
    reset_if-Inv false t w = w

    -- The queue with the new timer in both sets.
    abbrev pub added : TimerQueue
    added = record q {
      heap = update_at q.heap a (some (made a when interval repeat q));
      timers = insert (when, a) q.timers;
      active_timers = insert (a, suc q.num_created) q.active_timers;
      num_created = suc q.num_created;
    }

    pub added-Inv : Inv out added
    unfolding new_timer
    added-Inv =
        inserted-Inv new_timer-Inv a new_timer-IsAbsent not_out (made a when interval repeat q)
          new_timer-heap valid

    pub add_timer-eq :
        add_timer a when interval repeat q
        ≡ some (
          (a, suc q.num_created),
          if is_earliest when q.timers then reset_timerfd when added else added,
        )
    unfolding add_timer add_timer_in_loop new_timer
    add_timer-eq =
        rw
          (
            insert_timer-eq new_timer-Inv a new_timer-IsAbsent not_out
                (made a when interval repeat q) new_timer-heap valid,
            new_timer-heap,
          )
          refl

    pub add_timer-Inv :
        Gives
          (add_timer a when interval repeat q)
          (λ r. (r.0 ≡ (a, suc q.num_created)) × Inv out r.1)
    add_timer-Inv = rw add_timer-eq (_, refl, (refl, reset_if-Inv _ when added-Inv))
