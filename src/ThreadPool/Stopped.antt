-- ===== src/ThreadPool/Stopped.antt =====
-- A producer that waits when the pool is stopped.
use muduo.Base.{
  true, false, ℕ, suc, ◌+◌, ◌-◌, ◌<◌, ◌≤◌, length, lt→ltb, le→leb, ◌≡◌, refl, sym, subst, arith,
}
use muduo.ThreadPool.{ThreadPool, is_full, run, run_again, stop}
use muduo.ThreadPool.Wakeups.{
  Step, runs, runs_again, takes, leaves, stops, wakes_worker, wakes_producer,
}

-- The pool has been stopped while its queue was full, and all workers have ended.
pub record IsOver (p : ThreadPool) : Type 0 where
  pub stopped : p.running ≡ false
  pub no_active : p.active_workers ≡ 0
  pub no_waiting : p.waiting_workers ≡ 0
  pub bounded : 0 < p.max_queue_size
  pub full : p.max_queue_size ≤ length p.queue

-- The threads that are in `run`.
abbrev pub producers : ThreadPool → ℕ
producers p = p.awake_producers + p.waiting_producers

over-is_full : (p : ThreadPool) → IsOver p → is_full p ≡ true
over-is_full p o =
    rw (lt→ltb 0 p.max_queue_size o.bounded, le→leb p.max_queue_size (length p.queue) o.full) refl

run-over :
    (task : ℕ) (p : ThreadPool)
    → IsOver p
    → run task p ≡ record p { waiting_producers = suc p.waiting_producers }
unfolding run
run-over task p o = rw (over-is_full p o) refl

run_again-over :
    (task : ℕ) (p : ThreadPool)
    → IsOver p
    → run_again task p ≡ record p {
      awake_producers = p.awake_producers - 1;
      waiting_producers = suc p.waiting_producers;
    }
unfolding run_again
run_again-over task p o = rw (over-is_full p o) refl

pub data Steps (p : ThreadPool) : ThreadPool → Type 0 where
  done : Steps p p
  more : {q r : ThreadPool} → Steps p q → Step q r → Steps p r

-- No task has been accepted since, and no thread has come out of `run`.
pub record IsStuck (p q : ThreadPool) : Type 0 where
  pub over : IsOver q
  pub same_accepted : q.accepted ≡ p.accepted
  pub blocked : producers p ≤ producers q

-- What a step does that leaves the queue and the workers.
moved-IsStuck :
    (p q : ThreadPool) (awake waiting : ℕ)
    → IsStuck p q
    → producers q ≤ awake + waiting
    → IsStuck p (record q { awake_producers = awake; waiting_producers = waiting })
moved-IsStuck p q awake waiting s h = record {
  over = record {
    stopped = s.over.stopped;
    no_active = s.over.no_active;
    no_waiting = s.over.no_waiting;
    bounded = s.over.bounded;
    full = s.over.full;
  };
  same_accepted = s.same_accepted;
  blocked = omega (arith, s.blocked);
}

step-IsStuck : (p q r : ThreadPool) → IsStuck p q → Step q r → IsStuck p r
unfolding stop
step-IsStuck p q r s (runs task) =
    subst (IsStuck p) (sym (run-over task q s.over))
      (moved-IsStuck p q q.awake_producers (suc q.waiting_producers) s (omega arith))
step-IsStuck p q r s (runs_again task h) =
    subst (IsStuck p) (sym (run_again-over task q s.over))
      (moved-IsStuck p q (q.awake_producers - 1) (suc q.waiting_producers) s (omega arith))
step-IsStuck p q r s (takes h) = absurd (omega (arith, s.over.no_active))
step-IsStuck p q r s (leaves h e) = absurd (omega (arith, s.over.no_active))
step-IsStuck p q r s stops = record {
  over = record {
    stopped = refl;
    no_active = omega (arith, s.over.no_active, s.over.no_waiting);
    no_waiting = refl;
    bounded = s.over.bounded;
    full = s.over.full;
  };
  same_accepted = s.same_accepted;
  blocked = s.blocked;
}
step-IsStuck p q r s (wakes_worker h) = absurd (omega (arith, s.over.no_waiting))
step-IsStuck p q r s (wakes_producer h) =
    moved-IsStuck p q (suc q.awake_producers) (q.waiting_producers - 1) s (omega arith)

-- When a pool with a bounded queue has been stopped while the queue was full, and its workers have
-- ended, then after any steps it is still so, no further task has been accepted, and no thread that
-- was in `run` has come out of it.
pub Steps-IsStuck : (p q : ThreadPool) → IsOver p → Steps p q → IsStuck p q
Steps-IsStuck p q o done = record { over = o; same_accepted = refl; blocked = omega arith }
Steps-IsStuck p q o (more {q = m} steps s) = step-IsStuck p m q (Steps-IsStuck p m o steps) s
