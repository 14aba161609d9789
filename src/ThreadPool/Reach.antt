-- ===== src/ThreadPool/Reach.antt =====
-- No wakeup is lost, the tasks are taken in order, and the queue stays within its bound.
use muduo.Base.{ℕ, refl, inl, inr, arith}
use muduo.ThreadPool.{ThreadPool, start, take, leave, stop}
use muduo.ThreadPool.Wakeups.{
  Step, runs, runs_again, takes, leaves, stops, wakes_worker, wakes_producer, Inv, start-Inv,
  run-Inv, run_again-Inv,
}
use muduo.ThreadPool.Take.{take_front-Inv, no_waiting}

step-Inv : (p p' : ThreadPool) → Step p p' → Inv p → Inv p'
unfolding take stop leave
step-Inv p p' (runs task) v = run-Inv task p v
step-Inv p p' (runs_again task h) v = run_again-Inv task p h v
step-Inv p p' (takes h) v = take_front-Inv p p.queue refl h v
step-Inv p p' (leaves h e) v = record {
  order = v.order;
  bound = v.bound;
  workers = inl (no_waiting p v e);
  producers = v.producers;
}
step-Inv p p' stops v = record {
  order = v.order;
  bound = v.bound;
  workers = inl refl;
  producers = v.producers;
}
step-Inv p p' (wakes_worker h) v = record {
  order = v.order;
  bound = v.bound;
  workers = elim v.workers [ inl z ↦ inl (omega arith) | inr (r, l) ↦ inr (r, omega arith) ];
  producers = v.producers;
}
step-Inv p p' (wakes_producer h) v = record {
  order = v.order;
  bound = v.bound;
  workers = v.workers;
  producers = elim v.producers [ inl z ↦ inl (omega arith) | inr (m, l) ↦ inr (m, omega arith) ];
}

-- The states that a pool of `num_threads` threads with a queue of `max_size` reaches.
pub data Reach (max_size num_threads : ℕ) : ThreadPool → Type 0 where
  initial : Reach max_size num_threads (start max_size num_threads)
  next :
      {p p' : ThreadPool} → Reach max_size num_threads p → Step p p' → Reach max_size num_threads p'

-- In every order of the steps of the producers, the workers and `stop`, spurious wakeups included, the
-- tasks are taken in the order in which they were accepted and each once, the queue never holds more
-- than its bound, and no wakeup is lost: while a worker waits there is another one for every task in
-- the queue, and while a producer waits there is another one in the loop for every free place.
pub Reach-Inv : (max_size num_threads : ℕ) (p : ThreadPool) → Reach max_size num_threads p → Inv p
Reach-Inv max_size num_threads p initial = start-Inv max_size num_threads
Reach-Inv max_size num_threads p (next {p = b} r s) =
    step-Inv b p s (Reach-Inv max_size num_threads b r)
