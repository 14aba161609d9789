-- ===== src/ThreadPool/Wakeups.antt =====
-- The steps of the threads, and what they keep; `run`.
use muduo.Base.{
  true, false, ℕ, suc, ◌+◌, ◌-◌, ◌<◌, ◌≤◌, [], ◌∷◌, ◌++◌, append_assoc, length, length-append, ltb,
  ◌≡◌, refl, ap, ◌∙◌, ◌⊎◌, inl, inr, Bool-cases, arith,
}
use muduo.ThreadPool.{
  ThreadPool, start, is_full, push, run, run_again, take, leave, stop, wake_worker, wake_producer,
}

-- One step of some thread, where it can be taken.
pub data Step (p : ThreadPool) : ThreadPool → Type 0 where
  runs : (task : ℕ) → Step p (run task p)
  runs_again : (task : ℕ) → 0 < p.awake_producers → Step p (run_again task p)
  takes : 0 < p.active_workers → Step p (take p)
  leaves : 0 < p.active_workers → p.running ≡ false → Step p (leave p)
  stops : Step p (stop p)
  wakes_worker : 0 < p.waiting_workers → Step p (wake_worker p)
  wakes_producer : 0 < p.waiting_producers → Step p (wake_producer p)

-- Where a worker waits, the pool runs and there are as many other workers as tasks; where a producer
-- waits, there are as many other producers in the loop as free places.
pub record Inv (p : ThreadPool) : Type 0 where
  pub order : p.accepted ≡ p.taken ++ p.queue
  pub bound : (p.max_queue_size ≡ 0) ⊎ (length p.queue ≤ p.max_queue_size)
  pub workers :
      (p.waiting_workers ≡ 0) ⊎ ((_ : p.running ≡ true) × (length p.queue ≤ p.active_workers))
  pub producers :
      (p.waiting_producers ≡ 0)
      ⊎ ((_ : 0 < p.max_queue_size) × (p.max_queue_size ≤ length p.queue + p.awake_producers))

pub start-Inv : (max_size num_threads : ℕ) → Inv (start max_size num_threads)
start-Inv max_size num_threads = record {
  order = refl;
  bound = inr (omega arith);
  workers = inl refl;
  producers = inl refl;
}

-- A place is free.
is_full-false :
    (p : ThreadPool)
    → is_full p ≡ false
    → (p.max_queue_size ≡ 0) ⊎ (length p.queue < p.max_queue_size)
is_full-false p e = ground arith

is_full-true :
    (p : ThreadPool)
    → is_full p ≡ true
    → (0 < p.max_queue_size) × (p.max_queue_size ≤ length p.queue)
is_full-true p e = (ground arith, ground arith)

push-Inv :
    (task : ℕ) (p : ThreadPool)
    → p.accepted ≡ p.taken ++ p.queue
    → (p.max_queue_size ≡ 0) ⊎ (length p.queue < p.max_queue_size)
    → (p.waiting_workers ≡ 0) ⊎ ((_ : p.running ≡ true) × (length p.queue ≤ p.active_workers))
    → (p.waiting_producers ≡ 0)
      ⊎ ((_ : 0 < p.max_queue_size) × (p.max_queue_size ≤ suc (length p.queue) + p.awake_producers))
    → Inv (push task p)
push-Inv task p o b w n = elim (Bool-cases (ltb 0 p.waiting_workers)) [
  | inl e ↦
      rw e (record { order = order; bound = bound; workers = workers e; producers = producers })
  | inr e ↦
      rw e (record {
        order = order;
        bound = bound;
        workers = inl (ground arith);
        producers = producers;
      })
]
  where
    grown : length (p.queue ++ task ∷ []) ≡ suc (length p.queue)
    grown = omega (arith, length-append p.queue (task ∷ []))

    order : p.accepted ++ task ∷ [] ≡ p.taken ++ (p.queue ++ task ∷ [])
    order = ap (λ xs. xs ++ task ∷ []) o ∙ append_assoc p.taken p.queue (task ∷ [])

    bound : (p.max_queue_size ≡ 0) ⊎ (length (p.queue ++ task ∷ []) ≤ p.max_queue_size)
    bound = elim b [ inl z ↦ inl z | inr l ↦ inr (omega (arith, grown)) ]

    workers :
        ltb 0 p.waiting_workers ≡ true
        → (p.waiting_workers - 1 ≡ 0)
          ⊎ ((_ : p.running ≡ true) × (length (p.queue ++ task ∷ []) ≤ suc p.active_workers))
    workers e = elim w [ inl z ↦ inl (omega arith) | inr (r, l) ↦ inr (r, omega (arith, grown)) ]

    producers :
        (p.waiting_producers ≡ 0)
        ⊎ ((_ : 0 < p.max_queue_size) × (p.max_queue_size
              ≤ length (p.queue ++ task ∷ []) + p.awake_producers))
    producers = elim n [ inl z ↦ inl z | inr (m, l) ↦ inr (m, omega (arith, grown)) ]

pub run-Inv : (task : ℕ) (p : ThreadPool) → Inv p → Inv (run task p)
unfolding run
run-Inv task p v = elim (Bool-cases (is_full p)) [
  | inl e ↦
      (let (m, l) = is_full-true p e in
        rw e (record {
          order = v.order;
          bound = v.bound;
          workers = v.workers;
          producers = inr (m, omega arith);
        }))
  | inr e ↦ rw e (
      push-Inv task p v.order (is_full-false p e) v.workers
        (elim v.producers [ inl z ↦ inl z | inr (m, l) ↦ inr (m, omega arith) ]))
]

pub run_again-Inv :
    (task : ℕ) (p : ThreadPool) → 0 < p.awake_producers → Inv p → Inv (run_again task p)
unfolding run_again
run_again-Inv task p h v = elim (Bool-cases (is_full p)) [
  | inl e ↦
      (let (m, l) = is_full-true p e in
        rw e (record {
          order = v.order;
          bound = v.bound;
          workers = v.workers;
          producers = inr (m, omega arith);
        }))
  | inr e ↦ rw e (
      push-Inv task (record p { awake_producers = p.awake_producers - 1 }) v.order
        (is_full-false p e) v.workers
        (elim v.producers [ inl z ↦ inl z | inr (m, l) ↦ inr (m, omega arith) ]))
]
