-- ===== src/ThreadPool/Take.antt =====
-- `take` keeps the invariant.
use muduo.Base.{
  true, false, ℕ, suc, ◌-◌, ◌<◌, ◌≤◌, List, [], ◌∷◌, ◌++◌, append_assoc, length, ltb, ◌≡◌, refl,
  sym, ap, ◌∙◌, ◌⊎◌, inl, inr, Bool-cases, subst, arith,
}
use muduo.ThreadPool.{ThreadPool, notify_not_full, take_front}
use muduo.ThreadPool.Wakeups.{Inv}

-- A task is taken out.
module _ (p : ThreadPool) (task : ℕ) (tasks : List ℕ) (q : p.queue ≡ task ∷ tasks) (v : Inv p) where
  abbrev rest : ThreadPool
  rest = record p { queue = tasks; taken = p.taken ++ task ∷ [] }

  shrunk : length p.queue ≡ suc (length tasks)
  shrunk = ap length q

  rest-order : p.accepted ≡ (p.taken ++ task ∷ []) ++ tasks
  rest-order = v.order ∙ (ap (λ xs. p.taken ++ xs) q ∙ sym (append_assoc p.taken (task ∷ []) tasks))

  rest-bound : (p.max_queue_size ≡ 0) ⊎ (length tasks ≤ p.max_queue_size)
  rest-bound = elim v.bound [ inl z ↦ inl z | inr l ↦ inr (omega (arith, shrunk)) ]

  rest-workers :
      (p.waiting_workers ≡ 0) ⊎ ((_ : p.running ≡ true) × (length tasks ≤ p.active_workers))
  rest-workers = elim v.workers [ inl z ↦ inl z | inr (r, l) ↦ inr (r, omega (arith, shrunk)) ]

  notified-Inv : 0 < p.max_queue_size → Inv (notify_not_full rest)
  notified-Inv m = elim (Bool-cases (ltb 0 p.waiting_producers)) [
    | inl e ↦ rw e (record {
      order = rest-order;
      bound = rest-bound;
      workers = rest-workers;
      producers = elim v.producers [
        | inl z ↦ inl (omega arith)
        | inr (_, l) ↦ inr (m, omega (arith, shrunk))
      ];
    })
    | inr e ↦ rw e (record {
      order = rest-order;
      bound = rest-bound;
      workers = rest-workers;
      producers = inl (ground arith);
    })
  ]

  rest-Inv : Inv (take_front (task ∷ tasks) p)
  rest-Inv = elim (Bool-cases (ltb 0 p.max_queue_size)) [
    | inl e ↦ rw e (notified-Inv (ground arith))
    | inr e ↦ rw e (record {
      order = rest-order;
      bound = rest-bound;
      workers = rest-workers;
      producers = elim v.producers [ inl z ↦ inl z | inr (m, l) ↦ absurd (ground arith) ];
    })
  ]

take_front-running :
    (p : ThreadPool)
    → p.running ≡ true
    → take_front [] p
      ≡ record p { active_workers = p.active_workers - 1; waiting_workers = suc p.waiting_workers }
take_front-running p e = rw e refl

take_front-stopped : (p : ThreadPool) → p.running ≡ false → take_front [] p ≡ p
take_front-stopped p e = rw e refl

-- A stopped pool has no waiting workers.
pub no_waiting : (p : ThreadPool) → Inv p → p.running ≡ false → p.waiting_workers ≡ 0
no_waiting p v e = elim v.workers [ inl z ↦ z | inr (r, _) ↦ absurd (cc (sym e ∙ r)) ]

pub take_front-Inv :
    (p : ThreadPool) (tasks : List ℕ)
    → p.queue ≡ tasks
    → 0 < p.active_workers
    → Inv p
    → Inv (take_front tasks p)
take_front-Inv p (task ∷ tasks) q h v = rest-Inv p task tasks q v
take_front-Inv p [] q h v = elim (Bool-cases p.running) [
  | inl e ↦ subst Inv (sym (take_front-running p e)) (record {
    order = v.order;
    bound = v.bound;
    workers = inr (e, omega (arith, ap length q));
    producers = v.producers;
  })
  | inr e ↦ subst Inv (sym (take_front-stopped p e)) v
]
