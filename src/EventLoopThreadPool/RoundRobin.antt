-- ===== src/EventLoopThreadPool/RoundRobin.antt =====
-- Which loops a started pool gives.
use native.Mathlib.Nat.{suc-mod, mod-eq_of_lt, mod_self, mod-lt}
use muduo.Base.{
  Bool, true, ℕ, zero, suc, ◌+◌, ◌%◌, ◌≤◌, ◌<◌, ◌≡◌, ◌∙◌, ap, refl, sym, subst, some, List, [], ◌∷◌,
  arith, inl, inr, length, get_elem?, leb, leb→le, leb→gt, Bool-cases, if◌then◌else◌, ◌==◌, ◌&&◌,
}
use muduo.EventLoopThreadPool.{
  EventLoopThreadPool, new_pool, set_thread_num, start_threads, start_pool, get_next_loop,
  get_loop_for_hash, next_loops,
}

length-start_threads : (f : ℕ → ℕ) (i n : ℕ) → length (start_threads f i n) ≡ n
unfolding start_threads
length-start_threads f i zero = refl
length-start_threads f i (suc n) = ap suc (length-start_threads f (i + 1) n)

get_elem?-start_threads :
    (f : ℕ → ℕ) (i n j : ℕ) → j < n → get_elem? (start_threads f i n) j ≡ some (f (i + j))
unfolding start_threads
get_elem?-start_threads f i zero j h = absurd (omega arith)
get_elem?-start_threads f i (suc n) zero h = ap (λ k. some (f k)) (omega arith)
get_elem?-start_threads f i (suc n) (suc j) h =
    get_elem?-start_threads f (i + 1) n j (omega arith) ∙ ap (λ k. some (f k)) (omega arith)

-- The index after `i`, as the code computes it.
suc-mod-wrap : (i n : ℕ) → 0 < n → (if leb n (i % n + 1) then 0 else i % n + 1) ≡ suc i % n
suc-mod-wrap i n h = elim (Bool-cases (leb n (i % n + 1))) [
  | inl last ↦
      rw (last, suc-mod i n, ap (λ k. k % n) (full (leb→le n (i % n + 1) last)), mod_self n) refl
  | inr more ↦
      rw
        (
          more,
          suc-mod i n,
          mod-eq_of_lt {n = suc (i % n)} {m = n} (omega (arith, leb→gt n (i % n + 1) more)),
        )
        (omega arith)
]
  where
    full : n ≤ i % n + 1 → suc (i % n) ≡ n
    full k = omega (arith, mod-lt i h)

-- A pool that has been started with `n` threads, after `i` connections.
record IsTurning (f : ℕ → ℕ) (base n i : ℕ) (p : EventLoopThreadPool) : Type 0 where
  started : p.started ≡ true
  base_loop : p.base_loop ≡ base
  loops : p.loops ≡ start_threads f 0 n
  next : (0 < n) → p.next ≡ i % n

-- The loop of turn `i`: the base loop when there are no threads, else the one of thread `i % n`.
abbrev pub turn : (ℕ → ℕ) → ℕ → ℕ → ℕ → ℕ
turn f base zero i = base
turn f base (suc n) i = f (i % suc n)

abbrev pub turns : (ℕ → ℕ) → ℕ → ℕ → ℕ → ℕ → List ℕ
turns f base n i zero = []
turns f base n i (suc k) = turn f base n i ∷ turns f base n (suc i) k

module _ (f : ℕ → ℕ) (base : ℕ) where
  get_next_loop-IsTurning :
      (n i : ℕ) {p : EventLoopThreadPool}
      → IsTurning f base n i p
      → (p' : EventLoopThreadPool) × (get_next_loop p ≡ some (turn f base n i, p'))
        × IsTurning f base n (suc i) p'
  unfolding get_next_loop start_threads
  get_next_loop-IsTurning zero i {p} h = (
    p,
    rw (h.started, h.loops, h.base_loop) refl,
    record {
      started = h.started;
      base_loop = h.base_loop;
      loops = h.loops;
      next = λ k. absurd (omega arith);
    },
  )
  get_next_loop-IsTurning (suc n) i {p} h = (
    record p { next = suc i % suc n },
    rw
        (
          h.started,
          h.loops,
          h.next (omega arith),
          get_elem?-start_threads f 0 (suc n) (i % suc n) (mod-lt i (omega arith)),
          length-start_threads f 1 n,
          suc-mod-wrap i (suc n) (omega arith),
        )
        (ap
          (λ j. some (
            f j,
            record p { started = true; next = suc i % suc n; loops = start_threads f 0 (suc n) },
          ))
          (omega arith)),
    record { started = h.started; base_loop = h.base_loop; loops = h.loops; next = λ k. refl },
  )

  next_loops-IsTurning :
      (n i k : ℕ) {p : EventLoopThreadPool}
      → IsTurning f base n i p
      → (p' : EventLoopThreadPool) × (next_loops k p ≡ some (turns f base n i k, p'))
        × IsTurning f base n (i + k) p'
  unfolding next_loops
  next_loops-IsTurning n i zero {p} h =
      (p, refl, subst (λ j. IsTurning f base n j p) (omega arith) h)
  next_loops-IsTurning n i (suc k) {p} h =
      let first = get_next_loop-IsTurning n i h in
      let others = next_loops-IsTurning n (suc i) k {p = first.0} first.2 in
      (
        others.0,
        rw (first.1, others.1) refl,
        subst (λ j. IsTurning f base n j others.0) (omega arith) others.2,
      )

  abbrev started_pool : ℕ → EventLoopThreadPool
  started_pool n = record {
    base_loop = base;
    started = true;
    num_threads = n;
    next = 0;
    loops = start_threads f 0 n;
  }

  started_pool-IsTurning : (n : ℕ) → IsTurning f base n 0 (started_pool n)
  started_pool-IsTurning n = record {
    started = refl;
    base_loop = refl;
    loops = refl;
    next = λ h. sym (mod-eq_of_lt h);
  }

  get_loop_for_hash-IsTurning :
      (n i hash_code : ℕ) {p : EventLoopThreadPool}
      → IsTurning f base n i p
      → get_loop_for_hash hash_code p ≡ some (turn f base n hash_code)
  unfolding get_loop_for_hash start_threads
  get_loop_for_hash-IsTurning zero i hash_code h = rw (h.loops, h.base_loop) refl
  get_loop_for_hash-IsTurning (suc n) i hash_code h =
      rw
        (
          h.loops,
          length-start_threads f 1 n,
          get_elem?-start_threads f 0 (suc n) (hash_code % suc n) (mod-lt hash_code (omega arith)),
        )
        (ap (λ j. some (f j)) (omega arith))

  -- A new pool that is started with `n` threads gives new connections the loops of the threads in turn,
  -- from the first to the last and over again, or always the base loop when `n` is 0; and, however many
  -- connections there have been, the loop for a hash is the one whose turn has that number. The callback
  -- is called here for the base loop when `n` is 0.
  pub next_loops-turns :
      (n k : ℕ) (has_callback : Bool) (hash_code : ℕ)
      → (p : EventLoopThreadPool) × (p' : EventLoopThreadPool) × (start_pool f has_callback
            (set_thread_num n (new_pool base))
          ≡ some (p, if n == 0 && has_callback then base ∷ [] else []))
        × (next_loops k p ≡ some (turns f base n 0 k, p'))
        × (get_loop_for_hash hash_code p' ≡ some (turn f base n hash_code))
  unfolding start_pool set_thread_num new_pool
  next_loops-turns n k has_callback hash_code =
      let given = next_loops-IsTurning n 0 k (started_pool-IsTurning n) in
      (
        started_pool n,
        given.0,
        refl,
        given.1,
        get_loop_for_hash-IsTurning n (0 + k) hash_code given.2,
      )
