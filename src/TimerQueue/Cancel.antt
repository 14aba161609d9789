-- ===== src/TimerQueue/Cancel.antt =====
-- Cancelling a timer keeps the invariant, also inside a timer's callback.
use muduo.Base.{
  Bool, true, false, not, ◌&&◌, Bool-cases, ℕ, none, some, List, [], ◌∷◌, length, eq→==,
  if◌then◌else◌, Gives, ◌≡◌, refl, sym, ap, ◌∙◌, subst, ◌⊎◌, inl, inr, arith,
}
use muduo.Base.PairSet.{Pair, contains, insert, erase, pair_eq}
use muduo.Base.PairSet.Laws.{
  Sorted-erase, length-erase, erased-cases, erased_keep, contains-erase, inserted_here,
}
use muduo.TimerQueue.{Timer, TimerQueue, update_at, erase_timer, cancel_in_loop}
use muduo.TimerQueue.Invariant.{
  has_address, AllIdle, AllIdle-keep, Inv, IsAbsent, heap-Inv, not_true, some-injective,
}
use muduo.TimerQueue.Operations.{rest_of-Inv}

AllIdle-active :
    (q : TimerQueue) (out : List Pair) (a : ℕ)
    → AllIdle q out
    → {tm : Timer} → q.heap a ≡ some tm
    → contains (a, tm.sequence) q.active_timers ≡ true
    → has_address a out ≡ false
AllIdle-active q [] a i e h = refl
AllIdle-active q ((t, b) ∷ ts) a ((x, f, n), i) e h =
    ground (arith, AllIdle-active q ts a i e h, e, f)

-- What `cancelInLoop` leaves: exactly that timer is not active any more, and it is deleted where it was;
-- where it was not active and expired timers run, it is noted, so that `reset` does not start it again.
pub record IsCancelled (out : List Pair) (a s : ℕ) (q q' : TimerQueue) : Type 0 where
  pub inv : Inv out q'
  pub actives :
      (b n : ℕ)
      → contains (b, n) q'.active_timers
        ≡ (not (pair_eq (b, n) (a, s)) && contains (b, n) q.active_timers)
  pub heap :
      (b : ℕ)
      → q'.heap b
        ≡ (if contains (a, s) q.active_timers then update_at q.heap a none b else q.heap b)
  pub same_timerfd : q'.timerfd ≡ q.timerfd
  pub timers : (q'.timers ≡ q.timers) ⊎ ((x : Pair) × (q'.timers ≡ erase x q.timers))
  pub noted :
      (contains (a, s) q.active_timers ≡ true)
      ⊎ ((q.calling_expired_timers ≡ false) ⊎ (contains (a, s) q'.canceling_timers ≡ true))

module _ {out : List Pair} {q : TimerQueue} (v : Inv out q) where
  -- What `cancelInLoop` makes of the sets for an active timer.
  module _ (a : ℕ) (tm : Timer) (here : q.heap a ≡ some tm)
      (active : contains (a, tm.sequence) q.active_timers ≡ true) where
    abbrev erased : TimerQueue
    erased = record q {
      timers = erase (tm.expiration, a) q.timers;
      active_timers = erase (a, tm.sequence) q.active_timers;
    }

    listed : contains (tm.expiration, a) q.timers ≡ true
    listed =
        let (x, e, f, g) = v.in_active a tm.sequence active in
        subst (λ (y : Timer). contains (y.expiration, a) q.timers ≡ true)
          (some-injective (sym e ∙ here)) g

    same_timer : (t : ℕ) → contains (t, a) q.timers ≡ true → t ≡ tm.expiration
    same_timer t h =
        let (x, e, f, g) = v.in_timers t a h in
        sym f ∙ ap (λ (y : Timer). y.expiration) (some-injective (sym e ∙ here))

    same_sequence : (s : ℕ) → contains (a, s) q.active_timers ≡ true → s ≡ tm.sequence
    same_sequence s h =
        let (x, e, f, g) = v.in_active a s h in
        sym f ∙ ap (λ (y : Timer). y.sequence) (some-injective (sym e ∙ here))

    erased-IsAbsent : IsAbsent erased a
    erased-IsAbsent = record {
      not_timer = λ t. not_true (contains (t, a) erased.timers) (λ h.
          let (n, m) = erased-cases (t, a) (tm.expiration, a) q.timers v.sorted_timers h in
          let e : t ≡ tm.expiration = same_timer t m in ground (arith));
      not_active = λ s. not_true (contains (a, s) erased.active_timers) (λ h.
          let (n, m) = erased-cases (a, s) (a, tm.sequence) q.active_timers v.sorted_active h in
          let e : s ≡ tm.sequence = same_sequence s m in ground (arith));
    }

    erased_timer :
        (t b : ℕ)
        → contains (t, b) erased.timers ≡ true
        → (x : Timer) × (q.heap b ≡ some x)
          × (x.expiration ≡ t)
          × (contains (b, x.sequence) erased.active_timers ≡ true)
    erased_timer t b h =
        let (n, m) = erased-cases (t, b) (tm.expiration, a) q.timers v.sorted_timers h in
        let (x, e, f, g) = v.in_timers t b m in
        (
          x,
          e,
          f,
          erased_keep (b, x.sequence) (a, tm.sequence) q.active_timers v.sorted_active
              (ground (arith, same_timer t)) g,
        )

    erased_active :
        (b s : ℕ)
        → contains (b, s) erased.active_timers ≡ true
        → (x : Timer) × (q.heap b ≡ some x)
          × (x.sequence ≡ s)
          × (contains (x.expiration, b) erased.timers ≡ true)
    erased_active b s h =
        let (n, m) = erased-cases (b, s) (a, tm.sequence) q.active_timers v.sorted_active h in
        let (x, e, f, g) = v.in_active b s m in
        (
          x,
          e,
          f,
          erased_keep (x.expiration, b) (tm.expiration, a) q.timers v.sorted_timers
              (ground (arith, same_sequence s)) g,
        )

    erased-Inv : Inv out erased
    erased-Inv = record {
      sizes = omega (
        arith,
        length-erase (tm.expiration, a) q.timers listed,
        length-erase (a, tm.sequence) q.active_timers active,
        v.sizes,
      );
      sorted_timers = Sorted-erase (tm.expiration, a) q.timers v.sorted_timers;
      sorted_active = Sorted-erase (a, tm.sequence) q.active_timers v.sorted_active;
      in_timers = erased_timer;
      in_active = erased_active;
      valid = λ t b h.
          v.valid t b (erased-cases (t, b) (tm.expiration, a) q.timers v.sorted_timers h).1;
      small = v.small;
      distinct = v.distinct;
      idle =
          AllIdle-keep q erased out (λ b m. refl)
            (λ b s m k. not_true (contains (b, s) erased.active_timers) (λ h.
              let (_, n) = erased-cases (b, s) (a, tm.sequence) q.active_timers v.sorted_active h in
              absurd (cc (n, k))))
            v.idle;
    }

    erase_timer-IsCancelled :
        Gives (erase_timer (a, tm.sequence) q) (IsCancelled out a tm.sequence q)
    unfolding erase_timer
    erase_timer-IsCancelled = (
      record erased { heap = update_at q.heap a none },
      rw
          (
            here,
            listed,
            eq→== (length (erase (tm.expiration, a) q.timers))
                (length (erase (a, tm.sequence) q.active_timers)) erased-Inv.sizes,
          )
          refl,
      record {
        inv =
            heap-Inv erased-Inv a erased-IsAbsent (AllIdle-active q out a v.idle here active) none
              (inl refl);
        actives = λ b n. contains-erase (b, n) (a, tm.sequence) q.active_timers v.sorted_active;
        heap = λ b. rw active refl;
        same_timerfd = refl;
        timers = inr ((tm.expiration, a), refl);
        noted = inl active;
      },
    )

  -- `cancelInLoop`, in a queue whose sets agree, runs through for every `TimerId`, of a timer that waits,
  -- has expired, has run or never was, also while expired timers wait for their reset: the sets agree
  -- still, exactly that timer is not active any more, it is deleted if it was active, and if it was not
  -- and expired timers run, it is noted as cancelled; the descriptor stays as it was.
  pub cancel_in_loop-IsCancelled :
      (a s : ℕ) → Gives (cancel_in_loop (a, s) q) (IsCancelled out a s q)
  unfolding cancel_in_loop
  cancel_in_loop-IsCancelled a s = elim (Bool-cases (contains (a, s) q.active_timers)) [
    | inl h ↦
        let (x, e, f, g) = v.in_active a s h in
        rw (eq→== (length q.timers) (length q.active_timers) v.sizes, h)
          (subst (λ n. Gives (erase_timer (a, n) q) (IsCancelled out a n q)) f
            (erase_timer-IsCancelled a x e
              (subst (λ n. contains (a, n) q.active_timers ≡ true) (sym f) h)))
    | inr h ↦
        rw (eq→== (length q.timers) (length q.active_timers) v.sizes, h)
          (canceling h q.calling_expired_timers refl)
  ]
    where
      without :
          contains (a, s) q.active_timers ≡ false
          → (b n : ℕ)
          → contains (b, n) q.active_timers
            ≡ (not (pair_eq (b, n) (a, s)) && contains (b, n) q.active_timers)
      without h b n = ground (arith, h)

      canceling :
          contains (a, s) q.active_timers ≡ false
          → (calling : Bool) → q.calling_expired_timers ≡ calling
          → Gives
              (some (
                if calling
                then record q { canceling_timers = insert (a, s) q.canceling_timers }
                else q))
              (IsCancelled out a s q)
      canceling h true e = (
        _,
        refl,
        record {
          inv =
              rest_of-Inv q.timerfd (insert (a, s) q.canceling_timers) q.calling_expired_timers
                q.num_created v;
          actives = without h;
          heap = λ b. rw h refl;
          same_timerfd = refl;
          timers = inl refl;
          noted = inr (inr (inserted_here (a, s) q.canceling_timers));
        },
      )
      canceling h false e = (
        _,
        refl,
        record {
          inv = v;
          actives = without h;
          heap = λ b. rw h refl;
          same_timerfd = refl;
          timers = inl refl;
          noted = inr (inl e);
        },
      )
