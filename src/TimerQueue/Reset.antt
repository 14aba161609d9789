-- ===== src/TimerQueue/Reset.antt =====
-- The callbacks of the expired timers, and `reset` behind them.
use muduo.Base.{
  Bool, true, false, not, ◌||◌, ◌&&◌, Bool-cases, ℕ, ◌+◌, ◌≤◌, ◌<◌, Option, none, some, List, [],
  ◌∷◌, ltb, ◌==◌, eq→==, if◌then◌else◌, ◌>>=◌, Gives, ◌≡◌, refl, sym, ap, ◌∙◌, subst, inl, inr,
  arith, ==_iff, and_left, lt→ltb,
}
use muduo.Base.PairSet.{Pair, contains}
use muduo.Base.PairSet.Laws.{contains-insert}
use muduo.TimerQueue.{
  Timer, TimerQueue, update_at, insert_timer, uintptr_max, restart, reset_one, reset_all,
  next_expire, reset, reset_timerfd,
}
use muduo.TimerQueue.Invariant.{
  has_address, Inv, IsAbsent, IsAbsent-idle, heap-Inv, inserted, inserted-Inv, insert_timer-eq,
  update_here, update_far,
}
use muduo.TimerQueue.Operations.{rest_of-Inv}

Inv-tail : {t a : ℕ} {ts : List Pair} {q : TimerQueue} → Inv ((t, a) ∷ ts) q → Inv ts q
Inv-tail v = record {
  sizes = v.sizes;
  sorted_timers = v.sorted_timers;
  sorted_active = v.sorted_active;
  in_timers = v.in_timers;
  in_active = v.in_active;
  valid = v.valid;
  small = v.small;
  distinct = v.distinct.1;
  idle = v.idle.1;
}

-- What becomes of an expired timer: it is deleted, unless it repeats and was not cancelled.
abbrev pub fate : ℕ → List Pair → ℕ → Option Timer → Option Timer
fate now cs a none = none
fate now cs a (some tm) =
    if tm.repeat && not (contains (a, tm.sequence) cs)
    then some (record tm { expiration = now + tm.interval })
    else none

abbrev pub due_at : ℕ → Option Timer → Bool
due_at t none = false
due_at t (some tm) = t == tm.expiration

-- The queue after the loop of `reset` over the listed timers: they meet their fate, the others stay as
-- they are, and just those that start again are added to the sets.
pub record IsReset (now : ℕ) (es : List Pair) (q q' : TimerQueue) : Type 0 where
  pub inv : Inv [] q'
  pub heaps :
      (a : ℕ)
      → q'.heap a
        ≡ (if has_address a es then fate now q.canceling_timers a (q.heap a) else q.heap a)
  pub timers :
      (t a : ℕ)
      → contains (t, a) q'.timers ≡ (
          contains (t, a) q.timers
          || (has_address a es && due_at t (fate now q.canceling_timers a (q.heap a))))

-- What one round of the loop of `reset` leaves.
record IsResetOne (now a : ℕ) (ts : List Pair) (q q' : TimerQueue) : Type 0 where
  inv : Inv ts q'
  heaps : (b : ℕ) → q'.heap b ≡ update_at q.heap a (fate now q.canceling_timers a (q.heap a)) b
  timers :
      (u b : ℕ)
      → contains (u, b) q'.timers ≡ (
          contains (u, b) q.timers
          || (b == a && due_at u (fate now q.canceling_timers a (q.heap a))))
  same_canceling : q'.canceling_timers ≡ q.canceling_timers
  same_timerfd : q'.timerfd ≡ q.timerfd

module _ (now t a : ℕ) (ts : List Pair) (q : TimerQueue) (v : Inv ((t, a) ∷ ts) q) (tm : Timer)
    (here : q.heap a ≡ some tm) (n : contains (a, tm.sequence) q.active_timers ≡ false)
    (set : 0 < now) where
  rest-Inv : Inv ts q
  rest-Inv = Inv-tail v

  absent : IsAbsent q a
  absent = IsAbsent-idle rest-Inv a (tm, here, n)

  address_small : a < uintptr_max
  address_small = ground (arith, v.small a, here)

  abbrev changed : Timer → TimerQueue
  changed x = record q { heap = update_at q.heap a (some x) }

  changed-Inv : (x : Timer) → Inv ts (changed x)
  changed-Inv x = heap-Inv rest-Inv a absent v.distinct.0 (some x) (inr address_small)

  changed-IsAbsent : (x : Timer) → IsAbsent (changed x) a
  changed-IsAbsent x = record { not_timer = absent.not_timer; not_active = absent.not_active }

  restarted :
      (tm.repeat && not (contains (a, tm.sequence) q.canceling_timers)) ≡ true
      → 0 < (restart now tm).expiration
  unfolding restart
  restarted e = rw (and_left tm.repeat _ e) (omega arith)

  reset_again :
      (test : Bool)
      → test ≡ (tm.repeat && not (contains (a, tm.sequence) q.canceling_timers))
      → Gives
          (if test
            then (do inserted ← insert_timer a (changed (restart now tm)); some inserted.1)
            else some (record q { heap = update_at q.heap a none }))
          (IsResetOne now a ts q)
  unfolding restart
  reset_again false e = (
    _,
    refl,
    record {
      inv = heap-Inv rest-Inv a absent v.distinct.0 none (inl refl);
      heaps = λ b. rw (here, ← e) refl;
      timers = λ u b. rw (here, ← e) (ground arith);
      same_canceling = refl;
      same_timerfd = refl;
    },
  )
  reset_again true e =
      rw
        (insert_timer-eq (changed-Inv (restart now tm)) a (changed-IsAbsent (restart now tm))
          v.distinct.0 (restart now tm) (update_here q.heap a (some (restart now tm)))
          (restarted (sym e)))
        (
          _,
          refl,
          record {
            inv =
                inserted-Inv (changed-Inv (restart now tm)) a (changed-IsAbsent (restart now tm))
                  v.distinct.0 (restart now tm) (update_here q.heap a (some (restart now tm)))
                  (restarted (sym e));
            heaps = λ b. rw (here, ← e, and_left tm.repeat _ (sym e)) refl;
            timers = λ u b.
                rw (here, ← e, and_left tm.repeat _ (sym e))
                  (contains-insert (u, b) (now + tm.interval, a) q.timers ∙ ground arith);
            same_canceling = refl;
            same_timerfd = refl;
          },
        )

  reset_one-IsResetOne : Gives (reset_one now a q) (IsResetOne now a ts q)
  unfolding reset_one
  reset_one-IsResetOne =
      rw here (reset_again (tm.repeat && not (contains (a, tm.sequence) q.canceling_timers)) refl)

module _ (now a : ℕ) (ts : List Pair) (q q₁ : TimerQueue) (r : IsResetOne now a ts q q₁)
    (alone : has_address a ts ≡ false) (q₂ : TimerQueue) (s : IsReset now ts q₁ q₂) where
  abbrev fate_of : ℕ → Option Timer
  fate_of b = fate now q.canceling_timers b (q.heap b)

  other_heap : (b : ℕ) → (b == a) ≡ false → q₁.heap b ≡ q.heap b
  other_heap b n = r.heaps b ∙ update_far q.heap a (fate_of a) b (ground arith)

  other_fate : (b : ℕ) → (b == a) ≡ false → fate now q₁.canceling_timers b (q₁.heap b) ≡ fate_of b
  other_fate b n = rw (r.same_canceling, other_heap b n) refl

  heaps_step : (b : ℕ) → q₂.heap b ≡ (if b == a || has_address b ts then fate_of b else q.heap b)
  heaps_step b = elim (Bool-cases (b == a)) [
    | inl e ↦
        subst (λ c. q₂.heap c ≡ (if c == a || has_address c ts then fate_of c else q.heap c))
          (sym ((==_iff b a).0 e))
          (s.heaps a ∙ rw (alone, eq→== a a refl) (r.heaps a ∙ update_here q.heap a (fate_of a)))
    | inr n ↦ s.heaps b ∙ rw (n, other_fate b n, other_heap b n) refl
  ]

  timers_step :
      (u b : ℕ)
      → contains (u, b) q₂.timers
        ≡ (contains (u, b) q.timers || ((b == a || has_address b ts) && due_at u (fate_of b)))
  timers_step u b = elim (Bool-cases (b == a)) [
    | inl e ↦
        subst
          (λ c.
            contains (u, c) q₂.timers
            ≡ (contains (u, c) q.timers || ((c == a || has_address c ts) && due_at u (fate_of c))))
          (sym ((==_iff b a).0 e)) (s.timers u a ∙ rw (alone, r.timers u a) (ground arith))
    | inr n ↦ s.timers u b ∙ rw (other_fate b n, r.timers u b, n) (ground arith)
  ]

reset_all-IsReset :
    (now : ℕ) (es : List Pair) (q : TimerQueue)
    → 0 < now
    → Inv es q
    → Gives (reset_all now es q) (λ q'. IsReset now es q q' × (q'.timerfd ≡ q.timerfd))
unfolding reset_all
reset_all-IsReset now [] q p v =
    (q, refl, (record { inv = v; heaps = λ a. refl; timers = λ t a. ground arith }, refl))
reset_all-IsReset now ((t, a) ∷ ts) q p v =
    let (tm, e, n) = v.idle.0 in
    let (q₁, f, r) = reset_one-IsResetOne now t a ts q v tm e n p in
    let (q₂, g, (s, same)) = reset_all-IsReset now ts q₁ p r.inv in
    (
      q₂,
      rw f g,
      (
        record {
          inv = s.inv;
          heaps = λ b. heaps_step now a ts q q₁ r v.distinct.0 q₂ s b;
          timers = λ u b. timers_step now a ts q q₁ r v.distinct.0 q₂ s u b;
        },
        same ∙ r.same_timerfd,
      ),
    )

-- The descriptor is set for a time that is not after the first expiration.
abbrev pub IsArmed : List Pair → Option ℕ → Type 0
IsArmed [] o = Unit {0}
IsArmed ((t, a) ∷ ts) o = (x : ℕ) × (o ≡ some x) × (x ≤ t)

-- The descriptor is set for the time of the first timer; without timers it stays as it was.
abbrev pub first_time : List Pair → Option ℕ → Option ℕ
first_time [] o = o
first_time ((t, a) ∷ ts) o = some t

pub IsArmed-first_time : (ts : List Pair) (o : Option ℕ) → IsArmed ts (first_time ts o)
IsArmed-first_time [] o = tt
IsArmed-first_time ((t, a) ∷ ts) o = (t, refl, omega arith)

-- `reset` also sets the descriptor for the next timer.
pub record IsResetArmed (now : ℕ) (es : List Pair) (q q' : TimerQueue) : Type 0 where
  pub is_reset : IsReset now es q q'
  pub armed : q'.timerfd ≡ first_time q'.timers q.timerfd

next_expire-first :
    (q : TimerQueue)
    → Inv [] q
    → (t a : ℕ) (ts : List Pair) → q.timers ≡ (t, a) ∷ ts
    → next_expire q ((t, a) ∷ ts) ≡ some t
unfolding next_expire
next_expire-first q v t a ts e =
    let (tm, f, g, _) = v.in_timers t a (rw e (ground arith)) in rw f (ap some g)

module _ (now : ℕ) (es : List Pair) (q q' : TimerQueue) (r : IsReset now es q q')
    (same : q'.timerfd ≡ q.timerfd) where
  set_timerfd : (o : Option ℕ) → IsReset now es q (record q' { timerfd = o })
  set_timerfd o = record {
    inv = rest_of-Inv o q'.canceling_timers q'.calling_expired_timers q'.num_created r.inv;
    heaps = r.heaps;
    timers = r.timers;
  }

  arm_next :
      (ts : List Pair)
      → q'.timers ≡ ts
      → Gives
          (next_expire q' ts >>= λ next. some (if ltb 0 next then reset_timerfd next q' else q'))
          (IsResetArmed now es q)
  unfolding next_expire reset_timerfd
  arm_next [] e = (q', refl, record { is_reset = r; armed = rw e same })
  arm_next ((t, a) ∷ ts) e = (
    record q' { timerfd = some t },
    rw (next_expire-first q' r.inv t a ts e, lt→ltb 0 t (r.inv.valid t a (rw e (ground arith))))
        refl,
    record { is_reset = set_timerfd (some t); armed = rw e refl },
  )

-- `reset`, at a valid time and for expired timers that are alive and in no set, runs through: the repeating
-- ones that were not cancelled wait again, under the time plus their interval, the other ones are
-- deleted, all other timers stay as they are, and the descriptor is set for the time of the first timer,
-- or left as it was when there is none.
pub reset-IsResetArmed :
    (now : ℕ) (es : List Pair) (q : TimerQueue)
    → 0 < now
    → Inv es q
    → Gives (reset now es q) (IsResetArmed now es q)
unfolding reset reset_timerfd
reset-IsResetArmed now es q p v =
    let (q', e, (r, same)) = reset_all-IsReset now es q p v in
    rw e (arm_next now es q q' r same q'.timers refl)
