-- ===== src/TimerQueue/HandleRead.antt =====
-- `handleRead`: the expired timers' callbacks, which may add and cancel timers, and the reset.
use muduo.Base.{
  true, false, ℕ, ◌<◌, Option, none, List, [], ◌∷◌, Gives, ◌≡◌, refl, sym, subst, arith,
}
use muduo.Base.PairSet.{Pair, contains, below, pair_eq_refl}
use muduo.TimerQueue.{TimerQueue, Callbacks, uintptr_max, run_all, handle_read}
use muduo.TimerQueue.Invariant.{Inv}
use muduo.TimerQueue.Operations.{rest_of-Inv}
use muduo.TimerQueue.Expired.{get_expired-Inv, AllIdle-lookup, contains-has_address}
use muduo.TimerQueue.Reset.{IsArmed, IsArmed-first_time, reset-IsResetArmed}

-- A callback runs through and keeps the invariant, whatever timers wait for their reset.
abbrev pub Keeps : (TimerQueue → Option TimerQueue) → Type 0
Keeps f = (out : List Pair) (q : TimerQueue) → Inv out q → Gives (f q) (Inv out)

run_all-Inv :
    (run : Callbacks) (keeps : (s : ℕ) → Keeps (run s)) (out es : List Pair) (q : TimerQueue)
    → ((t a : ℕ) → contains (t, a) es ≡ true → contains (t, a) out ≡ true)
    → Inv out q
    → Gives (run_all run es q) (Inv out)
unfolding run_all
run_all-Inv run keeps out [] q sub v = (q, refl, v)
run_all-Inv run keeps out ((t, a) ∷ es) q sub v =
    let (tm, e, n) =
      AllIdle-lookup q out a v.idle
        (contains-has_address t a out (sub t a (rw (pair_eq_refl (t, a)) refl))) in
    let (q₁, f, w) = keeps tm.sequence out q v in
    rw (e, f) (run_all-Inv run keeps out es q₁ (λ u b h. sub u b (ground (arith, h))) w)

-- `handleRead` runs through when every callback does and keeps the invariant: no timer is used after its
-- deletion and no assertion fails. Afterwards the sets agree and no timer waits for a reset, and the
-- descriptor is set for the first timer, or for a time before it. The time `now` is a valid one.
pub handle_read-Inv :
    (run : Callbacks) (now : ℕ) (q : TimerQueue)
    → ((s : ℕ) → Keeps (run s))
    → 0 < now
    → Inv [] q
    → Gives (handle_read run now q) (λ q'. Inv [] q' × IsArmed q'.timers q'.timerfd)
unfolding handle_read
handle_read-Inv run now q keeps p v =
    let es = below (now, uintptr_max) q.timers in
    let (q₁, e, w, _, _) =
      get_expired-Inv now
        (rest_of-Inv none q.canceling_timers q.calling_expired_timers q.num_created v) in
    let (q₂, f, x) =
      run_all-Inv run keeps es es _ (λ t a h. h)
        (rest_of-Inv q₁.timerfd [] true q₁.num_created w) in
    let (q₃, g, r) =
      reset-IsResetArmed now es _ p
        (rest_of-Inv q₂.timerfd q₂.canceling_timers false q₂.num_created x) in
    (
      q₃,
      rw (e, f) g,
      (
        r.is_reset.inv,
        subst (IsArmed q₃.timers) (sym r.armed) (IsArmed-first_time q₃.timers q₂.timerfd),
      ),
    )
