-- ===== src/Connector/Reach.antt =====
-- The states that a connector reaches, and that every step of its loop and users runs through there.
use muduo.Base.{
  Bool, true, false, ℕ, some, ◌≡◌, refl, sym, ap, ◌∙◌, Gives, Bool-cases, ◌⊎◌, none, inl, inr,
  subst, arith,
}
use muduo.Connector.{Connector, disconnected, retry, start_away, stop, new_connector}
use muduo.Connector.Invariant.{
  resets, Mode, resting, retiring, trying, making, made, Event, start_here_event, start_away_event,
  stop_event, restart_event, functor_event, timer_event, channel_event, handle_event, step,
  IsAllowed, IsLate,
}
use muduo.Connector.Steps.{
  start_in_loop-Mode, handle_error-run, handle_error-trying, handle_write-trying, queued,
}
use muduo.Connector.Safety.{
  at_rest, restart-Mode, start_away-Mode, stop-Mode, functor-Mode, timer-Mode, write_behind,
}

some_same : {A : Type 0} {x y : A} → some x ≡ some y → x ≡ y
some_same h = cc

retry_state : (fd : ℕ) (c : Connector) → (retry fd c).state ≡ disconnected
unfolding retry
retry_state fd c = elim (Bool-cases c.connect_) [ inl e ↦ rw e refl | inr e ↦ rw e refl ]

-- The events of the channel of an attempt.
channel-Mode :
    (error write : Bool) (err : ℕ) (self_connect : Bool) (c : Connector) (fd : ℕ)
    → c.channel ≡ some fd
    → resets c.queue ≡ 0
    → Mode c
    → Gives (handle_event error write err self_connect c) Mode
channel-Mode error write err self_connect c fd h q (resting st ch r n o) = absurd (cc (sym h ∙ ch))
channel-Mode error write err self_connect c fd h q (retiring g st ch r s n o) = absurd (omega arith)
channel-Mode error write err self_connect c fd h q (making g st ch r s n o) = absurd (omega arith)
channel-Mode error write err self_connect c fd h q (made st ch r s n o) = absurd (cc (sym h ∙ ch))
channel-Mode false false err self_connect c fd h q m = (c, refl, m)
channel-Mode false true err self_connect c fd h q (trying g st ch r s n o) =
    handle_write-trying g c st ch r s n o err self_connect
channel-Mode true false err self_connect c fd h q (trying g st ch r s n o) =
    let (c', e, m) = handle_error-trying g c st ch r s n o in (c', rw e refl, m)
channel-Mode true true err self_connect c fd h q (trying g st ch r s n o) =
    let (c', e, m) = handle_error-trying g c st ch r s n o in
    let same : retry g (queued g c st ch r s n o) ≡ c' =
      cc (sym (handle_error-run g c st ch r s n o) ∙ e) in
    (
      c',
      rw e (
          write_behind err self_connect c'
            (ap (λ (x : Connector). x.state) (sym same) ∙ retry_state g _)),
      m,
    )

-- A step runs through and leaves the connector in one of the situations, or it is the timer that is late.
abbrev pub Runs : Event → Connector → Type 0
Runs e c = Gives (step e c) Mode ⊎ ((step e c ≡ none) × IsLate e c)

step-Mode : (e : Event) (c : Connector) → IsAllowed e c → Mode c → Runs e c
step-Mode (start_here_event k) c (st, ch, s, t) m =
    let (r, o) = at_rest c m st ch in
    inl (start_in_loop-Mode k (record c { connect_ = true }) st ch r s t o)
step-Mode start_away_event c (st, ch, s, t) m =
    inl (start_away c, refl, start_away-Mode c m st ch s t)
step-Mode stop_event c a m = inl (stop c, refl, stop-Mode c m)
step-Mode (restart_event k) c (st, ch) m = inl (restart-Mode k c m st ch)
step-Mode (functor_event k) c a m = inl (functor-Mode k c c.queue refl m)
step-Mode (timer_event k) c a m = elim (timer-Mode k c c.timers refl m) [
  | inl g ↦ inl g
  | inr (h, r, st) ↦ inr (h, (r, st))
]
step-Mode (channel_event error write err self_connect) c (fd, ch, r) m =
    inl (channel-Mode error write err self_connect c fd ch r m)

pub data Reach : Connector → Type 0 where
  initial : Reach new_connector
  next : {c c' : Connector} → Reach c → (e : Event) → IsAllowed e c → step e c ≡ some c' → Reach c'

Mode-behind : (e : Event) (c c' : Connector) → step e c ≡ some c' → Runs e c → Mode c'
Mode-behind e c c' h (inl (d, run, m)) = subst Mode (some_same (sym run ∙ h)) m
Mode-behind e c c' h (inr (stopped, late)) = absurd (cc (sym stopped ∙ h))

pub Reach-Mode : (c : Connector) → Reach c → Mode c
Reach-Mode c initial = resting refl refl refl (omega arith) refl
Reach-Mode c (next {c = b} r e a h) = Mode-behind e b c h (step-Mode e b a (Reach-Mode b r))
