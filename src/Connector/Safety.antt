-- ===== src/Connector/Safety.antt =====
-- Every sequence of steps runs through.
use muduo.Base.{
  Bool, false, ℕ, suc, none, some, List, [], ◌∷◌, ◌++◌, length, ◌≡◌, refl, sym, ap, ◌∙◌, ◌⊎◌, inl,
  inr, Gives, arith,
}
use muduo.Connector.{
  Connector, States, disconnected, connected, Task, start_in_loop_task, stop_in_loop_task,
  reset_channel_task, Answer, start_in_loop, start_away, stop, reset_channel, stop_in_loop, restart,
  is_connecting, handle_write,
}
use muduo.Connector.Invariant.{
  starts, resets, starts-append, resets-append, gone, Mode, resting, retiring, trying, making, made,
  perform, run_functor, run_timer,
}
use muduo.Connector.Steps.{start_in_loop-Mode, start_in_loop-late, stop_in_loop-trying}

-- A connector that is at rest.
pub at_rest :
    (c : Connector)
    → Mode c
    → c.state ≡ disconnected
    → c.channel ≡ none
    → (resets c.queue ≡ 0) × (c.opened ≡ gone c)
at_rest c (resting st ch r n o) d e = (r, o)
at_rest c (retiring fd st ch r s n o) d e = absurd (cc (sym e ∙ ch))
at_rest c (trying fd st ch r s n o) d e = absurd (cc (sym e ∙ ch))
at_rest c (making fd st ch r s n o) d e = absurd (cc (sym e ∙ ch))
at_rest c (made st ch r s n o) d e = absurd (cc (sym d ∙ st))

pub start_away-Mode :
    (c : Connector)
    → Mode c
    → c.state ≡ disconnected
    → c.channel ≡ none
    → starts c.queue ≡ 0
    → length c.timers ≡ 0
    → Mode (start_away c)
start_away-Mode c m st ch s t =
    let (r, o) = at_rest c m st ch in
    resting st ch (omega (arith, resets-append c.queue (start_in_loop_task ∷ [])))
      (omega (arith, starts-append c.queue (start_in_loop_task ∷ []))) o

pub stop-Mode : (c : Connector) → Mode c → Mode (stop c)
stop-Mode c m = go m
  where
    same_resets : resets (c.queue ++ stop_in_loop_task ∷ []) ≡ resets c.queue
    same_resets = omega (arith, resets-append c.queue (stop_in_loop_task ∷ []))

    same_starts : starts (c.queue ++ stop_in_loop_task ∷ []) ≡ starts c.queue
    same_starts = omega (arith, starts-append c.queue (stop_in_loop_task ∷ []))

    go : Mode c → Mode (stop c)
    go (resting st ch r n o) = resting st ch (same_resets ∙ r) (omega (arith, same_starts)) o
    go (retiring fd st ch r s n o) = retiring fd st ch (same_resets ∙ r) (same_starts ∙ s) n o
    go (trying fd st ch r s n o) = trying fd st ch (same_resets ∙ r) (same_starts ∙ s) n o
    go (making fd st ch r s n o) = making fd st ch (same_resets ∙ r) (same_starts ∙ s) n o
    go (made st ch r s n o) = made st ch (same_resets ∙ r) (same_starts ∙ s) n o

pub restart-Mode :
    (k : Answer) (c : Connector)
    → Mode c
    → c.state ≡ connected
    → c.channel ≡ none
    → Gives (restart k c) Mode
restart-Mode k c (resting st ch r n o) d e = absurd (cc (sym d ∙ st))
restart-Mode k c (retiring fd st ch r s n o) d e = absurd (cc (sym d ∙ st))
restart-Mode k c (trying fd st ch r s n o) d e = absurd (cc (sym d ∙ st))
restart-Mode k c (making fd st ch r s n o) d e = absurd (cc (sym e ∙ ch))
restart-Mode k c (made st ch r s n o) d e = start_in_loop-Mode k _ refl ch r s n o

-- `stopInLoop` in every situation.
stop_in_loop-idle :
    (c : Connector) (st : States)
    → c.state ≡ st
    → is_connecting st ≡ false
    → stop_in_loop c ≡ some c
unfolding stop_in_loop
stop_in_loop-idle c st e h = rw (e, h) refl

stop_in_loop-Mode : (c : Connector) → Mode c → Gives (stop_in_loop c) Mode
stop_in_loop-Mode c (resting st ch r n o) =
    (c, stop_in_loop-idle c disconnected st refl, resting st ch r n o)
stop_in_loop-Mode c (retiring fd st ch r s n o) =
    (c, stop_in_loop-idle c disconnected st refl, retiring fd st ch r s n o)
stop_in_loop-Mode c (trying fd st ch r s n o) = stop_in_loop-trying fd c st ch r s n o
stop_in_loop-Mode c (making fd st ch r s n o) =
    (c, stop_in_loop-idle c connected st refl, making fd st ch r s n o)
stop_in_loop-Mode c (made st ch r s n o) =
    (c, stop_in_loop-idle c connected st refl, made st ch r s n o)

module _ (k : Answer) (c : Connector) (tasks : List Task) where
  abbrev popped : Connector
  popped = record c { queue = tasks }

  start-Mode :
      Mode c
      → starts c.queue ≡ suc (starts tasks)
      → resets c.queue ≡ resets tasks
      → Gives (start_in_loop k popped) Mode
  start-Mode (resting st ch r n o) p q =
      start_in_loop-Mode k popped st ch (omega arith) (omega arith) (omega arith) o
  start-Mode (retiring fd st ch r s n o) p q = absurd (omega arith)
  start-Mode (trying fd st ch r s n o) p q = absurd (omega arith)
  start-Mode (making fd st ch r s n o) p q = absurd (omega arith)
  start-Mode (made st ch r s n o) p q = absurd (omega arith)

  reset-Mode :
      Mode c
      → starts c.queue ≡ starts tasks
      → resets c.queue ≡ suc (resets tasks)
      → Mode (reset_channel popped)
  reset-Mode (resting st ch r n o) p q = absurd (omega arith)
  reset-Mode (retiring fd st ch r s n o) p q = resting st refl (omega arith) (omega arith) o
  reset-Mode (trying fd st ch r s n o) p q = absurd (omega arith)
  reset-Mode (making fd st ch r s n o) p q = made st refl (omega arith) (omega arith) n o
  reset-Mode (made st ch r s n o) p q = absurd (omega arith)

  popped-Mode : Mode c → starts c.queue ≡ starts tasks → resets c.queue ≡ resets tasks → Mode popped
  popped-Mode (resting st ch r n o) p q = resting st ch (sym q ∙ r) (omega arith) o
  popped-Mode (retiring fd st ch r s n o) p q = retiring fd st ch (sym q ∙ r) (sym p ∙ s) n o
  popped-Mode (trying fd st ch r s n o) p q = trying fd st ch (sym q ∙ r) (sym p ∙ s) n o
  popped-Mode (making fd st ch r s n o) p q = making fd st ch (sym q ∙ r) (sym p ∙ s) n o
  popped-Mode (made st ch r s n o) p q = made st ch (sym q ∙ r) (sym p ∙ s) n o

  perform-Mode :
      (task : Task) → c.queue ≡ task ∷ tasks → Mode c → Gives (perform task k popped) Mode
  perform-Mode start_in_loop_task e m = start-Mode m (ap starts e) (ap resets e)
  perform-Mode stop_in_loop_task e m =
      stop_in_loop-Mode popped (popped-Mode m (ap starts e) (ap resets e))
  perform-Mode reset_channel_task e m =
      (reset_channel popped, refl, reset-Mode m (ap starts e) (ap resets e))

pub functor-Mode :
    (k : Answer) (c : Connector) (queue : List Task)
    → c.queue ≡ queue
    → Mode c
    → Gives (run_functor queue k c) Mode
functor-Mode k c [] e m = (c, refl, m)
functor-Mode k c (task ∷ tasks) e m = perform-Mode k c tasks task e m

-- A timer runs through, unless the channel of an attempt that is over is still there.
pub timer-Mode :
    (k : Answer) (c : Connector) (timers : List ℕ)
    → length c.timers ≡ length timers
    → Mode c
    → Gives (run_timer timers k c) Mode
      ⊎ ((run_timer timers k c ≡ none) × (resets c.queue ≡ 1) × (c.state ≡ disconnected))
timer-Mode k c [] e m = inl (c, refl, m)
timer-Mode k c (delay ∷ delays) e (resting st ch r n o) =
    inl (start_in_loop-Mode k (record c { timers = delays }) st ch r (omega arith) (omega arith) o)
timer-Mode k c (delay ∷ delays) e (retiring fd st ch r s n o) =
    elim (start_in_loop-late k (record c { timers = delays }) fd st ch r s (omega arith) o) [
      | inl g ↦ inl g
      | inr h ↦ inr (h, r, st)
    ]
timer-Mode k c (delay ∷ delays) e (trying fd st ch r s n o) = absurd (omega arith)
timer-Mode k c (delay ∷ delays) e (making fd st ch r s n o) = absurd (omega arith)
timer-Mode k c (delay ∷ delays) e (made st ch r s n o) = absurd (omega arith)

-- A write event behind an error: the attempt is over.
pub write_behind :
    (err : ℕ) (self_connect : Bool) (c : Connector)
    → c.state ≡ disconnected
    → handle_write err self_connect c ≡ some c
unfolding handle_write
write_behind err self_connect c e = rw e refl
