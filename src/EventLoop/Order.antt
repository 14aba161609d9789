-- ===== src/EventLoop/Order.antt =====
-- muduo/net/EventLoop.cc: functors run once each, in the order in which they were queued.
use muduo.Base.{
  Bool, true, false, ℕ, List, [], ◌∷◌, ◌++◌, append_assoc, append-nil, if◌then◌else◌, ◌≡◌, sym, ap,
  ◌∙◌, refl,
}
use muduo.EventLoop.{
  Phase, idle, polling, to_run, is_calling, Loop, fresh, wakeup, handle_read, push_functor,
  queue_in_loop, set_quit, quit, owing, pay, start, swap_functors, call_functor, next_iteration,
  Step, enter, poll_return, handle_wakeup, do_pending_functors, run_functor, iterate, queue_outside,
  quit_outside, wakeup_outside, queue_inside, quit_inside, Reach, here, then_step,
}

abbrev pub InOrder : Loop → Type 0
InOrder l = l.executed ++ (to_run l.phase ++ l.pending_functors) ≡ l.queued

to_run-if : (b : Bool) → to_run (if b then idle else polling) ≡ []
to_run-if true = refl
to_run-if false = refl

append_last :
    (es fs ps qs : List ℕ) (f : ℕ)
    → es ++ (fs ++ ps) ≡ qs
    → es ++ (fs ++ (ps ++ f ∷ [])) ≡ qs ++ f ∷ []
append_last es fs ps qs f h =
    ap (◌++◌ es) (sym (append_assoc fs ps (f ∷ [])))
    ∙ (sym (append_assoc es (fs ++ ps) (f ∷ [])) ∙ ap (λ xs. xs ++ f ∷ []) h)

at_phase :
    (l : Loop) {p : Phase}
    → l.phase ≡ p
    → InOrder l
    → l.executed ++ (to_run p ++ l.pending_functors) ≡ l.queued
at_phase l e h = ap (λ q. l.executed ++ (to_run q ++ l.pending_functors)) (sym e) ∙ h

push_functor-InOrder : (b : Bool) (f : ℕ) (l : Loop) → InOrder l → InOrder (push_functor b f l)
unfolding push_functor
push_functor-InOrder b f l h =
    append_last l.executed (to_run l.phase) l.pending_functors l.queued f h

wakeup-InOrder : (b : Bool) (l : Loop) → InOrder l → InOrder (if b then wakeup l else l)
unfolding wakeup
wakeup-InOrder true l h = h
wakeup-InOrder false l h = h

Step-InOrder : {l m : Loop} → Step l m → InOrder l → InOrder m
unfolding start handle_read swap_functors call_functor next_iteration queue_in_loop set_quit quit
    owing pay wakeup
Step-InOrder {l = l} (enter e) a = at_phase l e a
Step-InOrder {l = l} (poll_return e) a = at_phase l e a
Step-InOrder (handle_wakeup e) a = a
Step-InOrder {l = l} (do_pending_functors e) a =
    ap (◌++◌ l.executed) (append-nil l.pending_functors) ∙ at_phase l e a
Step-InOrder {l = l} (run_functor f fs e) a =
    append_assoc l.executed (f ∷ []) (fs ++ l.pending_functors) ∙ at_phase l e a
Step-InOrder {l = l} (iterate e) a =
    ap (λ xs. l.executed ++ (xs ++ l.pending_functors)) (to_run-if l.quit) ∙ at_phase l e a
Step-InOrder {l = l} (queue_outside f) a = push_functor-InOrder false f l a
Step-InOrder quit_outside a = a
Step-InOrder (wakeup_outside h) a = a
Step-InOrder {l = l} (queue_inside f n) a =
    wakeup-InOrder (is_calling l.phase) (push_functor true f l) (push_functor-InOrder true f l a)
Step-InOrder (quit_inside n) a = a

-- Whatever the threads did since the loop was constructed: the functors that were called, then those
-- that `doPendingFunctors` has still to call, then those that wait, are all that were queued, each
-- once and in the order of the calls of `queueInLoop`.
pub Reach-InOrder : {l : Loop} → Reach fresh l → InOrder l
Reach-InOrder here = refl
Reach-InOrder (then_step r s) = Step-InOrder s (Reach-InOrder r)
