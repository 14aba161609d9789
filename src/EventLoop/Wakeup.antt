-- ===== src/EventLoop/Wakeup.antt =====
-- muduo/net/EventLoop.cc: no wakeup is lost.
use muduo.Base.{true, false, ◌<◌, ◌≡◌, ◌⊎◌, inl, refl, arith}
use muduo.EventLoop.{
  Phase, idle, polling, handling, calling, Loop, fresh, wakeup, handle_read, push_functor,
  queue_in_loop, set_quit, quit, owing, pay, start, swap_functors, call_functor, next_iteration,
  Step, enter, poll_return, handle_wakeup, do_pending_functors, run_functor, iterate, queue_outside,
  quit_outside, wakeup_outside, queue_inside, quit_inside, Reach, here, then_step,
}

-- A write to the descriptor has not been read, or another thread is about to write.
abbrev pub WakeupComes : Loop → Type 0
WakeupComes l = (l.readable ≡ true) ⊎ (0 < l.owed)

-- No functor waits but those that the loop's own thread queued before it entered `loop`, or a wakeup
-- comes.
abbrev pub FunctorsSeen : Loop → Type 0
FunctorsSeen l = (l.pending_functors ≡ l.early) ⊎ WakeupComes l

-- By phase: where `poll` is what comes next, a waiting functor and a call of `quit` bring a wakeup,
-- unless only functors wait that the loop's own thread queued before it entered `loop`.
abbrev pub Awake : Phase → Loop → Type 0
Awake handling l = Unit {0}
Awake idle l = FunctorsSeen l
Awake polling l = FunctorsSeen l × ((l.quit ≡ false) ⊎ WakeupComes l)
Awake (calling fs) l = FunctorsSeen l

Step-Awake : {l m : Loop} → Step l m → Awake l.phase l → Awake m.phase m
unfolding start handle_read swap_functors call_functor next_iteration push_functor queue_in_loop
    set_quit quit owing pay wakeup
Step-Awake (enter e) a = ground arith
Step-Awake (poll_return e) a = tt
Step-Awake (handle_wakeup e) a = ground arith
Step-Awake (do_pending_functors e) a = inl refl
Step-Awake (run_functor f fs e) a = ground arith
Step-Awake (iterate e) a = ground arith
Step-Awake (queue_outside f) a = ground arith
Step-Awake quit_outside a = ground arith
Step-Awake (wakeup_outside h) a = ground arith
Step-Awake (queue_inside f n) a = ground arith
Step-Awake (quit_inside n) a = ground arith

-- Whatever the threads did since the loop was constructed: when the loop is about to poll and a
-- functor waits or `quit` has been called, then the wakeup descriptor is readable or another thread
-- is about to make it readable, or no functor waits but those that the loop's own thread queued while
-- it was not in `loop`. Inside `doPendingFunctors` and outside `loop` the same holds of the functors.
pub Reach-Awake : {l : Loop} → Reach fresh l → Awake l.phase l
Reach-Awake here = inl refl
Reach-Awake (then_step r s) = Step-Awake s (Reach-Awake r)
