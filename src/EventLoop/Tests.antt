-- ===== src/EventLoop/Tests.antt =====
-- The loop and its queue, at concrete inputs: another thread queues a functor while the loop polls.
use muduo.Base.{true, false, [], ◌∷◌, ◌≡◌, refl, arith}
use muduo.EventLoop.{
  handling, Loop, fresh, start, owing, push_functor, pay, wakeup, swap_functors, call_functor,
  queue_in_loop, Reach, here, then_step, enter, queue_outside, wakeup_outside, poll_return,
  do_pending_functors, run_functor, queue_inside,
}
use muduo.EventLoop.Wakeup.{Awake, Reach-Awake}
use muduo.EventLoop.Order.{InOrder, Reach-InOrder}

abbrev asked : Loop
asked = owing (push_functor false 7 (start fresh))

abbrev woken : Loop
woken = pay asked

-- The functor 7 runs and queues 8.
abbrev chained : Loop
chained =
    queue_in_loop true 8 (call_functor 7 [] (swap_functors (record woken { phase = handling })))

woken-Reach : Reach fresh woken
unfolding start owing push_functor
woken-Reach =
    then_step (then_step (then_step here (enter refl)) (queue_outside 7))
      (wakeup_outside (omega arith))

chained-Reach : Reach fresh chained
unfolding start owing push_functor pay wakeup swap_functors call_functor
chained-Reach =
    then_step
      (then_step (then_step (then_step woken-Reach (poll_return refl)) (do_pending_functors refl))
        (run_functor 7 [] refl))
      (queue_inside 8 (λ e. absurd (ground (arith, e))))

chained_waits : chained.pending_functors ≡ 8 ∷ []
unfolding start owing push_functor pay wakeup swap_functors call_functor queue_in_loop
chained_waits = refl

Reach-Awake_example : Awake chained.phase chained
Reach-Awake_example = Reach-Awake chained-Reach

Reach-InOrder_example : InOrder chained
Reach-InOrder_example = Reach-InOrder chained-Reach
