-- ===== src/EventLoopThreadPool/Tests.antt =====
-- A pool at concrete inputs.
use muduo.Base.{true, ◌≡◌, ◌+◌, some, [], ◌∷◌}
use muduo.EventLoopThreadPool.{
  EventLoopThreadPool, new_pool, set_thread_num, start_pool, next_loops, get_loop_for_hash,
}
use muduo.EventLoopThreadPool.RoundRobin.{next_loops-turns}

next_loops-turns_example :
    (p : EventLoopThreadPool) × (p' : EventLoopThreadPool) × (start_pool
        (λ i. 70 + i)
        true
        (set_thread_num 3 (new_pool 9))
      ≡ some (p, []))
    × (next_loops 4 p ≡ some (70 ∷ 71 ∷ 72 ∷ 70 ∷ [], p'))
    × (get_loop_for_hash 5 p' ≡ some 72)
next_loops-turns_example = next_loops-turns (λ i. 70 + i) 9 3 4 true 5
