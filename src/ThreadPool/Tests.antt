-- ===== src/ThreadPool/Tests.antt =====
-- A pool of one thread with a queue of one task.
use muduo.Base.{refl, arith}
use muduo.ThreadPool.{ThreadPool, start, run, take, leave, stop}
use muduo.ThreadPool.Wakeups.{runs, takes, leaves, stops, Inv}
use muduo.ThreadPool.Reach.{Reach, initial, next, Reach-Inv}
use muduo.ThreadPool.Stopped.{done, more, IsStuck, IsOver, Steps-IsStuck}

-- The worker waits, and a task comes.
abbrev served : ThreadPool
unfolding run take
served = run 7 (take (start 1 1))

served-Reach : Reach 1 1 served
unfolding run take
served-Reach = next (next initial (takes (omega arith))) (runs 7)

Reach-Inv_example : Inv served
Reach-Inv_example = Reach-Inv 1 1 served served-Reach

-- The queue is full, a second task waits for its place, the pool is stopped, and the worker ends
-- before it takes the first task.
abbrev ended : ThreadPool
unfolding run stop leave
ended = leave (stop (run 8 (run 7 (start 1 1))))

ended-Reach : Reach 1 1 ended
unfolding run stop leave
ended-Reach = next (next (next (next initial (runs 7)) (runs 8)) stops) (leaves (omega arith) refl)

ended-IsOver : IsOver ended
unfolding run stop leave
ended-IsOver = record {
  stopped = refl;
  no_active = refl;
  no_waiting = refl;
  bounded = omega arith;
  full = omega arith;
}

Steps-IsStuck_example : IsStuck ended (run 9 ended)
Steps-IsStuck_example = Steps-IsStuck ended (run 9 ended) ended-IsOver (more done (runs 9))
