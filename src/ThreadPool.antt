-- ===== src/ThreadPool.antt =====
-- muduo/base/ThreadPool.h and ThreadPool.cc: the queue of tasks with its mutex and two conditions. What
-- a thread does between two releases of the mutex is one step. A task is a number.
pub mod Wakeups
pub mod Take
pub mod Reach
pub mod Stopped
mod Tests
use muduo.Base.{
  Bool, true, false, ◌&&◌, ℕ, suc, ◌+◌, ◌-◌, List, [], ◌∷◌, ◌++◌, length, ltb, leb, if◌then◌else◌,
}

-- `active_workers` are the threads of the pool that do not wait on `notEmpty_`, `waiting_workers` those
-- that do; `awake_producers` and `waiting_producers` are the threads in the loop of `run`, on the way
-- to its test or in the wait on `notFull_`. `accepted` and `taken` are all tasks that have been put into
-- the queue and that have been taken out.
pub record ThreadPool : Type 0 where
  pub queue : List ℕ
  pub max_queue_size : ℕ
  pub running : Bool
  pub active_workers : ℕ
  pub waiting_workers : ℕ
  pub awake_producers : ℕ
  pub waiting_producers : ℕ
  pub accepted : List ℕ
  pub taken : List ℕ

-- `start` of a pool without an init callback, with at least one thread.
abbrev pub start : ℕ → ℕ → ThreadPool
start max_size num_threads = record {
  queue = [];
  max_queue_size = max_size;
  running = true;
  active_workers = num_threads;
  waiting_workers = 0;
  awake_producers = 0;
  waiting_producers = 0;
  accepted = [];
  taken = [];
}

abbrev pub is_full : ThreadPool → Bool
is_full p = ltb 0 p.max_queue_size && leb p.max_queue_size (length p.queue)

-- `notEmpty_.notify()` and `notFull_.notify()`
abbrev pub notify_not_empty : ThreadPool → ThreadPool
notify_not_empty p =
    if ltb 0 p.waiting_workers
    then record p { waiting_workers = p.waiting_workers - 1; active_workers = suc p.active_workers }
    else p

abbrev pub notify_not_full : ThreadPool → ThreadPool
notify_not_full p =
    if ltb 0 p.waiting_producers
    then record p {
      waiting_producers = p.waiting_producers - 1;
      awake_producers = suc p.awake_producers;
    }
    else p

abbrev pub push : ℕ → ThreadPool → ThreadPool
push task p =
    notify_not_empty (record p { queue = p.queue ++ task ∷ []; accepted = p.accepted ++ task ∷ [] })

-- `run` up to its first wait or its end, and a thread in its loop up to the next wait or the end.
unfoldable pub run : ℕ → ThreadPool → ThreadPool
run task p =
    if is_full p then record p { waiting_producers = suc p.waiting_producers } else push task p

unfoldable pub run_again : ℕ → ThreadPool → ThreadPool
run_again task p =
    if is_full p
    then record p {
      awake_producers = p.awake_producers - 1;
      waiting_producers = suc p.waiting_producers;
    }
    else push task (record p { awake_producers = p.awake_producers - 1 })

-- `take` up to its next wait or its end.
abbrev pub take_front : List ℕ → ThreadPool → ThreadPool
take_front [] p =
    if p.running
    then record p { active_workers = p.active_workers - 1; waiting_workers = suc p.waiting_workers }
    else p
take_front (task ∷ tasks) p =
    let q : ThreadPool = record p { queue = tasks; taken = p.taken ++ task ∷ [] } in
    if ltb 0 p.max_queue_size then notify_not_full q else q

unfoldable pub take : ThreadPool → ThreadPool
take p = take_front p.queue p

-- The end of `runInThread`.
unfoldable pub leave : ThreadPool → ThreadPool
leave p = record p { active_workers = p.active_workers - 1 }

-- `stop` up to the joins.
unfoldable pub stop : ThreadPool → ThreadPool
stop p = record p {
  running = false;
  active_workers = p.active_workers + p.waiting_workers;
  waiting_workers = 0;
}

-- A wait may end without a notification.
abbrev pub wake_worker : ThreadPool → ThreadPool
wake_worker p = record p {
  waiting_workers = p.waiting_workers - 1;
  active_workers = suc p.active_workers;
}

abbrev pub wake_producer : ThreadPool → ThreadPool
wake_producer p = record p {
  waiting_producers = p.waiting_producers - 1;
  awake_producers = suc p.awake_producers;
}
