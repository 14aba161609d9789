-- ===== src/Connector/Invariant.antt =====
-- The five situations of a connector, and the steps of its loop and its users.
use muduo.Base.{
  Bool, ℕ, suc, ◌+◌, ◌≤◌, Option, none, some, List, [], ◌∷◌, ◌++◌, map, length, ◌≡◌, if◌then◌else◌,
  ◌>>=◌, arith,
}
use muduo.Connector.{
  Connector, disconnected, connecting, connected, Task, start_in_loop_task, stop_in_loop_task,
  reset_channel_task, Fate, closed, given, Answer, start_in_loop, start_here, start_away, stop,
  reset_channel, stop_in_loop, restart, handle_write, handle_error,
}

-- The tasks of two kinds in the queue.
abbrev pub starts : List Task → ℕ
starts [] = 0
starts (start_in_loop_task ∷ tasks) = suc (starts tasks)
starts (stop_in_loop_task ∷ tasks) = starts tasks
starts (reset_channel_task ∷ tasks) = starts tasks

abbrev pub resets : List Task → ℕ
resets [] = 0
resets (start_in_loop_task ∷ tasks) = resets tasks
resets (stop_in_loop_task ∷ tasks) = resets tasks
resets (reset_channel_task ∷ tasks) = suc (resets tasks)

pub starts-append : (xs ys : List Task) → starts (xs ++ ys) ≡ starts xs + starts ys
starts-append [] ys = omega arith
starts-append (start_in_loop_task ∷ xs) ys = omega (arith, starts-append xs ys)
starts-append (stop_in_loop_task ∷ xs) ys = starts-append xs ys
starts-append (reset_channel_task ∷ xs) ys = starts-append xs ys

pub resets-append : (xs ys : List Task) → resets (xs ++ ys) ≡ resets xs + resets ys
resets-append [] ys = omega arith
resets-append (start_in_loop_task ∷ xs) ys = resets-append xs ys
resets-append (stop_in_loop_task ∷ xs) ys = resets-append xs ys
resets-append (reset_channel_task ∷ xs) ys = omega (arith, resets-append xs ys)

abbrev pub sockfd_of : Fate → ℕ
sockfd_of (closed fd) = fd
sockfd_of (given fd) = fd

-- The sockets that have been let go, in the order in which that happened.
abbrev pub gone : Connector → List ℕ
gone c = map sockfd_of c.fates

-- `resting`: no channel, and at most one start to come. `retiring`: the channel of a failed or stopped
-- attempt is still there. `trying`: the channel waits for the connection. `making` and `made`: there
-- is a connection, with the channel of the attempt still there or not.
pub data Mode (c : Connector) : Type 0 where
  resting :
      c.state ≡ disconnected
      → c.channel ≡ none
      → resets c.queue ≡ 0
      → starts c.queue + length c.timers ≤ 1
      → c.opened ≡ gone c
      → Mode c
  retiring :
      (fd : ℕ)
      → c.state ≡ disconnected
      → c.channel ≡ some fd
      → resets c.queue ≡ 1
      → starts c.queue ≡ 0
      → length c.timers ≤ 1
      → c.opened ≡ gone c
      → Mode c
  trying :
      (fd : ℕ)
      → c.state ≡ connecting
      → c.channel ≡ some fd
      → resets c.queue ≡ 0
      → starts c.queue ≡ 0
      → length c.timers ≡ 0
      → c.opened ≡ gone c ++ fd ∷ []
      → Mode c
  making :
      (fd : ℕ)
      → c.state ≡ connected
      → c.channel ≡ some fd
      → resets c.queue ≡ 1
      → starts c.queue ≡ 0
      → length c.timers ≡ 0
      → c.opened ≡ gone c
      → Mode c
  made :
      c.state ≡ connected
      → c.channel ≡ none
      → resets c.queue ≡ 0
      → starts c.queue ≡ 0
      → length c.timers ≡ 0
      → c.opened ≡ gone c
      → Mode c

-- What happens to a connector: its users' calls, the first functor of the queue, the first timer, and
-- an event of its channel, with an error, a write event, or both.
pub data Event : Type 0 where
  start_here_event : Answer → Event
  start_away_event : Event
  stop_event : Event
  restart_event : Answer → Event
  functor_event : Answer → Event
  timer_event : Answer → Event
  channel_event : (error write : Bool) (err : ℕ) (self_connect : Bool) → Event

abbrev pub perform : Task → Answer → Connector → Option Connector
perform start_in_loop_task k c = start_in_loop k c
perform stop_in_loop_task k c = stop_in_loop c
perform reset_channel_task k c = some (reset_channel c)

abbrev pub run_functor : List Task → Answer → Connector → Option Connector
run_functor [] k c = some c
run_functor (task ∷ tasks) k c = perform task k (record c { queue = tasks })

abbrev pub run_timer : List ℕ → Answer → Connector → Option Connector
run_timer [] k c = some c
run_timer (delay ∷ delays) k c = start_in_loop k (record c { timers = delays })

-- `Channel::handleEvent` calls the error callback before the write callback.
abbrev pub handle_event : Bool → Bool → ℕ → Bool → Connector → Option Connector
handle_event error write err self_connect c = do
  c₁ ← if error then handle_error c else some c
  if write then handle_write err self_connect c₁ else some c₁

abbrev pub step : Event → Connector → Option Connector
step (start_here_event k) c = start_here k c
step start_away_event c = some (start_away c)
step stop_event c = some (stop c)
step (restart_event k) c = restart k c
step (functor_event k) c = run_functor c.queue k c
step (timer_event k) c = run_timer c.timers k c
step (channel_event error write err self_connect) c = handle_event error write err self_connect c

-- `start` is for a connector without an attempt, a timer or a start to come, `restart` for one whose
-- connection is over. A timer may go off at any time. A channel has events as long as it has not been removed from the poller.
abbrev pub IsAllowed : Event → Connector → Type 0
IsAllowed (start_here_event k) c =
    (_ : c.state ≡ disconnected) × (_ : c.channel ≡ none) × (_ : starts c.queue ≡ 0) × (length
        c.timers
      ≡ 0)
IsAllowed start_away_event c =
    (_ : c.state ≡ disconnected) × (_ : c.channel ≡ none) × (_ : starts c.queue ≡ 0) × (length
        c.timers
      ≡ 0)
IsAllowed stop_event c = Unit
IsAllowed (restart_event k) c = (_ : c.state ≡ connected) × (c.channel ≡ none)
IsAllowed (functor_event k) c = Unit
IsAllowed (timer_event k) c = Unit
IsAllowed (channel_event error write err self_connect) c =
    (fd : ℕ) × (_ : c.channel ≡ some fd) × (resets c.queue ≡ 0)

-- A retry timer goes off before the channel of the attempt that it follows has been reset.
abbrev pub IsLate : Event → Connector → Type 0
IsLate (start_here_event k) c = ⊥
IsLate start_away_event c = ⊥
IsLate stop_event c = ⊥
IsLate (restart_event k) c = ⊥
IsLate (functor_event k) c = ⊥
IsLate (timer_event k) c = (_ : resets c.queue ≡ 1) × (c.state ≡ disconnected)
IsLate (channel_event error write err self_connect) c = ⊥
