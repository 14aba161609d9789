-- ===== src/EventLoop.antt =====
-- muduo/net/EventLoop.cc: the loop, its queue of functors and the wakeup descriptor. A functor is a
-- number; what it does is the steps that follow. Each step is what one thread does at a time: between
-- the change that another thread makes and its write to the descriptor the loop goes on.
pub mod Wakeup
pub mod Order
mod Tests
use muduo.Base.{
  Bool, true, false, ◌||◌, not, ℕ, suc, ◌-◌, ◌<◌, List, [], ◌∷◌, ◌++◌, ◌&&◌, if◌then◌else◌, ◌≡◌,
  ◌≢◌,
}

-- Where the loop's thread is: outside `loop`, in `poll`, handling the active channels, or in
-- `doPendingFunctors` with these functors still to run.
pub data Phase : Type 0 where
  idle polling handling : Phase
  calling : List ℕ → Phase

abbrev pub is_calling : Phase → Bool
is_calling (calling fs) = true
is_calling idle = false
is_calling polling = false
is_calling handling = false

abbrev pub is_idle : Phase → Bool
is_idle idle = true
is_idle polling = false
is_idle handling = false
is_idle (calling fs) = false

-- The functors that the thread has still to run.
abbrev pub to_run : Phase → List ℕ
to_run (calling fs) = fs
to_run idle = []
to_run polling = []
to_run handling = []

-- `readable` is the state of `wakeupFd_`: a write has not been read yet. `queued` and `executed` are
-- the history, `owed` counts the other threads that have still to write, and `early` has the
-- functors that the loop's thread queued while it was not in `loop`, since the last swap.
pub record Loop : Type 0 where
  pub phase : Phase
  pub quit : Bool
  pub pending_functors : List ℕ
  pub readable : Bool
  pub queued : List ℕ
  pub executed : List ℕ
  pub early : List ℕ
  pub owed : ℕ

abbrev pub fresh : Loop
fresh = record {
  phase = idle;
  quit = false;
  pending_functors = [];
  readable = false;
  queued = [];
  executed = [];
  early = [];
  owed = 0;
}

unfoldable pub wakeup : Loop → Loop
wakeup l = record l { readable = true }

-- `EventLoop::handleRead`, the callback of the wakeup channel
unfoldable pub handle_read : Loop → Loop
handle_read l = record l { readable = false }

-- `pendingFunctors_.push_back(std::move(cb))`
unfoldable pub push_functor : Bool → ℕ → Loop → Loop
push_functor in_loop_thread cb l = record l {
  pending_functors = l.pending_functors ++ cb ∷ [];
  queued = l.queued ++ cb ∷ [];
  early = if in_loop_thread && is_idle l.phase then l.early ++ cb ∷ [] else l.early;
}

-- `callingPendingFunctors_` is true just in `doPendingFunctors`.
unfoldable pub queue_in_loop : Bool → ℕ → Loop → Loop
unfolding push_functor
queue_in_loop in_loop_thread cb l =
    let l₁ = push_functor in_loop_thread cb l in
    if not in_loop_thread || is_calling l.phase then wakeup l₁ else l₁

unfoldable pub set_quit : Loop → Loop
set_quit l = record l { quit = true }

unfoldable pub quit : Bool → Loop → Loop
quit in_loop_thread l = let l₁ = set_quit l in if not in_loop_thread then wakeup l₁ else l₁

-- Another thread has still to call `wakeup`.
unfoldable pub owing : Loop → Loop
owing l = record l { owed = suc l.owed }

-- Another thread calls the `wakeup` that it had still to call.
unfoldable pub pay : Loop → Loop
unfolding wakeup
pay l = record (wakeup l) { owed = l.owed - 1 }

-- The start of `loop`.
unfoldable pub start : Loop → Loop
start l = record l { phase = polling; quit = false }

-- `functors.swap(pendingFunctors_)`
unfoldable pub swap_functors : Loop → Loop
swap_functors l = record l { phase = calling l.pending_functors; pending_functors = []; early = [] }

unfoldable pub call_functor : ℕ → List ℕ → Loop → Loop
call_functor f fs l = record l { phase = calling fs; executed = l.executed ++ f ∷ [] }

-- The end of `doPendingFunctors`, and the test of `while (!quit_)`.
unfoldable pub next_iteration : Loop → Loop
next_iteration l = record l { phase = if l.quit then idle else polling }

pub data Step (l : Loop) : Loop → Type 0 where
  -- `loop` is entered.
  enter : l.phase ≡ idle → Step l (start l)
  -- `poll` returns, by an event or by its timeout.
  poll_return : l.phase ≡ polling → Step l (record l { phase = handling })
  -- The wakeup channel is handled.
  handle_wakeup : l.phase ≡ handling → Step l (handle_read l)
  do_pending_functors : l.phase ≡ handling → Step l (swap_functors l)
  run_functor : (f : ℕ) (fs : List ℕ) → l.phase ≡ calling (f ∷ fs) → Step l (call_functor f fs l)
  iterate : l.phase ≡ calling [] → Step l (next_iteration l)
  -- Another thread, at any time, in `queueInLoop`, in `quit` and then in `wakeup`.
  queue_outside : (f : ℕ) → Step l (owing (push_functor false f l))
  quit_outside : Step l (owing (set_quit l))
  wakeup_outside : 0 < l.owed → Step l (pay l)
  -- The loop's own thread, anywhere but in `poll`.
  queue_inside : (f : ℕ) → l.phase ≢ polling → Step l (queue_in_loop true f l)
  quit_inside : l.phase ≢ polling → Step l (quit true l)

pub data Reach (l : Loop) : Loop → Type 0 where
  here : Reach l l
  then_step : {m n : Loop} → Reach l m → Step m n → Reach l n
