-- ===== src/EventLoopThreadPool.antt =====
-- muduo/net/EventLoopThreadPool.h and EventLoopThreadPool.cc: the loops of a server. A pointer to a loop
-- is a number; the loop that the i-th thread starts is a parameter. `none` is a failed assertion or an
-- access outside the vector.
pub mod RoundRobin
mod Tests
use muduo.Base.{
  Bool, true, false, not, ◌&&◌, ℕ, zero, suc, ◌+◌, ◌%◌, Option, some, List, [], ◌∷◌, ◌++◌, length,
  get_elem?, leb, ◌==◌, if◌then◌else◌, ◌>>=◌, ◌>>◌, assert,
}

pub record EventLoopThreadPool : Type 0 where
  pub base_loop : ℕ
  pub started : Bool
  pub num_threads : ℕ
  pub next : ℕ
  pub loops : List ℕ

unfoldable pub new_pool : ℕ → EventLoopThreadPool
new_pool base = record { base_loop = base; started = false; num_threads = 0; next = 0; loops = [] }

unfoldable pub set_thread_num : ℕ → EventLoopThreadPool → EventLoopThreadPool
set_thread_num n p = record p { num_threads = n }

-- The loops of `n` threads, the first one with this number.
unfoldable pub start_threads : (ℕ → ℕ) → ℕ → ℕ → List ℕ
start_threads start_loop i zero = []
start_threads start_loop i (suc n) = start_loop i ∷ start_threads start_loop (i + 1) n

-- `start`, with the loops for which it calls the callback itself; the threads call it for theirs.
unfoldable pub start_pool :
    (ℕ → ℕ) → Bool → EventLoopThreadPool → Option (EventLoopThreadPool × List ℕ)
start_pool start_loop has_callback p = do
  assert (not p.started)
  some (
    record p { started = true; loops = p.loops ++ start_threads start_loop 0 p.num_threads },
    if p.num_threads == 0 && has_callback then p.base_loop ∷ [] else [],
  )

abbrev pub is_empty : List ℕ → Bool
is_empty [] = true
is_empty (x ∷ xs) = false

-- The loop at `next_`, and the step of the index.
abbrev pub take_turn : EventLoopThreadPool → Option (ℕ × EventLoopThreadPool)
take_turn p = do
  chosen ← get_elem? p.loops p.next
  some (chosen, record p { next = if leb (length p.loops) (p.next + 1) then 0 else p.next + 1 })

unfoldable pub get_next_loop : EventLoopThreadPool → Option (ℕ × EventLoopThreadPool)
get_next_loop p = do
  assert p.started
  if is_empty p.loops then some (p.base_loop, p) else take_turn p

unfoldable pub get_loop_for_hash : ℕ → EventLoopThreadPool → Option ℕ
get_loop_for_hash hash_code p =
    if is_empty p.loops then some p.base_loop else get_elem? p.loops (hash_code % length p.loops)

unfoldable pub get_all_loops : EventLoopThreadPool → Option (List ℕ)
get_all_loops p = do assert p.started; some (if is_empty p.loops then p.base_loop ∷ [] else p.loops)

-- The loops of `k` new connections, one after another.
unfoldable pub next_loops : ℕ → EventLoopThreadPool → Option (List ℕ × EventLoopThreadPool)
next_loops zero p = some ([], p)
next_loops (suc k) p = do
  (chosen, p₁) ← get_next_loop p
  (others, p₂) ← next_loops k p₁
  some (chosen ∷ others, p₂)
