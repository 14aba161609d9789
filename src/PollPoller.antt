-- ===== src/PollPoller.antt =====
-- muduo/net/poller/PollPoller.cc: the vector of `pollfd`s, the map of channels and their indices into
-- the vector. A `pollfd` that is ignored has the descriptor -fd - 1, which is `negsuc fd`.
pub mod Invariant
pub mod Updates
pub mod Register
pub mod Remove
pub mod Forget
mod Tests
use muduo.Base.{
  Bool, true, false, not, ◌&&◌, ◌||◌, ℕ, zero, suc, ◌+◌, ◌-◌, Option, none, some, List, [], ◌∷◌,
  ◌++◌, length, take, set, get_elem?, ltb, ◌==◌, if◌then◌else◌, ◌>>=◌, ◌>>◌, assert,
}
use muduo.Base.Int.{ℤ, pos, negsuc, int_eq}
use muduo.Channel.{Flags, Channel, is_none_event, none_event, nonzero}
use muduo.EPoll.{update_at, maps_to, is_absent}

pub record PollFd : Type 0 where
  pub fd : ℤ
  pub events : Flags
  pub revents : Flags

pub record World : Type 0 where
  pub heap : ℕ → Channel
  pub channels : ℕ → Option ℕ
  pub pollfds : List PollFd

abbrev pub store : ℕ → Channel → World → World
store p c w = record w { heap = update_at w.heap p c }

-- `-fd - 1` for a negative `fd`, as `removeChannel` computes it, and `fd` itself otherwise
abbrev pub fd_of : ℤ → ℕ
fd_of (pos n) = n
fd_of (negsuc n) = n

abbrev pub bit_eq : Bool → Bool → Bool
bit_eq true b = b
bit_eq false b = not b

abbrev pub flags_eq : Flags → Flags → Bool
flags_eq a b =
    bit_eq a.pollin b.pollin
    && (bit_eq a.pollpri b.pollpri
        && (bit_eq a.pollout b.pollout
            && (bit_eq a.pollerr b.pollerr
                && (bit_eq a.pollhup b.pollhup
                    && (bit_eq a.pollnval b.pollnval && bit_eq a.pollrdhup b.pollrdhup)))))

-- `channels_.find(fd)`, with the assertion that the channel found has this descriptor
abbrev pub channel_of : World → ℤ → Option ℕ
channel_of w (negsuc n) = none
channel_of w (pos fd) = do p ← w.channels fd; assert ((w.heap p).fd == fd); some p

-- The branch of `updateChannel` for a new channel.
unfoldable pub add_new : ℕ → World → Option World
add_new p w = do
  let c = w.heap p
  assert (is_absent (w.channels c.fd))
  let pfd : PollFd = record { fd = pos c.fd; events = c.events; revents = none_event }
  let idx = length (w.pollfds ++ pfd ∷ []) - 1
  some (record (store p (record c { index = pos idx }) w) {
    pollfds = w.pollfds ++ pfd ∷ [];
    channels = update_at w.channels c.fd (some p);
  })

-- The branch for a channel at the index `idx`.
unfoldable pub update_existing : ℕ → ℕ → World → Option World
update_existing p idx w = do
  let c = w.heap p
  assert (maps_to (w.channels c.fd) p)
  assert (ltb idx (length w.pollfds))
  pfd ← get_elem? w.pollfds idx
  assert (int_eq pfd.fd (pos c.fd) || int_eq pfd.fd (negsuc c.fd))
  some (record w {
    pollfds = set w.pollfds idx (record {
      fd = if is_none_event c then negsuc c.fd else pos c.fd;
      events = c.events;
      revents = none_event;
    });
  })

unfoldable pub update_at_index : ℤ → ℕ → World → Option World
unfolding add_new update_existing
update_at_index (negsuc n) p w = add_new p w
update_at_index (pos idx) p w = update_existing p idx w

unfoldable pub update_channel : ℕ → World → Option World
unfolding update_at_index
update_channel p w = update_at_index (w.heap p).index p w

-- `iter_swap`
unfoldable pub swap : ℕ → ℕ → List PollFd → Option (List PollFd)
swap i j xs = do x ← get_elem? xs i; y ← get_elem? xs j; some (set (set xs i y) j x)

-- `pop_back`
abbrev pub pop_back : List PollFd → List PollFd
pop_back xs = take (length xs - 1) xs

-- The end of `removeChannel`: the `pollfd` at `idx` is the last one, or changes places with it, and the
-- last one's channel gets the index.
unfoldable pub drop_slot : ℕ → World → Option World
unfolding swap
drop_slot idx w =
    if idx == length w.pollfds - 1 then some (record w { pollfds = pop_back w.pollfds }) else (do
      back ← get_elem? w.pollfds (length w.pollfds - 1)
      swapped ← swap idx (length w.pollfds - 1) w.pollfds
      q ← w.channels (fd_of back.fd)
      some (record (store q (record (w.heap q) { index = pos idx }) w) {
        pollfds = pop_back swapped;
      }))

unfoldable pub remove_at : ℤ → ℕ → World → Option World
unfolding drop_slot
remove_at (negsuc n) p w = none
remove_at (pos idx) p w = do
  let c = w.heap p
  assert (ltb idx (length w.pollfds))
  pfd ← get_elem? w.pollfds idx
  assert (int_eq pfd.fd (negsuc c.fd) && flags_eq pfd.events c.events)
  drop_slot idx (record w { channels = update_at w.channels c.fd none })

unfoldable pub remove_channel : ℕ → World → Option World
unfolding remove_at
remove_channel p w = do
  let c = w.heap p
  assert (maps_to (w.channels c.fd) p)
  assert (is_none_event c)
  remove_at c.index p w

-- `fillActiveChannels`: the channels that get events, in the order of the vector. The bits of `revents` that
-- the model has are positive in a `short`.
unfoldable pub fill_active_channels : ℕ → List PollFd → World → Option (List ℕ × World)
fill_active_channels num_events [] w = some ([], w)
fill_active_channels zero (pfd ∷ pfds) w = some ([], w)
fill_active_channels (suc n) (pfd ∷ pfds) w = elim (nonzero pfd.revents) [
  | false ↦ fill_active_channels (suc n) pfds w
  | true ↦ (do
    p ← channel_of w pfd.fd
    rest ← fill_active_channels n pfds (store p (record (w.heap p) { revents = pfd.revents }) w)
    some (p ∷ rest.0, rest.1))
]
