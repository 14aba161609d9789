-- ===== src/EPoll.antt =====
-- muduo/net/poller/EPollPoller.cc, Poller.cc, and the calls of it by Channel::update and remove
-- through EventLoop::updateChannel and removeChannel.
pub mod Invariant
pub mod Updates
pub mod Remove
pub mod AsReactor
pub mod Tests
use muduo.Base.{
  Bool, true, false, ◌&&◌, ◌||◌, not, ℕ, Option, none, some, List, [], ◌∷◌, ◌>>=◌, ◌>>◌, assert,
  if◌then◌else◌, ◌==◌, ◌≡◌,
}
use muduo.Base.Int.{ℤ, pos, negsuc, int_eq}
use muduo.Channel.{Flags, Channel, is_none_event, Change, changed}

abbrev pub k_new : ℤ
k_new = negsuc 0

abbrev pub k_added : ℤ
k_added = pos 1

abbrev pub k_deleted : ℤ
k_deleted = pos 2

abbrev pub update_at {ℓ} : {A : Type ℓ} → (ℕ → A) → ℕ → A → ℕ → A
update_at f i a j = if i == j then a else f j

-- The kernel's side of an epoll instance: for each file descriptor the registered events and the
-- pointer that comes with them. `none` of a call is an error. epoll_ctl(2) documents these: ADD
-- fails with EEXIST on a registered descriptor, MOD and DEL with ENOENT on one that is not. That
-- nothing else makes it fail (a bad descriptor, no memory) is assumed of the machine.
pub record Epoll : Type 1 where
  pub State : Type 0
  pub interest : State → ℕ → Option (Flags × ℕ)
  pub ctl_add : State → ℕ → Flags → ℕ → Option State
  pub ctl_mod : State → ℕ → Flags → ℕ → Option State
  pub ctl_del : State → ℕ → Option State
  pub add_fresh :
      (s : State) (fd : ℕ) (e : Flags) (p : ℕ)
      → interest s fd ≡ none
      → (t : State) × (ctl_add s fd e p ≡ some t)
        × ((g : ℕ) → interest t g ≡ update_at (interest s) fd (some (e, p)) g)
  pub mod_known :
      (s : State) (fd : ℕ) (e : Flags) (p : ℕ) (old : Flags × ℕ)
      → interest s fd ≡ some old
      → (t : State) × (ctl_mod s fd e p ≡ some t)
        × ((g : ℕ) → interest t g ≡ update_at (interest s) fd (some (e, p)) g)
  pub del_known :
      (s : State) (fd : ℕ) (old : Flags × ℕ)
      → interest s fd ≡ some old
      → (t : State) × (ctl_del s fd ≡ some t)
        × ((g : ℕ) → interest t g ≡ update_at (interest s) fd none g)

-- The channels of a loop on the heap, by their addresses, the poller, and what
-- `EventLoop::removeChannel` asserts about.
pub record World (k : Epoll) : Type 0 where
  pub heap : ℕ → Channel
  pub channels : ℕ → Option ℕ
  pub kernel : k.State
  pub event_handling : Bool
  pub current_active_channel : Option ℕ
  pub active_channels : List ℕ

-- `channels_.find(fd) != channels_.end() && channels_[fd] == channel`
abbrev pub maps_to : Option ℕ → ℕ → Bool
maps_to none p = false
maps_to (some q) p = q == p

abbrev pub is_absent : Option ℕ → Bool
is_absent none = true
is_absent (some q) = false

abbrev pub contains : List ℕ → ℕ → Bool
contains [] p = false
contains (q ∷ qs) p = q == p || contains qs p

pub data Operation : Type 0 where
  epoll_ctl_add epoll_ctl_mod epoll_ctl_del : Operation

module _ {k : Epoll} where
  abbrev pub store : ℕ → Channel → World k → World k
  store p c w = record w { heap = update_at w.heap p c }

  abbrev pub deleted : World k → Option k.State → World k
  deleted w none = w
  deleted w (some t) = record w { kernel = t }

  -- An error of ADD or MOD is fatal, one of DEL is logged.
  unfoldable pub update : Operation → ℕ → World k → Option (World k)
  update epoll_ctl_add p w = do
    t ← k.ctl_add w.kernel (w.heap p).fd (w.heap p).events p
    some (record w { kernel = t })
  update epoll_ctl_mod p w = do
    t ← k.ctl_mod w.kernel (w.heap p).fd (w.heap p).events p
    some (record w { kernel = t })
  update epoll_ctl_del p w = some (deleted w (k.ctl_del w.kernel (w.heap p).fd))

  -- The map entry of a channel that is to be added.
  unfoldable pub enter : ℕ → World k → Option (World k)
  enter p w =
      let c = w.heap p in
      if int_eq c.index k_new
      then (do
        assert (is_absent (w.channels c.fd))
        some (record w { channels = update_at w.channels c.fd (some p) }))
      else (do assert (maps_to (w.channels c.fd) p); some w)

  unfoldable pub update_channel : ℕ → World k → Option (World k)
  unfolding update enter
  update_channel p w =
      let c = w.heap p in
      if int_eq c.index k_new || int_eq c.index k_deleted
      then (do w₁ ← enter p w; update epoll_ctl_add p (store p (record c { index = k_added }) w₁))
      else (do
        assert (maps_to (w.channels c.fd) p)
        assert (int_eq c.index k_added)
        if is_none_event c
            then (do
              w₁ ← update epoll_ctl_del p w
              some (store p (record c { index = k_deleted }) w₁))
            else update epoll_ctl_mod p w)

  unfoldable pub remove_channel : ℕ → World k → Option (World k)
  unfolding update
  remove_channel p w = do
    let c = w.heap p
    assert (maps_to (w.channels c.fd) p)
    assert (is_none_event c)
    assert (int_eq c.index k_added || int_eq c.index k_deleted)
    let w₁ : World k = record w { channels = update_at w.channels c.fd none }
    w₂ ← if int_eq c.index k_added then update epoll_ctl_del p w₁ else some w₁
    some (store p (record c { index = k_new }) w₂)

  -- `enableReading` and its like: the change of the mask, and `Channel::update`.
  unfoldable pub change : Change → ℕ → World k → Option (World k)
  unfolding update_channel
  change ch p w =
      let c = w.heap p in
      update_channel p (store p (record c { events = changed ch c.events; added_to_loop = true }) w)

  -- `Channel::remove`, and the assertion of `EventLoop::removeChannel`.
  unfoldable pub remove : ℕ → World k → Option (World k)
  unfolding remove_channel
  remove p w = do
    let c = w.heap p
    assert (is_none_event c)
    assert (
        not w.event_handling
        || (maps_to w.current_active_channel p || not (contains w.active_channels p)))
    remove_channel p (store p (record c { added_to_loop = false }) w)
