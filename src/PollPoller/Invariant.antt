-- ===== src/PollPoller/Invariant.antt =====
-- The map, the indices of the channels and the vector agree.
use muduo.Base.{Bool, true, false, ℕ, some, List, ◌≡◌, refl, sym, ap, ◌∙◌, get_elem?, if◌then◌else◌}
use muduo.Base.Int.{ℤ, pos, negsuc}
use muduo.Channel.{Channel, is_none_event}
use muduo.PollPoller.{PollFd, World, fd_of}

-- What stands in the vector for a channel: an ignored descriptor where it has no events.
abbrev pub slot_fd : Channel → ℤ
slot_fd c = if is_none_event c then negsuc c.fd else pos c.fd

pub fd_of-slot_fd : (c : Channel) → fd_of (slot_fd c) ≡ c.fd
fd_of-slot_fd c = go (is_none_event c)
  where
    go : (b : Bool) → fd_of (if b then negsuc c.fd else pos c.fd) ≡ c.fd
    go true = refl
    go false = refl

-- The channel `c` has the slot `i` of the vector.
pub record IsSlot (pfds : List PollFd) (c : Channel) (i : ℕ) : Type 0 where
  pub slot : PollFd
  pub index : c.index ≡ pos i
  pub here : get_elem? pfds i ≡ some slot
  pub fd : slot.fd ≡ slot_fd c
  pub events : slot.events ≡ c.events

-- The channel `p` has the descriptor `fd` and a slot.
abbrev pub Placed : World → ℕ → ℕ → Type 0
Placed w fd p = (i : ℕ) × ((w.heap p).fd ≡ fd) × IsSlot w.pollfds (w.heap p) i

pub record Inv (w : World) : Type 0 where
  pub mapped : (fd p : ℕ) → w.channels fd ≡ some p → Placed w fd p
  pub slots :
      (i : ℕ) (pfd : PollFd)
      → get_elem? w.pollfds i ≡ some pfd
      → (p : ℕ) × (w.channels (fd_of pfd.fd) ≡ some p) × ((w.heap p).index ≡ pos i)

pub some_same : {A : Type 0} {x y : A} → some x ≡ some y → x ≡ y
some_same h = cc

pub pos_same : {i j : ℕ} → pos i ≡ pos j → i ≡ j
pos_same h = cc

module _ {w : World} (v : Inv w) where
  -- The descriptor in a channel's slot is the channel's.
  pub slot_of :
      (fd p i : ℕ) (pfd : PollFd)
      → w.channels fd ≡ some p
      → (w.heap p).index ≡ pos i
      → get_elem? w.pollfds i ≡ some pfd
      → (pfd.fd ≡ slot_fd (w.heap p)) × (fd_of pfd.fd ≡ fd) × (pfd.events ≡ (w.heap p).events)
  slot_of fd p i pfd e h k =
      let (j, f, s) = v.mapped fd p e in
      let same : s.slot ≡ pfd =
        some_same (sym s.here ∙ (ap (get_elem? w.pollfds) (pos_same (sym s.index ∙ h)) ∙ k)) in
      let at : pfd.fd ≡ slot_fd (w.heap p) = ap (λ (x : PollFd). x.fd) (sym same) ∙ s.fd in
      (
        at,
        ap fd_of at ∙ (fd_of-slot_fd (w.heap p) ∙ f),
        ap (λ (x : PollFd). x.events) (sym same) ∙ s.events,
      )

  -- Two channels of the map do not share a slot.
  pub one_slot :
      (fd g p q i : ℕ)
      → w.channels fd ≡ some p
      → w.channels g ≡ some q
      → (w.heap p).index ≡ pos i
      → (w.heap q).index ≡ pos i
      → p ≡ q
  one_slot fd g p q i e f h k =
      let (j, _, s) = v.mapped fd p e in
      let here : get_elem? w.pollfds i ≡ some s.slot =
        ap (get_elem? w.pollfds) (pos_same (sym h ∙ s.index)) ∙ s.here in
      let a : fd_of s.slot.fd ≡ fd = (slot_of fd p i s.slot e h here).1 in
      let b : fd_of s.slot.fd ≡ g = (slot_of g q i s.slot f k here).1 in
      some_same (sym e ∙ (ap w.channels (sym a ∙ b) ∙ f))
