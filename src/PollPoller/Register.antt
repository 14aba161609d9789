-- ===== src/PollPoller/Register.antt =====
-- `updateChannel` runs through, and what it leaves.
use muduo.Base.{
  Bool, true, false, ◌||◌, ℕ, none, some, [], ◌∷◌, ◌++◌, ◌-◌, length, get_elem?, set, lt→ltb, eq→==,
  ◌≡◌, ◌≢◌, refl, ap, ◌⊎◌, inl, inr, if◌then◌else◌, Gives,
}
use muduo.Base.Int.{ℤ, pos, negsuc, int_eq}
use muduo.Base.Indexed.{get_elem?-lt}
use muduo.Channel.{Flags, Channel, is_none_event, none_event}
use muduo.EPoll.{update_at}
use muduo.PollPoller.{PollFd, World, store, add_new, update_existing, update_channel}
use muduo.PollPoller.Invariant.{slot_fd, IsSlot, Inv}
use muduo.PollPoller.Updates.{
  update_at_self, update_at_ne, with_events, updated, updated-Inv, added, added-Inv, self,
  heap_self, heap_ne,
}

-- What `updateChannel` leaves: the channel is known with its events, and the others are as they were.
pub record IsUpdated (p : ℕ) (e : Flags) (w w' : World) : Type 0 where
  pub inv : Inv w'
  pub mapped : w'.channels (w.heap p).fd ≡ some p
  pub events : (w'.heap p).events ≡ e
  pub others : (q : ℕ) → p ≢ q → w'.heap q ≡ w.heap q
  pub other_fds : (fd : ℕ) → (w.heap p).fd ≢ fd → w'.channels fd ≡ w.channels fd

update_channel_new :
    (p n : ℕ) (u : World) (c : Channel)
    → u.heap p ≡ c
    → c.index ≡ negsuc n
    → u.channels c.fd ≡ none
    → update_channel p u
      ≡ some
          (record (store p
            (record c {
              index = pos (
                  length (
                    u.pollfds
                    ++ record { fd = pos c.fd; events = c.events; revents = none_event } ∷ [])
                  - 1);
            })
            u) {
              channels = update_at u.channels c.fd (some p);
              pollfds =
                  u.pollfds
                  ++ record { fd = pos c.fd; events = c.events; revents = none_event } ∷ [];
            })
unfolding update_channel add_new
update_channel_new p n u c h i free = rw (h, i, h, free) refl

-- A slot of the channel holds its descriptor or the ignored one.
is_slot_fd :
    (c : Channel) {fd : ℤ}
    → fd ≡ slot_fd c
    → (int_eq fd (pos c.fd) || int_eq fd (negsuc c.fd)) ≡ true
is_slot_fd c h = rw h (go (is_none_event c))
  where
    go :
        (b : Bool)
        → (int_eq (if b then negsuc c.fd else pos c.fd) (pos c.fd)
            || int_eq (if b then negsuc c.fd else pos c.fd) (negsuc c.fd))
          ≡ true
    go true = eq→== c.fd c.fd refl
    go false = rw (eq→== c.fd c.fd refl) refl

update_channel_known :
    (p i : ℕ) (u : World) (c : Channel)
    → u.heap p ≡ c
    → c.index ≡ pos i
    → u.channels c.fd ≡ some p
    → (pfd : PollFd) → get_elem? u.pollfds i ≡ some pfd
    → (int_eq pfd.fd (pos c.fd) || int_eq pfd.fd (negsuc c.fd)) ≡ true
    → update_channel p u
      ≡ some (record u {
        pollfds =
            set u.pollfds i (record { fd = slot_fd c; events = c.events; revents = none_event });
      })
unfolding update_channel update_existing
update_channel_known p i u c h j known pfd here slot =
    rw
      (
        h,
        j,
        h,
        known,
        eq→== p p refl,
        lt→ltb i (length u.pollfds) (get_elem?-lt u.pollfds i here),
        here,
        slot,
      )
      refl

module _ (p : ℕ) (e : Flags) (w : World) (v : Inv w) where
  -- A new channel wants some event, and its descriptor is free; another one is in the map.
  abbrev pub IsAddable : Type 0
  IsAddable =
      ((n : ℕ) × ((w.heap p).index ≡ negsuc n)
        × (w.channels (w.heap p).fd ≡ none)
        × (is_none_event (self p e w v) ≡ false))
      ⊎ (w.channels (w.heap p).fd ≡ some p)

  at : (with_events p e w v).heap p ≡ self p e w v
  at = update_at_self w.heap p (self p e w v)

  run_new :
      (n : ℕ)
      → (w.heap p).index ≡ negsuc n
      → (free : w.channels (w.heap p).fd ≡ none) → (wanted : is_none_event (self p e w v) ≡ false)
      → update_channel p (with_events p e w v) ≡ some (added p e w v free wanted)
  run_new n i free wanted = update_channel_new p n (with_events p e w v) (self p e w v) at i free

  run_known :
      (i : ℕ) (known : w.channels (w.heap p).fd ≡ some p) (s : IsSlot w.pollfds (w.heap p) i)
      → update_channel p (with_events p e w v) ≡ some (updated p e w v i known s)
  run_known i known s =
      update_channel_known p i (with_events p e w v) (self p e w v) at s.index known s.slot s.here
        (is_slot_fd (w.heap p) s.fd)

  IsUpdated-new :
      (n : ℕ)
      → (w.heap p).index ≡ negsuc n
      → w.channels (w.heap p).fd ≡ none
      → is_none_event (self p e w v) ≡ false
      → Gives (update_channel p (with_events p e w v)) (IsUpdated p e w)
  IsUpdated-new n i free wanted = (
    added p e w v free wanted,
    run_new n i free wanted,
    record {
      inv = added-Inv p e w v free wanted;
      mapped = update_at_self w.channels (w.heap p).fd (some p);
      events = ap (λ (c : Channel). c.events) (heap_self p e w v free wanted);
      others = heap_ne p e w v free wanted;
      other_fds = λ fd. update_at_ne w.channels (w.heap p).fd fd (some p);
    },
  )

  IsUpdated-known :
      w.channels (w.heap p).fd ≡ some p
      → Gives (update_channel p (with_events p e w v)) (IsUpdated p e w)
  IsUpdated-known known =
      let (i, _, s) = v.mapped (w.heap p).fd p known in
      (
        updated p e w v i known s,
        run_known i known s,
        record {
          inv = updated-Inv p e w v i known s;
          mapped = known;
          events = ap (λ (c : Channel). c.events) at;
          others = λ q. update_at_ne w.heap p q (self p e w v);
          other_fds = λ fd n. refl;
        },
      )

  -- `updateChannel` runs through, in a world where the map, the indices and the vector agree but for the
  -- new events of the channel, for a channel that is in the map, or that is new, has a free descriptor
  -- and wants some event. Afterwards they agree, the channel is in the map with its events, and the
  -- other channels and descriptors are as they were.
  pub update_channel-IsUpdated :
      IsAddable → Gives (update_channel p (with_events p e w v)) (IsUpdated p e w)
  update_channel-IsUpdated (inl (n, i, free, wanted)) = IsUpdated-new n i free wanted
  update_channel-IsUpdated (inr known) = IsUpdated-known known
