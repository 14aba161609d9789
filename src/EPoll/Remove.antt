-- ===== src/EPoll/Remove.antt =====
-- `Channel::remove`: the descriptor leaves the map and the kernel's interest list.
use muduo.Base.{true, false, ℕ, ◌≡◌, ◌≢◌, inl, inr, refl, subst, none, some, arith, Gives, eq→==}
use muduo.Channel.{Channel, is_none_event}
use muduo.EPoll.{Epoll, World, k_new, k_added, k_deleted, update_at, update, remove_channel, remove}
use muduo.EPoll.Invariant.{Registered, Entry, Inv, Inv-local, inactive}

module _ {k : Epoll} (p : ℕ) (w : World k) where
  -- What the two assertions of the callers ask.
  pub record IsRemovable : Type 0 where
    pub known : (w.heap p).index ≢ k_new
    pub quiet : is_none_event (w.heap p) ≡ true
    pub idle : inactive p w ≡ true

  abbrev gone : Channel
  gone = record (w.heap p) { added_to_loop = false; index = k_new }

  abbrev outside : Channel
  outside = record (w.heap p) { added_to_loop = false }

  remove_added :
      (t : k.State)
      → IsRemovable
      → (w.heap p).index ≡ k_added
      → w.channels (w.heap p).fd ≡ some p
      → k.ctl_del w.kernel (w.heap p).fd ≡ some t
      → remove p w
        ≡ some (record w {
          heap = update_at (update_at w.heap p outside) p gone;
          channels = update_at w.channels (w.heap p).fd none;
          kernel = t;
        })
  unfolding remove remove_channel update
  remove_added t r i c e = rw (r.quiet, r.idle, eq→== p p refl, c, eq→== p p refl, r.quiet, i, e)

  remove_deleted :
      IsRemovable
      → (w.heap p).index ≡ k_deleted
      → w.channels (w.heap p).fd ≡ some p
      → remove p w
        ≡ some (record w {
          heap = update_at (update_at w.heap p outside) p gone;
          channels = update_at w.channels (w.heap p).fd none;
        })
  unfolding remove remove_channel update
  remove_deleted r i c = rw (r.quiet, r.idle, eq→== p p refl, c, eq→== p p refl, r.quiet, i)

  -- After the removal: the descriptor is neither in the map nor registered.
  pub record Forgotten (w' : World k) : Type 0 where
    pub inv : Inv w'
    pub index : (w'.heap p).index ≡ k_new
    pub added : (w'.heap p).added_to_loop ≡ false
    pub events : (w'.heap p).events ≡ (w.heap p).events
    pub same_fd : (w'.heap p).fd ≡ (w.heap p).fd
    pub unmapped : w'.channels (w.heap p).fd ≡ none
    pub unregistered : k.interest w'.kernel (w.heap p).fd ≡ none
    pub others : (q : ℕ) → p ≢ q → w'.heap q ≡ w.heap q

  Forgotten-at :
      (w' : World k)
      → Inv w
      → ((q : ℕ) → w'.heap q ≡ update_at w.heap p gone q)
      → ((q : ℕ) → w.channels (w.heap p).fd ≡ some q → q ≡ p)
      → ((g : ℕ) → (w.heap p).fd ≢ g → w'.channels g ≡ w.channels g)
      → ((g : ℕ) → (w.heap p).fd ≢ g → k.interest w'.kernel g ≡ k.interest w.kernel g)
      → w'.channels (w.heap p).fd ≡ none
      → k.interest w'.kernel (w.heap p).fd ≡ none
      → Forgotten w'
  Forgotten-at w' v heaps only chans ints unmapped unreg = record {
    inv =
        Inv-local w w' p gone v heaps refl only chans ints (rw unmapped unreg)
          (λ n. absurd (n refl));
    index = rw at_p;
    added = rw at_p;
    events = rw at_p;
    same_fd = rw at_p;
    unmapped = unmapped;
    unregistered = unreg;
    others = λ q n. ground (arith, heaps q);
  }
    where
      at_p : w'.heap p ≡ gone
      at_p = ground (arith, heaps p)

  Forgotten-known :
      Inv w
      → IsRemovable
      → Registered (w.heap p) p (k.interest w.kernel (w.heap p).fd)
      → Gives (remove p w) Forgotten
  Forgotten-known v r (inl (i, old)) =
      let (t, e, ints) = k.del_known w.kernel (w.heap p).fd _ old in
      let c = v.listed p r.known in
      (
        _,
        remove_added t r i c e,
        Forgotten-at _ v (λ q. ground arith) (λ q h. cc) (λ g n. ground arith)
            (λ g n. ground (arith, ints g)) (ground arith) (ground (arith, ints (w.heap p).fd)),
      )
  Forgotten-known v r (inr (i, _, old)) =
      let c = v.listed p r.known in
      (
        _,
        remove_deleted r i c,
        Forgotten-at _ v (λ q. ground arith) (λ q h. cc) (λ g n. ground arith) (λ g n. refl)
            (ground arith) old,
      )

  -- `remove` runs through on a known channel with no events that is not about to be handled.
  -- Afterwards its descriptor is neither in the map nor registered with the kernel, the channel is
  -- new again, the invariant holds and no other channel has changed.
  pub remove-Forgotten : Inv w → IsRemovable → Gives (remove p w) Forgotten
  remove-Forgotten v r =
      Forgotten-known v r
        (subst (Entry w (w.heap p).fd) (v.listed p r.known) (v.entries (w.heap p).fd)).1

  -- Removing a channel that watches for events stops the program, by the assertion.
  pub remove_busy : is_none_event (w.heap p) ≡ false → remove p w ≡ none
  unfolding remove
  remove_busy e = rw e
