-- ===== src/PollPoller/Forget.antt =====
-- `removeChannel` runs through, and what it leaves.
use muduo.Base.{
  Bool, true, false, ℕ, ◌-◌, none, some, length, get_elem?, lt→ltb, eq→==, ne→==, ◌≡◌, ◌≢◌, refl,
  sym, ap, ◌∙◌, Gives, arith,
}
use native.Mathlib.Decide.{ℕ_discrete}
use muduo.Base.Int.{pos}
use muduo.Base.Indexed.{get_elem?-lt, get_elem?-some}
use muduo.Channel.{Flags, Channel, is_none_event}
use muduo.EPoll.{update_at}
use muduo.PollPoller.{
  PollFd, World, store, fd_of, bit_eq, flags_eq, swap, drop_slot, remove_channel, update_existing,
  update_channel,
}
use muduo.PollPoller.Invariant.{IsSlot, Inv}
use muduo.PollPoller.Updates.{update_at_self, update_at_ne}
use muduo.PollPoller.Remove.{
  erased, kept_slot, popped, popped-Inv, exchanged, exchanged-Inv, back_slot,
}

-- What `removeChannel` leaves: the descriptor is out of the map, every other one is as it was, and so is
-- the channel itself, its index too.
pub record IsRemoved (p : ℕ) (w w' : World) : Type 0 where
  pub inv : Inv w'
  pub gone : w'.channels (w.heap p).fd ≡ none
  pub other_fds : (fd : ℕ) → (w.heap p).fd ≢ fd → w'.channels fd ≡ w.channels fd
  pub fds : (q : ℕ) → (w'.heap q).fd ≡ (w.heap q).fd
  pub masks : (q : ℕ) → (w'.heap q).events ≡ (w.heap q).events
  pub same_index : (w'.heap p).index ≡ (w.heap p).index

bit_eq_refl : (b : Bool) → bit_eq b b ≡ true
bit_eq_refl true = refl
bit_eq_refl false = refl

flags_eq_refl : (a : Flags) → flags_eq a a ≡ true
flags_eq_refl a =
    rw
      (
        bit_eq_refl a.pollin,
        bit_eq_refl a.pollpri,
        bit_eq_refl a.pollout,
        bit_eq_refl a.pollerr,
        bit_eq_refl a.pollhup,
        bit_eq_refl a.pollnval,
        bit_eq_refl a.pollrdhup,
      )
      refl

-- A channel with an index whose descriptor is not in the map.
refused :
    (p i : ℕ) (u : World) (c : Channel)
    → u.heap p ≡ c
    → c.index ≡ pos i
    → u.channels c.fd ≡ none
    → update_channel p u ≡ none
unfolding update_channel update_existing
refused p i u c h j free = rw (h, j, h, free) refl

module _ (p : ℕ) (w : World) (v : Inv w) (known : w.channels (w.heap p).fd ≡ some p)
    (idle : is_none_event (w.heap p) ≡ true) where
  abbrev w₁ : World
  w₁ = record w { channels = update_at w.channels (w.heap p).fd none }

  run : (i : ℕ) → IsSlot w.pollfds (w.heap p) i → remove_channel p w ≡ drop_slot i w₁
  unfolding remove_channel
  run i s =
      rw
        (
          known,
          eq→== p p refl,
          idle,
          s.index,
          lt→ltb i (length w.pollfds) (get_elem?-lt w.pollfds i s.here),
          s.here,
          s.fd,
          idle,
          eq→== (w.heap p).fd (w.heap p).fd refl,
          s.events,
          flags_eq_refl (w.heap p).events,
        )
        refl

  drop_last :
      (i : ℕ) (at : (w.heap p).index ≡ pos i) (e : i ≡ length w.pollfds - 1)
      → drop_slot i w₁ ≡ some (popped p w v known i at e)
  unfolding drop_slot
  drop_last i at e = rw (eq→== i (length w.pollfds - 1) e) refl

  module _ (i : ℕ) (s : IsSlot w.pollfds (w.heap p) i) where
    IsRemoved-last : i ≡ length w.pollfds - 1 → Gives (remove_channel p w) (IsRemoved p w)
    IsRemoved-last e = (
      popped p w v known i s.index e,
      run i s ∙ drop_last i s.index e,
      record {
        inv = popped-Inv p w v known i s.index e;
        gone = update_at_self w.channels (w.heap p).fd none;
        other_fds = λ fd. update_at_ne w.channels (w.heap p).fd fd none;
        fds = λ q. refl;
        masks = λ q. refl;
        same_index = refl;
      },
    )

    module _ (inner : i ≢ length w.pollfds - 1) (back : PollFd)
        (end : get_elem? w.pollfds (length w.pollfds - 1) ≡ some back) (q : ℕ)
        (found : erased p w v known i s.index (fd_of back.fd) ≡ some q) where
      abbrev last : World
      last = exchanged p w v known i s.index s.slot back s.here end inner q found

      drop_inner : drop_slot i w₁ ≡ some last
      unfolding drop_slot swap
      drop_inner = rw (ne→== i (length w.pollfds - 1) inner, end, s.here, found) refl

      kept :
          {B : Type 0} (f : Channel → B) (r : ℕ)
          → (q ≡ r → f (last.heap r) ≡ f (w.heap r))
          → f (last.heap r) ≡ f (w.heap r)
      kept f r h = elim (ℕ_discrete q r) [
        | yes m ↦ h m
        | no n ↦ ap f (update_at_ne w.heap q r (record (w.heap q) { index = pos i }) n)
      ]

      moved_self :
          {B : Type 0} (f : Channel → B) (r : ℕ)
          → f (record (w.heap q) { index = pos i }) ≡ f (w.heap q)
          → q ≡ r
          → f (last.heap r) ≡ f (w.heap r)
      moved_self f r h m =
          ap (λ x. f (last.heap x)) (sym m)
          ∙ (ap f (update_at_self w.heap q (record (w.heap q) { index = pos i }))
              ∙ (h ∙ ap (λ x. f (w.heap x)) m))

      IsRemoved-inner : Gives (remove_channel p w) (IsRemoved p w)
      IsRemoved-inner = (
        last,
        run i s ∙ drop_inner,
        record {
          inv = exchanged-Inv p w v known i s.index s.slot back s.here end inner q found;
          gone = update_at_self w.channels (w.heap p).fd none;
          other_fds = λ fd. update_at_ne w.channels (w.heap p).fd fd none;
          fds = λ r. kept (λ (c : Channel). c.fd) r (moved_self (λ (c : Channel). c.fd) r refl);
          masks = λ r.
              kept (λ (c : Channel). c.events) r (moved_self (λ (c : Channel). c.events) r refl);
          same_index =
              kept (λ (c : Channel). c.index) p
                (λ m.
                  absurd
                    ((back_slot p w v known i s.index s.slot back s.here end inner q found).0 m));
        },
      )

  pub remove_channel-IsRemoved : Gives (remove_channel p w) (IsRemoved p w)
  remove_channel-IsRemoved =
      let (i, _, s) = v.mapped (w.heap p).fd p known in
      elim (ℕ_discrete i (length w.pollfds - 1)) [
        | yes e ↦ IsRemoved-last i s e
        | no inner ↦
            (let (back, end) =
                get_elem?-some w.pollfds (length w.pollfds - 1)
                  (omega (arith, get_elem?-lt w.pollfds i s.here)) in
              let (q, found, _, _) =
                kept_slot p w v known i s.index (length w.pollfds - 1) back inner end in
              IsRemoved-inner i s inner back end q found)
      ]

  -- In a world where they agree, when `removeChannel` has taken out a channel of the map without events,
  -- `updateChannel` fails an assertion for it, whatever events it then wants.
  pub update_channel-remove_channel :
      (e : Flags)
      → (w' : World) × (remove_channel p w ≡ some w')
        × (update_channel p (store p (record (w'.heap p) { events = e }) w') ≡ none)
  update_channel-remove_channel e =
      let (i, _, s) = v.mapped (w.heap p).fd p known in
      let (w', done, r) = remove_channel-IsRemoved in
      let c : Channel = record (w'.heap p) { events = e } in
      (
        w',
        done,
        refused p i (store p c w') c (update_at_self w'.heap p c) (r.same_index ∙ s.index)
            (ap w'.channels (r.fds p) ∙ r.gone),
      )
