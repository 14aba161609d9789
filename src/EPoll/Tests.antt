-- ===== src/EPoll/Tests.antt =====
-- The poller over a table, and a loop with one channel.
use muduo.Base.{true, false, ℕ, ◌≡◌, ◌≢◌, refl, Option, none, some, [], Gives, ne→==, subst, inr}
use native.Mathlib.Decide.{ℕ_discrete}
use muduo.Channel.{Flags, Channel, new, none_event, read_event, enable_reading}
use muduo.EPoll.{Epoll, World, update_at, change, remove, k_new, k_deleted, k_added}
use muduo.EPoll.Invariant.{Inv, Entry, Registered}
use muduo.EPoll.Updates.{Told, change-Told}
use muduo.EPoll.Remove.{Forgotten, remove-Forgotten}
use muduo.EPoll.AsReactor.{IsGood}

abbrev Table : Type 0
Table = ℕ → Option (Flags × ℕ)

abbrev add_entry : Option (Flags × ℕ) → Table → ℕ → Flags → ℕ → Option Table
add_entry none s fd e p = some (update_at s fd (some (e, p)))
add_entry (some old) s fd e p = none

abbrev mod_entry : Option (Flags × ℕ) → Table → ℕ → Flags → ℕ → Option Table
mod_entry none s fd e p = none
mod_entry (some old) s fd e p = some (update_at s fd (some (e, p)))

abbrev del_entry : Option (Flags × ℕ) → Table → ℕ → Option Table
del_entry none s fd = none
del_entry (some old) s fd = some (update_at s fd none)

abbrev pub table : Epoll
table = record {
  State = Table;
  interest = λ s. s;
  ctl_add = λ s fd. add_entry (s fd) s fd;
  ctl_mod = λ s fd. mod_entry (s fd) s fd;
  ctl_del = λ s fd. del_entry (s fd) s fd;
  add_fresh = λ s fd e p h. (update_at s fd (some (e, p)), rw h, λ g. refl);
  mod_known = λ s fd e p old h. (update_at s fd (some (e, p)), rw h, λ g. refl);
  del_known = λ s fd old h. (update_at s fd none, rw h, λ g. refl);
}

-- A loop that handles nothing, with a new channel for each descriptor, at the address of its number.
abbrev pub quiet_loop : World table
quiet_loop = record {
  heap = new;
  channels = λ fd. none;
  kernel = λ fd. none;
  event_handling = false;
  current_active_channel = none;
  active_channels = [];
}

pub quiet_loop-Inv : Inv quiet_loop
unfolding new
quiet_loop-Inv = record { entries = λ fd. refl; listed = λ p n. absurd (n refl) }

pub quiet_loop-IsGood : IsGood table 5 quiet_loop
quiet_loop-IsGood = record { inv = quiet_loop-Inv; addable = λ _. refl }

change-Told_example : Gives (change enable_reading 5 quiet_loop) (Told enable_reading 5 quiet_loop)
change-Told_example = change-Told enable_reading 5 quiet_loop quiet_loop-Inv (λ _. refl)

-- The same loop with channel 5 known to the poller.
abbrev pub loop_with : Channel → Option (Flags × ℕ) → World table
loop_with c i = record quiet_loop {
  heap = update_at new 5 c;
  channels = update_at (λ fd. none) 5 (some 5);
  kernel = update_at (λ fd. none) 5 i;
}

module _ (c : Channel) (i : Option (Flags × ℕ)) (reg : Registered c 5 i) (fd : c.fd ≡ 5) where
  loop_with-Entry : (g : ℕ) → Entry (loop_with c i) g ((loop_with c i).channels g)
  loop_with-Entry g = elim (ℕ_discrete 5 g) [
    | yes e ↦ subst (λ h. Entry (loop_with c i) h ((loop_with c i).channels h)) e (fd, reg)
    | no n ↦ rw (ne→== 5 g n) (rw (ne→== 5 g n))
  ]

  loop_with_listed :
      (p : ℕ)
      → ((loop_with c i).heap p).index ≢ k_new
      → (loop_with c i).channels ((loop_with c i).heap p).fd ≡ some p
  unfolding new
  loop_with_listed p n = elim (ℕ_discrete 5 p) [
    | yes e ↦
        subst (λ q. (loop_with c i).channels ((loop_with c i).heap q).fd ≡ some q) e (rw fd refl)
    | no m ↦ absurd (n (rw (ne→== 5 p m)))
  ]

  pub loop_with-Inv : Inv (loop_with c i)
  loop_with-Inv = record { entries = loop_with-Entry; listed = loop_with_listed }

  pub loop_with-IsGood : c.index ≢ k_new → IsGood table 5 (loop_with c i)
  loop_with-IsGood n = record { inv = loop_with-Inv; addable = λ e. absurd (n e) }

-- Channel 5 after it was enabled and disabled, and while it watches for both events.
abbrev pub disabled : Channel
disabled = record {
  fd = 5;
  events = none_event;
  revents = none_event;
  index = k_deleted;
  tied = false;
  added_to_loop = true;
}

abbrev pub both_events : Flags
both_events = record read_event { pollout = true }

abbrev pub watching : Channel
watching = record disabled { events = both_events; index = k_added }

remove-Forgotten_example :
    Gives (remove 5 (loop_with disabled none)) (Forgotten 5 (loop_with disabled none))
remove-Forgotten_example =
    remove-Forgotten 5 (loop_with disabled none)
      (loop_with-Inv disabled none (inr (refl, refl, refl)) refl)
      (record { known = λ e. cc; quiet = refl; idle = refl })
