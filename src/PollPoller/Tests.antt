-- ===== src/PollPoller/Tests.antt =====
-- A vector with two channels.
use muduo.Base.{◌≡◌, refl, none, some, []}
use muduo.Base.Int.{pos}
use muduo.Channel.{new, none_event, read_event}
use muduo.PollPoller.{World, store, update_channel, remove_channel}
use muduo.PollPoller.Invariant.{IsSlot, Inv}
use muduo.PollPoller.Updates.{added, added-Inv, updated, updated-Inv}
use muduo.PollPoller.Forget.{update_channel-remove_channel}

-- A poller without channels; a new channel for each descriptor stands at the address of its number.
abbrev empty : World
empty = record { heap = new; channels = λ fd. none; pollfds = [] }

empty-Inv : Inv empty
empty-Inv = record { mapped = λ fd p h. absurd (cc (h)); slots = λ i pfd h. absurd (cc (h)) }

abbrev one : World
unfolding new
one = added 4 read_event empty empty-Inv refl refl

one-Inv : Inv one
unfolding new
one-Inv = added-Inv 4 read_event empty empty-Inv refl refl

abbrev two : World
unfolding new
two = added 5 read_event one one-Inv refl refl

two-Inv : Inv two
unfolding new
two-Inv = added-Inv 5 read_event one one-Inv refl refl

first_slot : IsSlot two.pollfds (two.heap 4) 0
unfolding new
first_slot = record {
  slot = record { fd = pos 4; events = read_event; revents = none_event };
  index = refl;
  here = refl;
  fd = refl;
  events = refl;
}

-- Channel 4 wants no events any more.
abbrev idle : World
unfolding new
idle = updated 4 none_event two two-Inv 0 refl first_slot

idle-Inv : Inv idle
unfolding new
idle-Inv = updated-Inv 4 none_event two two-Inv 0 refl first_slot

update_channel-remove_channel_example :
    (w' : World) × (remove_channel 4 idle ≡ some w')
    × (update_channel 4 (store 4 (record (w'.heap 4) { events = read_event }) w') ≡ none)
unfolding new
update_channel-remove_channel_example =
    update_channel-remove_channel 4 idle idle-Inv refl refl read_event
