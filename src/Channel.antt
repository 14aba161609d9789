-- ===== src/Channel.antt =====
-- muduo/net/Channel.h and Channel.cc. A channel's `int` masks of poll(2) are the sets of their bits.
pub mod Dispatch
mod Tests
use muduo.Base.{
  Bool, true, false, ◌&&◌, ◌||◌, not, ℕ, ◌+◌, Option, none, some, ◌>>=◌, ◌>>◌, assert,
  if◌then◌else◌,
}
use muduo.Base.Int.{ℤ, pos, negsuc}

-- POLLIN, POLLPRI, POLLOUT, POLLERR, POLLHUP, POLLNVAL, POLLRDHUP
pub record Flags : Type 0 where
  pub pollin : Bool
  pub pollpri : Bool
  pub pollout : Bool
  pub pollerr : Bool
  pub pollhup : Bool
  pub pollnval : Bool
  pub pollrdhup : Bool

abbrev pub none_event : Flags
none_event = record {
  pollin = false;
  pollpri = false;
  pollout = false;
  pollerr = false;
  pollhup = false;
  pollnval = false;
  pollrdhup = false;
}

abbrev pub read_event : Flags
read_event = record none_event { pollin = true; pollpri = true }

abbrev pub write_event : Flags
write_event = record none_event { pollout = true }

-- `a | b`, `a & b`, `~a`, and the test of an `int` in a condition.
abbrev pub bits_or : Flags → Flags → Flags
bits_or a b = record {
  pollin = a.pollin || b.pollin;
  pollpri = a.pollpri || b.pollpri;
  pollout = a.pollout || b.pollout;
  pollerr = a.pollerr || b.pollerr;
  pollhup = a.pollhup || b.pollhup;
  pollnval = a.pollnval || b.pollnval;
  pollrdhup = a.pollrdhup || b.pollrdhup;
}

abbrev pub bits_and : Flags → Flags → Flags
bits_and a b = record {
  pollin = a.pollin && b.pollin;
  pollpri = a.pollpri && b.pollpri;
  pollout = a.pollout && b.pollout;
  pollerr = a.pollerr && b.pollerr;
  pollhup = a.pollhup && b.pollhup;
  pollnval = a.pollnval && b.pollnval;
  pollrdhup = a.pollrdhup && b.pollrdhup;
}

abbrev pub bits_not : Flags → Flags
bits_not a = record {
  pollin = not a.pollin;
  pollpri = not a.pollpri;
  pollout = not a.pollout;
  pollerr = not a.pollerr;
  pollhup = not a.pollhup;
  pollnval = not a.pollnval;
  pollrdhup = not a.pollrdhup;
}

abbrev pub nonzero : Flags → Bool
nonzero a =
    a.pollin
    || (a.pollpri || (a.pollout || (a.pollerr || (a.pollhup || (a.pollnval || a.pollrdhup)))))

-- The callbacks stand outside, as functions on the state that they change (`Dispatch`); `tie_` is
-- the question whether the owner is alive. `logHup_` (for a log message) and `eventHandling_` (for an
-- assertion of the destructor) are left out.
pub record Channel : Type 0 where
  pub fd : ℕ
  pub events : Flags
  pub revents : Flags
  pub index : ℤ
  pub tied : Bool
  pub added_to_loop : Bool

unfoldable pub new : ℕ → Channel
new fd = record {
  fd = fd;
  events = none_event;
  revents = none_event;
  index = negsuc 0;
  tied = false;
  added_to_loop = false;
}

abbrev pub is_none_event : Channel → Bool
is_none_event c = not (nonzero c.events)

abbrev pub is_writing : Channel → Bool
is_writing c = nonzero (bits_and c.events write_event)

abbrev pub is_reading : Channel → Bool
is_reading c = nonzero (bits_and c.events read_event)

-- What `enableReading` and its like do to the mask, before they call `update`.
pub data Change : Type 0 where
  enable_reading disable_reading enable_writing disable_writing disable_all : Change

abbrev pub changed : Change → Flags → Flags
changed enable_reading e = bits_or e read_event
changed disable_reading e = bits_and e (bits_not read_event)
changed enable_writing e = bits_or e write_event
changed disable_writing e = bits_and e (bits_not write_event)
changed disable_all e = none_event
