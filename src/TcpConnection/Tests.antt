-- ===== src/TcpConnection/Tests.antt =====
-- A connection over the epoll poller, at concrete inputs.
use muduo.Base.{◌>>=◌, true, false, ◌≡◌, refl, none, some, [], ◌∷◌, ◌>>=◌, arith, Gives, inl, inr}
use muduo.Buffer.Tests.{abc, abc-IsValid, blank, blank-IsValid}
use muduo.Channel.{disable_all, new}
use muduo.EPoll.AsReactor.{epoll_reactor}
use muduo.EPoll.Tests.{
  table, quiet_loop, quiet_loop-IsGood, loop_with, loop_with-IsGood, disabled, watching,
  both_events,
}
use muduo.Reactor.{Reactor}
use muduo.TcpConnection.{
  connecting, connected, disconnecting, disconnected, Conn, Callbacks, wrote, send_in_loop,
  handle_write, handle_close, connect_destroyed, start_read_in_loop,
}
use muduo.TcpConnection.Invariant.{Inv}
use muduo.TcpConnection.Send.{Sent, send_in_loop-Sent}
use muduo.TcpConnection.Write.{Written, handle_write-Written}
use muduo.TcpConnection.Lifecycle.{
  closing, Closed, Keeps, handle_close-Closed, connect_destroyed-start_read_in_loop,
}

abbrev loop : Reactor
loop = epoll_reactor table 5

abbrev fresh : Conn loop
fresh = record {
  state = connecting;
  reading = true;
  world = quiet_loop;
  input = blank;
  output = blank;
  high_water_mark = 67108864;
  has_write_complete = true;
  has_high_water = false;
  pending = [];
  sent = [];
  write_shut = false;
}

fresh-Inv : Inv fresh
unfolding new
fresh-Inv = record {
  good = quiet_loop-IsGood;
  input_valid = blank-IsValid;
  output_valid = blank-IsValid;
  busy = λ _. refl;
  quiet = λ _. refl;
}

abbrev up : Conn loop
up = record fresh { state = connected }

up-Inv : Inv up
unfolding new
up-Inv = record {
  good = quiet_loop-IsGood;
  input_valid = blank-IsValid;
  output_valid = blank-IsValid;
  busy = λ _. refl;
  quiet = λ _. refl;
}

-- Callbacks that do nothing.
abbrev idle : Callbacks loop
idle = record { connection = some; message = some; close = some }

keeps {ℓ} : {A : Type 0} (P : A → Type ℓ) → Keeps P some
keeps P c p = (c, refl, p)

send_in_loop-Sent_example :
    Gives (send_in_loop loop (wrote 2) (1 ∷ 2 ∷ 3 ∷ []) up) (Sent (wrote 2) (1 ∷ 2 ∷ 3 ∷ []) up)
send_in_loop-Sent_example =
    send_in_loop-Sent (wrote 2) (1 ∷ 2 ∷ 3 ∷ []) up up-Inv (omega arith) (omega arith)

handle_close-Closed_example :
    (world : loop.World) × (loop.change disable_all up.world ≡ some world)
    × Closed (closing idle up world)
    × (handle_close loop idle up ≡ (some (closing idle up world) >>= some))
    × Gives (handle_close loop idle up) Closed
handle_close-Closed_example = handle_close-Closed idle up up-Inv refl (keeps Closed) (keeps Closed)

-- A connection that is shutting down with three bytes to write.
abbrev flushing : Conn loop
flushing = record fresh {
  state = disconnecting;
  world = loop_with watching (some (both_events, 5));
  output = abc;
}

flushing-Inv : Inv flushing
flushing-Inv = record {
  good = loop_with-IsGood watching (some (both_events, 5)) (inl (refl, refl)) refl (λ e. cc);
  input_valid = blank-IsValid;
  output_valid = abc-IsValid;
  busy = λ _. refl;
  quiet = λ d. cc;
}

handle_write-Written_example : Gives (handle_write loop (wrote 3) flushing) (Written flushing)
handle_write-Written_example = handle_write-Written (wrote 3) flushing flushing-Inv (omega arith)

abbrev down : Conn loop
down = record fresh { state = disconnected; world = loop_with disabled none }

down-Closed : Closed down
down-Closed = record {
  inv = record {
    good = loop_with-IsGood disabled none (inr (refl, refl, refl)) refl (λ e. cc);
    input_valid = blank-IsValid;
    output_valid = blank-IsValid;
    busy = λ _. refl;
    quiet = λ _. refl;
  };
  state = refl;
  known = λ e. cc;
  silent = refl;
}

connect_destroyed-start_read_in_loop_example :
    (start_read_in_loop loop down >>= connect_destroyed loop idle) ≡ none
connect_destroyed-start_read_in_loop_example =
    connect_destroyed-start_read_in_loop idle down down-Closed
