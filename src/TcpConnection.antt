-- ===== src/TcpConnection.antt =====
-- muduo/net/TcpConnection.h and TcpConnection.cc. Every function is a handler on the loop's thread;
-- what other threads ask for arrives as a `Functor` of the loop's queue. The user's callbacks and
-- the server's close callback are functions on the connection. What the kernel does is an argument.
pub mod Invariant
pub mod Send
pub mod Write
pub mod Lifecycle
mod Tests
use muduo.Base.{
  Bool, true, false, ◌&&◌, ◌||◌, not, ℕ, ◌+◌, Option, none, some, List, [], ◌∷◌, ◌++◌, ◌>>=◌, ◌>>◌,
  assert, if◌then◌else◌, ◌==◌, ltb, leb, length, take, drop,
}
use muduo.Base.Size.{add_size, sub_size}
use muduo.Buffer.{Buffer, readable_bytes, peek_bytes, append, retrieve}
use muduo.Buffer.ReadFd.{ReadResult, failed, received, read_fd}
use muduo.Channel.{
  Flags, bits_and, nonzero, read_event, write_event, enable_reading, disable_reading,
  enable_writing, disable_writing, disable_all,
}
use muduo.Reactor.{Reactor}

pub data State : Type 0 where
  disconnected connecting connected disconnecting : State

abbrev pub is_connected : State → Bool
is_connected connected = true
is_connected _ = false

abbrev pub is_connecting : State → Bool
is_connecting connecting = true
is_connecting _ = false

abbrev pub is_disconnecting : State → Bool
is_disconnecting disconnecting = true
is_disconnecting _ = false

abbrev pub is_disconnected : State → Bool
is_disconnected disconnected = true
is_disconnected _ = false

-- What the connection puts on the loop's queue.
pub data Functor : Type 0 where
  write_complete : Functor
  high_water : ℕ → Functor
  send_later : List ℕ → Functor
  shutdown_later : Functor
  force_close_later : Functor
  start_read_later : Functor
  stop_read_later : Functor

-- `sockets::write`: the count written, or `errno`: EWOULDBLOCK, one of EPIPE and ECONNRESET, another.
pub data WriteResult : Type 0 where
  wrote : ℕ → WriteResult
  would_block broken other_error : WriteResult

module _ (r : Reactor) where
  open r use {World, events, change, remove}

  -- `sent` is all that the socket has taken so far, and `write_shut` that `shutdownWrite` was called.
  pub record Conn : Type 0 where
    pub state : State
    pub reading : Bool
    pub world : World
    pub input : Buffer
    pub output : Buffer
    pub high_water_mark : ℕ
    pub has_write_complete : Bool
    pub has_high_water : Bool
    pub pending : List Functor
    pub sent : List ℕ
    pub write_shut : Bool

  pub record Callbacks : Type 0 where
    pub connection : Conn → Option Conn
    pub message : Conn → Option Conn
    pub close : Conn → Option Conn

  abbrev pub is_writing : Conn → Bool
  is_writing c = nonzero (bits_and (events c.world) write_event)

  abbrev pub is_reading : Conn → Bool
  is_reading c = nonzero (bits_and (events c.world) read_event)

  -- `loop_->queueInLoop(...)`
  abbrev pub queue_if : Bool → Functor → Conn → Conn
  queue_if test f c = record c { pending = if test then c.pending ++ f ∷ [] else c.pending }

  -- What the direct write of `sendInLoop` leaves: the count written, the count that remains, and
  -- whether the error is fatal.
  pub record First : Type 0 where
    pub conn : Conn
    pub nwrote : ℕ
    pub remaining : ℕ
    pub fault_error : Bool

  unfoldable pub first_write : WriteResult → List ℕ → Conn → First
  first_write (wrote n) ds c =
      let remaining = sub_size (length ds) n in
      record {
        conn =
            queue_if (remaining == 0 && c.has_write_complete) write_complete
              (record c { sent = c.sent ++ take n ds });
        nwrote = n;
        remaining = remaining;
        fault_error = false;
      }
  first_write would_block ds c = record {
    conn = c;
    nwrote = 0;
    remaining = length ds;
    fault_error = false;
  }
  first_write broken ds c = record {
    conn = c;
    nwrote = 0;
    remaining = length ds;
    fault_error = true;
  }
  first_write other_error ds c = record {
    conn = c;
    nwrote = 0;
    remaining = length ds;
    fault_error = false;
  }

  unfoldable pub enable_writing_unless : Conn → Option Conn
  enable_writing_unless c =
      if is_writing c
      then some c
      else (do world ← change enable_writing c.world; some (record c { world = world }))

  -- The rest of `sendInLoop`: what could not be written goes to the output buffer.
  unfoldable pub buffer_rest : ℕ → ℕ → List ℕ → Conn → Option Conn
  buffer_rest nwrote remaining ds c = do
    let old_len = readable_bytes c.output
    let c₁ =
        queue_if
          (leb c.high_water_mark (add_size old_len remaining)
            && (ltb old_len c.high_water_mark && c.has_high_water))
          (high_water (add_size old_len remaining)) c
    output ← append (take remaining (drop nwrote ds)) c.output
    enable_writing_unless (record c₁ { output = output })

  unfoldable pub send_in_loop : WriteResult → List ℕ → Conn → Option Conn
  send_in_loop w ds c = if is_disconnected c.state then some c else (do
    let first : First =
        if not (is_writing c) && readable_bytes c.output == 0
        then first_write w ds c
        else record { conn = c; nwrote = 0; remaining = length ds; fault_error = false }
    assert (leb first.remaining (length ds))
    if not first.fault_error && ltb 0 first.remaining
        then buffer_rest first.nwrote first.remaining ds first.conn
        else some first.conn)

  -- `send`, on the loop's thread or on another.
  unfoldable pub send : Bool → WriteResult → List ℕ → Conn → Option Conn
  send in_loop w ds c =
      if is_connected c.state
      then (if in_loop then send_in_loop w ds c else some (queue_if true (send_later ds) c))
      else some c

  unfoldable pub shutdown_in_loop : Conn → Conn
  shutdown_in_loop c = if is_writing c then c else record c { write_shut = true }

  unfoldable pub shutdown : Bool → Conn → Conn
  shutdown in_loop c =
      if is_connected c.state
      then (let c₁ = record c { state = disconnecting } in
          if in_loop then shutdown_in_loop c₁ else queue_if true shutdown_later c₁)
      else c

  unfoldable pub force_close : Conn → Conn
  force_close c =
      if is_connected c.state || is_disconnecting c.state
      then queue_if true force_close_later (record c { state = disconnecting })
      else c

  unfoldable pub start_read_in_loop : Conn → Option Conn
  start_read_in_loop c =
      if not c.reading || not (is_reading c)
      then (do
        world ← change enable_reading c.world
        some (record c { world = world; reading = true }))
      else some c

  unfoldable pub stop_read_in_loop : Conn → Option Conn
  stop_read_in_loop c =
      if c.reading || is_reading c
      then (do
        world ← change disable_reading c.world
        some (record c { world = world; reading = false }))
      else some c

  -- The part of `handleWrite` after a write of `n` bytes, with `n` above 0.
  unfoldable pub wrote_out : ℕ → Conn → Option Conn
  wrote_out n c = do
    let taken = take n (peek_bytes (readable_bytes c.output) c.output)
    output ← retrieve n c.output
    let c₁ : Conn = record c { output = output; sent = c.sent ++ taken }
    if readable_bytes output == 0
        then (do
          world ← change disable_writing c.world
          let c₂ : Conn = queue_if c.has_write_complete write_complete (record c₁ { world = world })
          some (if is_disconnecting c.state then shutdown_in_loop c₂ else c₂))
        else some c₁

  unfoldable pub handle_write : WriteResult → Conn → Option Conn
  handle_write (wrote n) c = if is_writing c && ltb 0 n then wrote_out n c else some c
  handle_write would_block c = some c
  handle_write broken c = some c
  handle_write other_error c = some c

  module _ (cb : Callbacks) where
    open cb use {connection, message, close}

    unfoldable pub handle_close : Conn → Option Conn
    handle_close c = do
      assert (is_connected c.state || is_disconnecting c.state)
      world ← change disable_all c.world
      c₁ ← connection (record c { state = disconnected; world = world })
      close c₁

    unfoldable pub force_close_in_loop : Conn → Option Conn
    force_close_in_loop c =
        if is_connected c.state || is_disconnecting c.state then handle_close c else some c

    -- An error is only logged (`handleError`).
    unfoldable pub after_read : ReadResult → Conn → Option Conn
    after_read (failed errno) c = some c
    after_read (received []) c = handle_close c
    after_read (received (d ∷ ds)) c = message c

    unfoldable pub handle_read : (ℕ → ReadResult) → Conn → Option Conn
    handle_read readv c = do
      out ← read_fd readv c.input
      after_read out.0 (record c { input = out.1 })

    unfoldable pub connect_established : Conn → Option Conn
    connect_established c = do
      assert (is_connecting c.state)
      world ← change enable_reading c.world
      connection (record c { state = connected; world = world })

    unfoldable pub connect_destroyed : Conn → Option Conn
    connect_destroyed c = do
      c₁ ←
          if is_connected c.state
          then (do
            world ← change disable_all c.world
            connection (record c { state = disconnected; world = world }))
          else some c
      world ← remove c₁.world
      some (record c₁ { world = world })

    -- A functor of the queue, run by the loop. The user's callbacks for a finished write and for a
    -- full buffer are not followed.
    unfoldable pub run_functor : WriteResult → Functor → Conn → Option Conn
    run_functor w write_complete c = some c
    run_functor w (high_water n) c = some c
    run_functor w (send_later ds) c = send_in_loop w ds c
    run_functor w shutdown_later c = some (shutdown_in_loop c)
    run_functor w force_close_later c = force_close_in_loop c
    run_functor w start_read_later c = start_read_in_loop c
    run_functor w stop_read_later c = stop_read_in_loop c
