-- ===== src/TcpConnection/Lifecycle.antt =====
-- `connectEstablished`, `handleClose`, `connectDestroyed` and `handleRead`.
use muduo.Base.{
  true, false, ◌||◌, not, ℕ, ◌+◌, ◌≤◌, ◌≡◌, refl, ap, Option, none, some, List, [], ◌∷◌, ◌++◌,
  arith, length, Gives, >>=-Gives, ◌>>=◌,
}
use muduo.Buffer.{Buffer, max_size}
use muduo.Buffer.Content.{contents}
use muduo.Buffer.Append.{Holds}
use muduo.Buffer.ReadFd.{ReadResult, failed, received, extrabuf_size, AfterRead, read_fd-AfterRead}
use muduo.Channel.{changed, nonzero, enable_reading, disable_all}
use muduo.Reactor.{Reactor}
use muduo.TcpConnection.{
  connecting, connected, disconnected, is_connected, is_disconnecting, is_disconnected, Conn,
  Callbacks, is_writing, is_reading, handle_close, handle_read, after_read, connect_established,
  connect_destroyed, start_read_in_loop,
}
use muduo.TcpConnection.Invariant.{Inv}

-- A callback that runs through and keeps a property.
abbrev pub Keeps {ℓ κ} : {A : Type ℓ} → (A → Type κ) → (A → Option A) → Type (ℓ ⊔ κ)
Keeps {A} P f = (c : A) → P c → Gives (f c) P

module _ {r : Reactor} where
  -- A closed connection watches for nothing.
  pub record Closed (c : Conn r) : Type 0 where
    pub inv : Inv c
    pub state : c.state ≡ disconnected
    pub known : r.IsKnown c.world
    pub silent : nonzero (r.events c.world) ≡ false

  -- An open connection watches for what its peer sends.
  pub record Open (c : Conn r) : Type 0 where
    pub inv : Inv c
    pub state : c.state ≡ connected
    pub reading : is_reading r c ≡ true

  Closed-now :
      (c : Conn r) (world : r.World)
      → Inv c
      → r.IsGood world
      → r.IsKnown world
      → nonzero (r.events world) ≡ false
      → is_writing r (record c { world = world }) ≡ false
      → Closed (record c { state = disconnected; world = world })
  Closed-now c world v g k e off = record {
    inv = record {
      good = g;
      input_valid = v.input_valid;
      output_valid = v.output_valid;
      busy = λ d. cc;
      quiet = λ _. off;
    };
    state = refl;
    known = k;
    silent = e;
  }

  module _ (cb : Callbacks r) where
    -- The connection as the callbacks of `handleClose` find it: marked closed, watching for nothing.
    abbrev pub closing : Conn r → r.World → Conn r
    closing c world = record c { state = disconnected; world = world }

    -- An open connection closes, with callbacks that run through on a closed connection and keep it
    -- closed: its channel is changed to watch for nothing, it is marked closed, and then the call does
    -- just what the user's callback and the server's callback behind it do; it runs through, and the
    -- connection stays closed.
    pub handle_close-Closed :
        (c : Conn r)
        → Inv c
        → (is_connected c.state || is_disconnecting c.state) ≡ true
        → Keeps Closed cb.connection
        → Keeps Closed cb.close
        → (world : r.World) × (r.change disable_all c.world ≡ some world)
          × Closed (closing c world)
          × (handle_close r cb c ≡ (cb.connection (closing c world) >>= cb.close))
          × Gives (handle_close r cb c) Closed
    unfolding handle_close
    handle_close-Closed c v live kc kl =
        let (world, e, p) = r.change_good disable_all c.world v.good in
        let now = Closed-now c world v p.0 p.1 (rw p.2) (rw p.2) in
        (
          world,
          e,
          now,
          rw (live, e) refl,
          rw (live, e) (>>=-Gives Closed Closed cb.close (kc _ now) kl),
        )

    -- A second close stops the program, by the assertion.
    pub handle_close_closed :
        (c : Conn r) → is_disconnected c.state ≡ true → handle_close r cb c ≡ none
    unfolding handle_close
    handle_close_closed c d = ground arith

    -- A connecting connection is established: it is marked connected and watches for input when the
    -- user's callback runs, and stays so if that keeps it so.
    pub connect_established-Open :
        (c : Conn r)
        → Inv c
        → c.state ≡ connecting
        → Keeps Open cb.connection
        → Gives (connect_established r cb c) Open
    unfolding connect_established
    connect_established-Open c v e kc = rw e (
        >>=-Gives _ Open _ (r.change_good enable_reading c.world v.good) λ world p. kc _ (record {
          inv = record {
            good = p.0;
            input_valid = v.input_valid;
            output_valid = v.output_valid;
            busy = λ _. rw p.2 (ground (arith, v.busy (rw e)));
            quiet = λ d. cc;
          };
          state = refl;
          reading = rw p.2 (ground arith);
        }))

    -- A closed connection that waits for nothing more is taken off the loop.
    pub connect_destroyed-removed :
        (c : Conn r)
        → Closed c
        → r.IsIdle c.world
        → Gives
            (connect_destroyed r cb c)
            (λ c'. Inv c' × (c'.state ≡ disconnected) × (c'.sent ≡ c.sent))
    unfolding connect_destroyed
    connect_destroyed-removed c d idle = rw (ap is_connected d.state) (
        >>=-Gives _ (λ (c' : Conn r). Inv c' × (c'.state ≡ disconnected) × (c'.sent ≡ c.sent)) _
          (r.remove_good c.world d.inv.good d.known idle d.silent)
          λ world p. (
            record c { world = world },
            refl,
            (
              record {
                good = p.0;
                input_valid = d.inv.input_valid;
                output_valid = d.inv.output_valid;
                busy = λ n. cc (ap is_disconnected d.state);
                quiet = λ _. rw p.1 (d.inv.quiet (ap is_disconnected d.state));
              },
              d.state,
              refl,
            ),
          ))

    -- A `startRead` that runs after the connection has closed makes it watch for input again; the
    -- `connectDestroyed` behind it then stops the program, since a channel with events is removed.
    pub connect_destroyed-start_read_in_loop :
        (c : Conn r) → Closed c → (start_read_in_loop r c >>= connect_destroyed r cb) ≡ none
    unfolding start_read_in_loop connect_destroyed
    connect_destroyed-start_read_in_loop c d =
        let (world, e, p) = r.change_good enable_reading c.world d.inv.good in
        rw (stopped, e, ap is_connected d.state, r.remove_busy world (busy_now world p.2))
      where
        stopped : (not c.reading || not (is_reading r c)) ≡ true
        stopped = ground (arith, d.silent)

        busy_now :
            (world : r.World)
            → r.events world ≡ changed enable_reading (r.events c.world)
            → nonzero (r.events world) ≡ true
        busy_now world e = rw e (ground arith)

    -- What `handleRead` does with each result of the read: the bytes received are behind those of
    -- the input buffer when the message callback runs; the end of the input closes the connection;
    -- an error changes nothing.
    abbrev pub ReadOutcome : Conn r → ReadResult → Option (Conn r) → Type 0
    ReadOutcome c (failed errno) out = out ≡ some c
    ReadOutcome c (received []) out =
        (b : Buffer) × Holds (contents c.input ++ []) b
        × (out ≡ handle_close r cb (record c { input = b }))
    ReadOutcome c (received (d ∷ ds)) out =
        (b : Buffer) × Holds (contents c.input ++ (d ∷ ds)) b
        × (out ≡ cb.message (record c { input = b }))

    outcome :
        (c : Conn r) (res : ReadResult) (out : ReadResult × Buffer)
        → AfterRead c.input res out
        → ReadOutcome c res (after_read r cb out.0 (record c { input = out.1 }))
    unfolding after_read
    outcome c (failed errno) out h = rw h
    outcome c (received []) (res, b) h = (b, h.1, rw h.0)
    outcome c (received (d ∷ ds)) (res, b) h = (b, h.1, rw h.0)

    pub handle_read-ReadOutcome :
        (c : Conn r) (readv : ℕ → ReadResult)
        → Inv c
        → ((n : ℕ) (ds : List ℕ) → readv n ≡ received ds → length ds ≤ n)
        → length c.input.buffer + extrabuf_size ≤ max_size
        → (n : ℕ) × ReadOutcome c (readv n) (handle_read r cb readv c)
    unfolding handle_read
    handle_read-ReadOutcome c readv v bounded fits =
        let (n, g) = read_fd-AfterRead v.input_valid readv bounded fits in
        let (out, e, h) = g in (n, rw e (outcome c (readv n) out h))
