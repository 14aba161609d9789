-- ===== src/TcpConnection/Write.antt =====
-- `handleWrite` and `shutdownInLoop`: the output buffer drains to the socket, and the write half is
-- shut down only behind its last byte.
use muduo.Base.{
  Bool, true, false, ◌&&◌, ◌||◌, not, ℕ, ◌≤◌, ◌≡◌, ◌≢◌, refl, sym, ap, ◌∙◌, some, List, ◌++◌, arith,
  if◌then◌else◌, ◌==◌, ltb, length, take, drop, Gives, >>=-Gives, Bool-cases, inl, inr, ◌>>=◌,
  take-append-drop, append_assoc, lt→ltb, ge→ltb, ==_iff, and_left, eq→==,
}
use muduo.Buffer.{Buffer, readable_bytes}
use muduo.Buffer.Content.{contents, readable_bytes-eq, length-contents, peek_bytes-contents}
use muduo.Buffer.Append.{Holds}
use muduo.Buffer.Retrieve.{retrieve-Holds}
use muduo.Channel.{disable_writing}
use muduo.Reactor.{Reactor}
use muduo.TcpConnection.{
  is_disconnected, is_disconnecting, Conn, Functor, is_writing, queue_if, WriteResult, wrote,
  would_block, broken, other_error, write_complete, shutdown_in_loop, wrote_out, handle_write,
}
use muduo.TcpConnection.Invariant.{Inv, has_output, stream}
use muduo.TcpConnection.Send.{IsBounded}

eq-clash : (b : Buffer) → readable_bytes b ≡ 0 → (readable_bytes b == 0) ≡ false → ⊥
eq-clash b e f = cc (eq→== (readable_bytes b) 0 e)

bool_clash : true ≡ false → ⊥
bool_clash e = cc

same_shut : (s w d o : Bool) → (w ≡ true → o ≡ true) → s ≡ (s || (w && (d && not o)))
same_shut true w d o h = refl
same_shut false false d o h = refl
same_shut false true d o h = rw (h refl) (ground arith)

or_swap : (d s : Bool) → (d || s) ≡ (s || (d && true))
or_swap d s = ground arith

module _ {r : Reactor} where
  -- `handleWrite` moves bytes from the buffer to the socket. The write half is shut down afterwards if it
  -- was before, or if the channel was writing, the buffer is now empty and the connection is being shut
  -- down; otherwise it is not.
  pub record Written (c c' : Conn r) : Type 0 where
    pub inv : Inv c'
    pub same : stream c' ≡ stream c
    pub state : c'.state ≡ c.state
    pub shut :
        c'.write_shut
        ≡ (c.write_shut || (is_writing r c && (is_disconnecting c.state && not (has_output c'))))

  writing_full : (c : Conn r) → Inv c → is_writing r c ≡ true → has_output c ≡ true
  writing_full c v w = elim (Bool-cases (is_disconnected c.state)) [
    | inl d ↦ absurd (bool_clash (sym w ∙ v.quiet d))
    | inr d ↦ sym (v.busy d) ∙ w
  ]

  Written-refl : (c : Conn r) → Inv c → Written c c
  Written-refl c v = record {
    inv = v;
    same = refl;
    state = refl;
    shut = same_shut c.write_shut (is_writing r c) _ (has_output c) (writing_full c v);
  }

  moved :
      (n : ℕ) (c : Conn r)
      → (c.sent ++ take n (contents c.output)) ++ drop n (contents c.output) ≡ stream c
  moved n c =
      append_assoc c.sent (take n (contents c.output)) (drop n (contents c.output))
      ∙ ap (◌++◌ c.sent) (take-append-drop n (contents c.output))

  abbrev taken : ℕ → Conn r → Buffer → Conn r
  taken n c b = record c { output = b; sent = c.sent ++ take n (contents c.output) }

  -- Bytes are left in the buffer: the channel goes on writing.
  Written-more :
      (n : ℕ) (c : Conn r) (b : Buffer)
      → Inv c
      → is_disconnected c.state ≡ false
      → is_writing r c ≡ true
      → Holds (drop n (contents c.output)) b
      → readable_bytes b ≢ 0
      → Written c (taken n c b)
  Written-more n c b v alive on h more = record {
    inv = record {
      good = v.good;
      input_valid = v.input_valid;
      output_valid = h.valid;
      busy = λ _. on ∙ sym full;
      quiet = λ d. absurd (bool_clash (sym d ∙ alive));
    };
    same = rw h.holds (moved n c);
    state = refl;
    shut = same_shut c.write_shut (is_writing r c) _ _ (λ _. full);
  }
    where
      full : ltb 0 (length (contents b)) ≡ true
      full =
          lt→ltb 0 (length (contents b))
            (omega (arith, readable_bytes-eq h.valid, length-contents h.valid))

  -- The buffer is empty: the channel has stopped writing, and a pending shutdown is done.
  abbrev drained : ℕ → Conn r → Buffer → r.World → List Functor → Conn r
  drained n c b world p = record c {
    output = b;
    sent = c.sent ++ take n (contents c.output);
    world = world;
    pending = p;
    write_shut = is_disconnecting c.state || c.write_shut;
  }

  Written-all :
      (n : ℕ) (c : Conn r) (b : Buffer) (world : r.World) (p : List Functor)
      → Inv c
      → is_disconnected c.state ≡ false
      → is_writing r c ≡ true
      → Holds (drop n (contents c.output)) b
      → readable_bytes b ≡ 0
      → r.IsGood world
      → is_writing r (record c { world = world }) ≡ false
      → Written c (drained n c b world p)
  Written-all n c b world p v alive on h zero_left g off = record {
    inv = record {
      good = g;
      input_valid = v.input_valid;
      output_valid = h.valid;
      busy = λ _. off ∙ sym empty;
      quiet = λ _. off;
    };
    same = rw h.holds (moved n c);
    state = refl;
    shut = rw (on, empty) (or_swap (is_disconnecting c.state) c.write_shut);
  }
    where
      empty : ltb 0 (length (contents b)) ≡ false
      empty =
          ge→ltb 0 (length (contents b))
            (omega (arith, readable_bytes-eq h.valid, length-contents h.valid))

  shut_down :
      (c : Conn r)
      → is_writing r c ≡ false
      → (if is_disconnecting c.state then shutdown_in_loop r c else c)
        ≡ record c { write_shut = is_disconnecting c.state || c.write_shut }
  unfolding shutdown_in_loop
  shut_down c off = elim (Bool-cases (is_disconnecting c.state)) [
    | inl d ↦ rw (d, off)
    | inr d ↦ rw d
  ]

  wrote_out-Written :
      (n : ℕ) (c : Conn r)
      → Inv c
      → is_disconnected c.state ≡ false
      → is_writing r c ≡ true
      → n ≤ length (contents c.output)
      → Gives (wrote_out r n c) (Written c)
  unfolding wrote_out
  wrote_out-Written n c v alive on few =
      >>=-Gives (Holds (drop n (contents c.output))) (Written c) _
        (retrieve-Holds v.output_valid n few)
        (λ b h. rw (peek_bytes-contents v.output_valid) (finish b h))
    where
      finish :
          (b : Buffer)
          → Holds (drop n (contents c.output)) b
          → Gives
              (if readable_bytes b == 0
                then (r.change disable_writing c.world >>= λ world. some (
                    if is_disconnecting c.state
                    then shutdown_in_loop r (
                        queue_if r c.has_write_complete write_complete
                          (record (taken n c b) { world = world }))
                    else queue_if r c.has_write_complete write_complete
                        (record (taken n c b) { world = world })))
                else some (taken n c b))
              (Written c)
      finish b h = elim (Bool-cases (readable_bytes b == 0)) [
        | inr more ↦
            (taken n c b, rw more, Written-more n c b v alive on h (λ e. eq-clash b e more))
        | inl all ↦ rw all (
            >>=-Gives _ (Written c) _ (r.change_good disable_writing c.world v.good) λ world p.
              let p_off : is_writing r (record c { world = world }) ≡ false =
                rw p.2 (ground arith) in
              (
                _,
                ap some (
                    shut_down
                      (queue_if r c.has_write_complete write_complete
                        (record (taken n c b) { world = world }))
                      p_off),
                Written-all n c b world _ v alive on h ((==_iff (readable_bytes b) 0).0 all) p.0
                    p_off,
              ))
      ]

  writing_alive : (c : Conn r) → Inv c → is_writing r c ≡ true → is_disconnected c.state ≡ false
  writing_alive c v w = elim (Bool-cases (is_disconnected c.state)) [
    | inl d ↦ absurd (bool_clash (sym w ∙ v.quiet d))
    | inr d ↦ d
  ]

  -- `handleWrite` runs through, keeps the invariant and loses no byte: what the socket took and what
  -- waits are the same stream. It shuts the write half down if and only if it empties the buffer of a
  -- connection that is being shut down.
  pub handle_write-Written :
      (w : WriteResult) (c : Conn r)
      → Inv c
      → IsBounded w (contents c.output)
      → Gives (handle_write r w c) (Written c)
  unfolding handle_write
  handle_write-Written (wrote n) c v few = elim (Bool-cases (is_writing r c && ltb 0 n)) [
    | inl on ↦ rw on (
        wrote_out-Written n c v (writing_alive c v (and_left (is_writing r c) (ltb 0 n) on))
          (and_left (is_writing r c) (ltb 0 n) on) few)
    | inr off ↦ (c, rw off, Written-refl c v)
  ]
  handle_write-Written would_block c v few = (c, refl, Written-refl c v)
  handle_write-Written broken c v few = (c, refl, Written-refl c v)
  handle_write-Written other_error c v few = (c, refl, Written-refl c v)
