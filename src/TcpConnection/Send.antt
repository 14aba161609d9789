-- ===== src/TcpConnection/Send.antt =====
-- `sendInLoop`: the bytes reach the stream in order, whole or not at all.
use muduo.Base.{
  Bool, true, false, ◌&&◌, ◌||◌, not, ℕ, ◌+◌, ◌-◌, ◌≤◌, ◌<◌, ◌≡◌, refl, sym, ap, ◌∙◌, some, List,
  [], ◌++◌, arith, if◌then◌else◌, ◌==◌, ltb, length, take, drop, Gives, Bool-cases, inl, inr,
  take-append-drop, append_assoc, append-nil, length-drop, take_all, le→leb, ltb→lt, lt→ltb, ltb→ge,
  ==_iff, length-append, length_zero, and_right,
}
use muduo.Base.Size.{sub_size, sub_size-eq}
use muduo.Buffer.{max_size, readable_bytes}
use muduo.Buffer.Content.{IsValid, contents, readable_bytes-eq, length-contents}
use muduo.Reactor.{Reactor}
use muduo.TcpConnection.{
  is_disconnected, Conn, is_writing, queue_if, Functor, write_complete, WriteResult, wrote,
  would_block, broken, other_error, first_write, buffer_rest, send_in_loop,
}
use muduo.TcpConnection.Invariant.{Inv, stream, Buffered, buffer_rest-Buffered}

-- A write takes no more bytes than it is given.
abbrev pub IsBounded : WriteResult → List ℕ → Type 0
IsBounded (wrote n) ds = n ≤ length ds
IsBounded would_block ds = Unit {0}
IsBounded broken ds = Unit {0}
IsBounded other_error ds = Unit {0}

module _ {r : Reactor} where
  -- `sendInLoop` writes to the socket itself only if nothing waits to be written.
  abbrev pub is_direct : Conn r → Bool
  is_direct c = not (is_writing r c) && readable_bytes c.output == 0

  -- The bytes are given up: the connection is closed, or the direct write found the peer gone.
  abbrev pub is_dropped : WriteResult → Conn r → Bool
  is_dropped broken c = is_disconnected c.state || is_direct c
  is_dropped (wrote n) c = is_disconnected c.state
  is_dropped would_block c = is_disconnected c.state
  is_dropped other_error c = is_disconnected c.state

  -- What `sendInLoop` leaves, and that nothing of the connection but its queue, its stream and its
  -- interest in writing changes.
  pub record Sent (w : WriteResult) (ds : List ℕ) (c c' : Conn r) : Type 0 where
    pub inv : Inv c'
    pub delivered : stream c' ≡ (if is_dropped w c then stream c else stream c ++ ds)
    pub state : c'.state ≡ c.state
    pub write_shut : c'.write_shut ≡ c.write_shut

  Buffered-Inv :
      (c c' : Conn r) (ds : List ℕ)
      → IsValid c.input
      → is_disconnected c.state ≡ false
      → 0 < length ds
      → Buffered c ds c'
      → Inv c'
  Buffered-Inv c c' ds i alive more b = record {
    good = b.good;
    input_valid = rw b.input i;
    output_valid = b.output.valid;
    busy = λ _.
        b.writing
        ∙ sym (
            lt→ltb 0 (length (contents c'.output))
              (omega (arith, ap length b.output.holds, length-append (contents c.output) ds)));
    quiet = λ d. absurd (clash (sym d ∙ ap is_disconnected b.state ∙ alive));
  }
    where
      clash : true ≡ false → ⊥
      clash e = cc

  Buffered-stream : (c c' : Conn r) (ds : List ℕ) → Buffered c ds c' → stream c' ≡ stream c ++ ds
  Buffered-stream c c' ds b =
      rw (b.sent, b.output.holds, append_assoc c.sent (contents c.output) ds)

  -- What is left after `n` bytes were written goes to the buffer.
  buffer_rest-Sent :
      (w : WriteResult) (ds : List ℕ) (c c₁ : Conn r) (n m : ℕ)
      → Inv c
      → (c₁.world ≡ c.world)
        × (c₁.output ≡ c.output)
        × (c₁.input ≡ c.input)
        × (c₁.state ≡ c.state)
        × (c₁.write_shut ≡ c.write_shut)
      → stream c₁ ++ drop n ds ≡ stream c ++ ds
      → m ≡ length ds - n
      → 0 < m
      → is_disconnected c.state ≡ false
      → is_dropped w c ≡ false
      → c.output.writer_index + length ds ≤ max_size
      → Gives (buffer_rest r n m ds c₁) (Sent w ds c)
  buffer_rest-Sent w ds c c₁ n m v (wo, out, inp, st, sh) str count more alive kept fits = sent (
      buffer_rest-Buffered n m ds c₁ (rw wo v.good) (rw out v.output_valid)
        (rw (out, whole) (omega (arith, length-drop n ds))))
    where
      whole : take m (drop n ds) ≡ drop n ds
      whole = take_all m (drop n ds) (omega (arith, length-drop n ds))

      sent :
          Gives (buffer_rest r n m ds c₁) (Buffered c₁ (take m (drop n ds)))
          → Gives (buffer_rest r n m ds c₁) (Sent w ds c)
      sent (c', e, b) = (
        c',
        e,
        record {
          inv =
              Buffered-Inv c₁ c' (take m (drop n ds)) (rw inp v.input_valid) (rw st alive)
                (omega (arith, ap length whole, length-drop n ds)) b;
          delivered =
              rw kept (
                Buffered-stream c₁ c' (take m (drop n ds)) b
                ∙ ap (λ t. stream c₁ ++ t) whole
                ∙ str);
          state = b.state ∙ st;
          write_shut = b.write_shut ∙ sh;
        },
      )

  -- The direct write took everything.
  first_write-Sent :
      (ds : List ℕ) (c : Conn r) (n : ℕ) (p : List Functor)
      → Inv c
      → contents c.output ≡ []
      → is_disconnected c.state ≡ false
      → n ≡ length ds
      → Sent (wrote n) ds c (record c { sent = c.sent ++ take n ds; pending = p })
  first_write-Sent ds c n p v none_left alive all = record {
    inv = record {
      good = v.good;
      input_valid = v.input_valid;
      output_valid = v.output_valid;
      busy = v.busy;
      quiet = v.quiet;
    };
    delivered = rw (alive, none_left, append-nil, append-nil, take_all n ds (omega arith));
    state = refl;
    write_shut = refl;
  }

  Sent-refl :
      (w : WriteResult) (ds : List ℕ) (c : Conn r) → Inv c → is_dropped w c ≡ true → Sent w ds c c
  Sent-refl w ds c v e = record { inv = v; delivered = rw e; state = refl; write_shut = refl }

  rest_or_done :
      (w : WriteResult) (ds : List ℕ) (c : Conn r)
      → Inv c
      → is_disconnected c.state ≡ false
      → is_dropped w c ≡ false
      → c.output.writer_index + length ds ≤ max_size
      → Gives (if ltb 0 (length ds) then buffer_rest r 0 (length ds) ds c else some c) (Sent w ds c)
  rest_or_done w ds c v alive kept fits = elim (Bool-cases (ltb 0 (length ds))) [
    | inl more ↦ rw more (
        buffer_rest-Sent w ds c c 0 (length ds) v (refl, refl, refl, refl, refl) refl (omega arith)
          (ltb→lt 0 (length ds) more) alive kept fits)
    | inr done ↦ (
      c,
      rw done,
      record {
        inv = v;
        delivered =
            rw (kept, length_zero ds (omega (arith, ltb→ge 0 (length ds) done)), append-nil);
        state = refl;
        write_shut = refl;
      },
    )
  ]

  abbrev advanced : ℕ → List ℕ → Conn r → Conn r
  advanced n ds c =
      queue_if r (length ds - n == 0 && c.has_write_complete) write_complete
        (record c { sent = c.sent ++ take n ds })

  wrote_some :
      (n : ℕ) (ds : List ℕ) (c : Conn r)
      → Inv c
      → is_disconnected c.state ≡ false
      → contents c.output ≡ []
      → n ≤ length ds
      → c.output.writer_index + length ds ≤ max_size
      → let f = first_write r (wrote n) ds c in
        Gives
          (if ltb 0 f.remaining then buffer_rest r f.nwrote f.remaining ds f.conn else some f.conn)
          (Sent (wrote n) ds c)
  unfolding first_write
  wrote_some n ds c v alive none_left few fits =
      rw (sub_size-eq (length ds) n few (omega arith)) (elim (Bool-cases (ltb 0 (length ds - n))) [
        | inl more ↦ rw more (
            buffer_rest-Sent (wrote n) ds c (advanced n ds c) n (length ds - n) v
              (refl, refl, refl, refl, refl) joined refl (ltb→lt 0 (length ds - n) more) alive alive
              fits)
        | inr done ↦ (
          advanced n ds c,
          rw done,
          first_write-Sent ds c n (advanced n ds c).pending v none_left alive
              (omega (arith, ltb→ge 0 (length ds - n) done)),
        )
      ])
    where
      joined : ((c.sent ++ take n ds) ++ contents c.output) ++ drop n ds ≡ stream c ++ ds
      joined = rw (
        none_left,
        append-nil,
        append-nil,
        append_assoc c.sent (take n ds) (drop n ds),
        take-append-drop n ds,
      )

  dropped_closed :
      (w : WriteResult) (c : Conn r) → is_disconnected c.state ≡ true → is_dropped w c ≡ true
  dropped_closed (wrote n) c d = d
  dropped_closed would_block c d = d
  dropped_closed broken c d = rw d
  dropped_closed other_error c d = d

  kept_waiting :
      (w : WriteResult) (c : Conn r)
      → is_disconnected c.state ≡ false
      → is_direct c ≡ false
      → is_dropped w c ≡ false
  kept_waiting (wrote n) c d e = d
  kept_waiting would_block c d e = d
  kept_waiting broken c d e = rw d e
  kept_waiting other_error c d e = d

  direct_empty : (c : Conn r) → Inv c → is_direct c ≡ true → contents c.output ≡ []
  direct_empty c v d = length_zero (contents c.output) (
      omega (
        arith,
        length-contents v.output_valid,
        readable_bytes-eq v.output_valid,
        (==_iff (readable_bytes c.output) 0).0 (and_right (not (is_writing r c)) _ d),
      ))

  direct_write :
      (w : WriteResult) (ds : List ℕ) (c : Conn r)
      → Inv c
      → is_disconnected c.state ≡ false
      → is_direct c ≡ true
      → IsBounded w ds
      → c.output.writer_index + length ds ≤ max_size
      → Gives (send_in_loop r w ds c) (Sent w ds c)
  unfolding send_in_loop first_write
  direct_write (wrote n) ds c v alive d few fits =
      rw
        (
          alive,
          d,
          le→leb (sub_size (length ds) n) (length ds)
              (omega (arith, sub_size-eq (length ds) n few (omega arith))),
        )
        (wrote_some n ds c v alive (direct_empty c v d) few fits)
  direct_write would_block ds c v alive d few fits =
      rw (alive, d, le→leb (length ds) (length ds) (omega arith))
        (rest_or_done would_block ds c v alive alive fits)
  direct_write broken ds c v alive d few fits = (
    c,
    rw (alive, d, le→leb (length ds) (length ds) (omega arith)),
    Sent-refl broken ds c v (rw (alive, d)),
  )
  direct_write other_error ds c v alive d few fits =
      rw (alive, d, le→leb (length ds) (length ds) (omega arith))
        (rest_or_done other_error ds c v alive alive fits)

  -- `sendInLoop` runs through, keeps the invariant, and puts all of the bytes behind those that the
  -- connection already answers for: what the socket took and what waits in the output buffer are in
  -- the order of the calls. Only on a closed connection, or if a direct write finds the peer gone,
  -- are the bytes given up, and then all of them. The output buffer may grow to hold them.
  pub send_in_loop-Sent :
      (w : WriteResult) (ds : List ℕ) (c : Conn r)
      → Inv c
      → IsBounded w ds
      → c.output.writer_index + length ds ≤ max_size
      → Gives (send_in_loop r w ds c) (Sent w ds c)
  unfolding send_in_loop
  send_in_loop-Sent w ds c v few fits = elim (Bool-cases (is_disconnected c.state)) [
    | inl d ↦ (c, rw d, Sent-refl w ds c v (dropped_closed w c d))
    | inr alive ↦ elim (Bool-cases (is_direct c)) [
      | inl d ↦ direct_write w ds c v alive d few fits
      | inr d ↦
          rw (alive, d, le→leb (length ds) (length ds) (omega arith))
            (rest_or_done w ds c v alive (kept_waiting w c alive d) fits)
    ]
  ]
