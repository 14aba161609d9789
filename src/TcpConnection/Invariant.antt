-- ===== src/TcpConnection/Invariant.antt =====
-- What holds of a connection between two handlers, and the bytes that it answers for.
use muduo.Base.{
  Bool, true, false, ℕ, ◌+◌, ◌≤◌, ◌≡◌, refl, List, ◌++◌, arith, ltb, length, take, drop, Gives,
  >>=-Gives, Bool-cases, inl, inr,
}
use muduo.Buffer.{max_size}
use muduo.Buffer.Content.{IsValid, contents}
use muduo.Buffer.Append.{Holds, append-Holds}
use muduo.Channel.{enable_writing}
use muduo.Reactor.{Reactor}
use muduo.TcpConnection.{is_disconnected, Conn, is_writing, enable_writing_unless, buffer_rest}

module _ {r : Reactor} where
  abbrev pub has_output : Conn r → Bool
  has_output c = ltb 0 (length (contents c.output))

  -- The connection watches for writability exactly while it has bytes to write.
  pub record Inv (c : Conn r) : Type 0 where
    pub good : r.IsGood c.world
    pub input_valid : IsValid c.input
    pub output_valid : IsValid c.output
    pub busy : is_disconnected c.state ≡ false → is_writing r c ≡ has_output c
    pub quiet : is_disconnected c.state ≡ true → is_writing r c ≡ false

  -- All that the connection has taken for the peer: sent already, or still to be sent.
  abbrev pub stream : Conn r → List ℕ
  stream c = c.sent ++ contents c.output

  -- `buffer_rest` keeps all but the output buffer, the queue and the channel.
  pub record Buffered (c : Conn r) (ds : List ℕ) (c' : Conn r) : Type 0 where
    pub good : r.IsGood c'.world
    pub writing : is_writing r c' ≡ true
    pub output : Holds (contents c.output ++ ds) c'.output
    pub input : c'.input ≡ c.input
    pub state : c'.state ≡ c.state
    pub sent : c'.sent ≡ c.sent
    pub write_shut : c'.write_shut ≡ c.write_shut

  enabled :
      (c c₀ : Conn r) (ds : List ℕ)
      → r.IsGood c.world
      → Holds (contents c₀.output ++ ds) c.output
      → c.input ≡ c₀.input
      → c.state ≡ c₀.state
      → c.sent ≡ c₀.sent
      → c.write_shut ≡ c₀.write_shut
      → Gives (enable_writing_unless r c) (Buffered c₀ ds)
  unfolding enable_writing_unless
  enabled c c₀ ds g h i st se ws = elim (Bool-cases (is_writing r c)) [
    | inl on ↦ (
      c,
      rw on,
      record {
        good = g;
        writing = on;
        output = h;
        input = i;
        state = st;
        sent = se;
        write_shut = ws;
      },
    )
    | inr off ↦ rw off (
        >>=-Gives _ (Buffered c₀ ds) _ (r.change_good enable_writing c.world g) λ world p. (
          record c { world = world },
          refl,
          record {
            good = p.0;
            writing = rw p.2 (ground arith);
            output = h;
            input = i;
            state = st;
            sent = se;
            write_shut = ws;
          },
        ))
  ]

  pub buffer_rest-Buffered :
      (n m : ℕ) (ds : List ℕ) (c : Conn r)
      → r.IsGood c.world
      → IsValid c.output
      → c.output.writer_index + length (take m (drop n ds)) ≤ max_size
      → Gives (buffer_rest r n m ds c) (Buffered c (take m (drop n ds)))
  unfolding buffer_rest
  buffer_rest-Buffered n m ds c g v fits =
      >>=-Gives (Holds (contents c.output ++ take m (drop n ds))) _ _
        (append-Holds v (take m (drop n ds)) fits)
        λ output h. enabled _ c (take m (drop n ds)) g h refl refl refl refl
