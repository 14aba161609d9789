-- ===== src/Buffer/Tests.antt =====
-- The buffer at concrete inputs.
use muduo.Base.{ℕ, ◌≡◌, ◌≤◌, refl, some, List, [], ◌∷◌, arith, length, Gives, take, ap, length-take}
use muduo.Base.Size.{add_size, sub_size}
use muduo.Buffer.{
  Buffer, append, retrieve, make_space, ensure_writable_bytes, copy_to, has_written, resize,
  readable_bytes, writable_bytes, prependable_bytes, peek_bytes,
}
use muduo.Buffer.Content.{IsValid}
use muduo.Buffer.Append.{Holds, append-Holds}
use muduo.Buffer.Room.{HasRoom, ensure_writable_bytes-Gives}
use muduo.Buffer.Retrieve.{retrieve-Holds}
use muduo.Buffer.ReadFd.{ReadResult, failed, received, read_fd, AfterRead, read_fd-AfterRead}
use muduo.Buffer.Ints.{Host, be_bytes, be_value_from}

-- Three bytes, "abc", in a vector of fourteen.
abbrev pub abc : Buffer
abc = record {
  buffer = 0 ∷ 0 ∷ 0 ∷ 0 ∷ 0 ∷ 0 ∷ 0 ∷ 0 ∷ 0 ∷ 97 ∷ 98 ∷ 99 ∷ 0 ∷ 0 ∷ [];
  reader_index = 9;
  writer_index = 12;
}

pub abc-IsValid : IsValid abc
abc-IsValid = omega arith

abbrev pub blank : Buffer
blank = record {
  buffer = 0 ∷ 0 ∷ 0 ∷ 0 ∷ 0 ∷ 0 ∷ 0 ∷ 0 ∷ 0 ∷ 0 ∷ 0 ∷ 0 ∷ [];
  reader_index = 8;
  writer_index = 8;
}

pub blank-IsValid : IsValid blank
blank-IsValid = omega arith

-- The readable bytes are moved to the front: the vector keeps its size.
append_moves :
    append (100 ∷ 101 ∷ 102 ∷ []) abc
    ≡ some (record {
      buffer = 0 ∷ 0 ∷ 0 ∷ 0 ∷ 0 ∷ 0 ∷ 0 ∷ 0 ∷ 97 ∷ 98 ∷ 99 ∷ 100 ∷ 101 ∷ 102 ∷ [];
      reader_index = 8;
      writer_index = 14;
    })
unfolding append ensure_writable_bytes make_space copy_to has_written readable_bytes writable_bytes
    prependable_bytes peek_bytes add_size sub_size
append_moves = refl

append-Holds_example :
    Gives
      (append (100 ∷ 101 ∷ 102 ∷ 103 ∷ []) abc)
      (Holds (97 ∷ 98 ∷ 99 ∷ 100 ∷ 101 ∷ 102 ∷ 103 ∷ []))
append-Holds_example = append-Holds abc-IsValid (100 ∷ 101 ∷ 102 ∷ 103 ∷ []) (omega arith)

ensure_writable_bytes-Gives_example : Gives (ensure_writable_bytes 5 abc) (HasRoom abc 5)
ensure_writable_bytes-Gives_example = ensure_writable_bytes-Gives abc-IsValid 5 (omega arith)

retrieve-Holds_example : Gives (retrieve 2 abc) (Holds (99 ∷ []))
retrieve-Holds_example = retrieve-Holds abc-IsValid 2 (omega arith)

-- Seven bytes arrive, or as many as there is space for.
abbrev pub seven : ℕ → ReadResult
seven n = received (take n (1 ∷ 2 ∷ 3 ∷ 4 ∷ 5 ∷ 6 ∷ 7 ∷ []))

abbrev pub bytes_of : ReadResult → List ℕ
bytes_of (failed e) = []
bytes_of (received ds) = ds

pub seven_bounded : (n : ℕ) (ds : List ℕ) → seven n ≡ received ds → length ds ≤ n
seven_bounded n ds e =
    omega (arith, ap length (ap bytes_of e), length-take {A = ℕ} n (1 ∷ 2 ∷ 3 ∷ 4 ∷ 5 ∷ 6 ∷ 7 ∷ []))

read_fd-AfterRead_example : (n : ℕ) × Gives (read_fd seven abc) (AfterRead abc (seven n))
read_fd-AfterRead_example = read_fd-AfterRead abc-IsValid seven seven_bounded (omega arith)

read_fd_runs_over :
    read_fd seven abc
    ≡ some (
      received (1 ∷ 2 ∷ 3 ∷ 4 ∷ 5 ∷ 6 ∷ 7 ∷ []),
      record {
        buffer = 0 ∷ 0 ∷ 0 ∷ 0 ∷ 0 ∷ 0 ∷ 0 ∷ 0 ∷ 0 ∷ 97 ∷ 98 ∷ 99 ∷ 1 ∷ 2 ∷ 3 ∷ 4 ∷ 5 ∷ 6 ∷ 7 ∷ [];
        reader_index = 9;
        writer_index = 19;
      },
    )
unfolding read_fd append ensure_writable_bytes make_space resize copy_to has_written readable_bytes
    writable_bytes prependable_bytes peek_bytes add_size sub_size
read_fd_runs_over = refl

-- A machine that keeps the most significant byte first.
abbrev pub big_endian : Host
big_endian = record {
  store = be_bytes;
  load = λ n. be_value_from 0;
  htobe = λ n x. x;
  betoh = λ n x. x;
  store-htobe = λ n x h. refl;
  betoh-load = λ n ds h. refl;
}
