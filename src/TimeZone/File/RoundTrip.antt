-- ===== src/TimeZone/File/RoundTrip.antt =====
-- A time zone file is read as what it was written from.
use muduo.Base.{ℕ, some, List, [], ◌∷◌, ◌++◌, length, ◌≡◌, refl, ap}
use muduo.Base.Bytes.{bytes_eq}
use muduo.Base.Int.{ℤ, pos}
use muduo.Buffer.Ints.{Host}
use muduo.TimeZone.Zone.{Data}
use muduo.TimeZone.File.{
  Reader, and_then, ◌>>=◌, ◌>>◌, throw_unless, read_bytes, empty_data, set_abbreviation,
  read_indices, push_transitions, head, read_int32, read_trans, read_types, read_body, read_file,
  caught, read_time_zone_file,
}
use muduo.TimeZone.File.Encode.{
  int32_bytes, Int32, times_bytes, index_bytes, type_bytes, Skipped, IsSkipped, body_bytes,
  file_bytes, IsZone,
}
use muduo.TimeZone.File.Reads.{
  Reads, times, Reads-bind, Reads-read_bytes, Reads-read_indices, Reads-push_transitions,
  Reads-read_int32, Reads-read_trans, Reads-read_types,
}

module _ (host : Host) where
  module _ (d : Data) (z : IsZone d) where
    abbrev timecnt : ℕ
    timecnt = length d.transitions

    abbrev end : Reader (Unit {0})
    end = read_bytes (pos (length d.abbreviation)) >>= set_abbreviation

    abbrev after_types : List ℤ → List ℕ → Reader (Unit {0})
    after_types trans idxs = push_transitions trans idxs >> end

    abbrev after_indices : List ℤ → List ℕ → Reader (Unit {0})
    after_indices trans idxs = read_types host (length d.localtimes) >> after_types trans idxs

    abbrev with_types : Data
    with_types = record empty_data { localtimes = d.localtimes }

    abbrev with_transitions : Data
    with_transitions = record with_types { transitions = d.transitions }

    Reads-end : Reads end d.abbreviation tt with_transitions d
    Reads-end rest =
        ap (λ o. and_then o set_abbreviation)
          (Reads-read_bytes (length d.abbreviation) d.abbreviation with_transitions refl rest)

    Reads-after_types :
        Reads
          (after_types (times d.transitions) (index_bytes d.transitions))
          d.abbreviation
          tt
          with_types
          d
    Reads-after_types =
        Reads-bind (push_transitions (times d.transitions) (index_bytes d.transitions)) (λ _. end)
          [] d.abbreviation tt tt with_types with_transitions d
          (Reads-push_transitions d.transitions with_types z.transitions) Reads-end

    Reads-after_indices :
        Reads
          (after_indices (times d.transitions) (index_bytes d.transitions))
          (type_bytes d.localtimes ++ d.abbreviation)
          tt
          empty_data
          d
    Reads-after_indices =
        Reads-bind (read_types host (length d.localtimes))
          (λ _. after_types (times d.transitions) (index_bytes d.transitions))
          (type_bytes d.localtimes) d.abbreviation tt tt empty_data with_types d
          (Reads-read_types host d.localtimes empty_data z.localtimes) Reads-after_types

    Reads-after_trans :
        Reads
          (read_indices timecnt >>= after_indices (times d.transitions))
          (index_bytes d.transitions ++ (type_bytes d.localtimes ++ d.abbreviation))
          tt
          empty_data
          d
    Reads-after_trans =
        Reads-bind (read_indices timecnt) (after_indices (times d.transitions))
          (index_bytes d.transitions) (type_bytes d.localtimes ++ d.abbreviation)
          (index_bytes d.transitions) tt empty_data empty_data d
          (Reads-read_indices d.localtimes d.transitions empty_data z.transitions)
          Reads-after_indices

    Reads-read_body :
        Reads
          (read_body host (pos timecnt) (pos (length d.localtimes)) (pos (length d.abbreviation)))
          (body_bytes d)
          tt
          empty_data
          d
    unfolding read_body
    Reads-read_body =
        Reads-bind (read_trans host timecnt) (λ trans. read_indices timecnt >>= after_indices trans)
          (times_bytes d.transitions)
          (index_bytes d.transitions ++ (type_bytes d.localtimes ++ d.abbreviation))
          (times d.transitions) tt empty_data empty_data d
          (Reads-read_trans host d.localtimes d.transitions empty_data z.transitions)
          Reads-after_trans

    -- One of the six counts, and what follows it.
    Reads-count :
        (n : ℤ) (f : ℤ → Reader (Unit {0})) (e : List ℕ)
        → Int32 n
        → Reads (f n) e tt empty_data d
        → Reads (read_int32 host >>= f) (int32_bytes n ++ e) tt empty_data d
    Reads-count n f e h k =
        Reads-bind (read_int32 host) f (int32_bytes n) e n tt empty_data empty_data d
          (Reads-read_int32 host n empty_data h) k

    -- Some bytes that are skipped.
    Reads-skip :
        (n : ℕ) (bytes : List ℕ) (f : List ℕ → Reader (Unit {0})) (e : List ℕ)
        → length bytes ≡ n
        → Reads (f bytes) e tt empty_data d
        → Reads (read_bytes (pos n) >>= f) (bytes ++ e) tt empty_data d
    Reads-skip n bytes f e h k =
        Reads-bind (read_bytes (pos n)) f bytes e bytes tt empty_data empty_data d
          (Reads-read_bytes n bytes empty_data h) k

    abbrev counts₁ : Reader (Unit {0})
    counts₁ = read_int32 host >>= λ t.
        read_int32 host >>= λ y. read_int32 host >>= λ c. read_body host t y c

    abbrev counts : Reader (Unit {0})
    counts = read_int32 host >>= λ g. read_int32 host >>= λ s. read_int32 host >>= λ l. counts₁

    -- The file from one of its fields on.
    abbrev from_charcnt : List ℕ
    from_charcnt = int32_bytes (pos (length d.abbreviation)) ++ body_bytes d

    abbrev from_typecnt : List ℕ
    from_typecnt = int32_bytes (pos (length d.localtimes)) ++ from_charcnt

    abbrev from_timecnt : List ℕ
    from_timecnt = int32_bytes (pos timecnt) ++ from_typecnt

    abbrev from_leapcnt : Skipped → List ℕ
    from_leapcnt s = int32_bytes s.leapcnt ++ from_timecnt

    abbrev from_isstdcnt : Skipped → List ℕ
    from_isstdcnt s = int32_bytes s.isstdcnt ++ from_leapcnt s

    abbrev from_isgmtcnt : Skipped → List ℕ
    from_isgmtcnt s = int32_bytes s.isgmtcnt ++ from_isstdcnt s

    Reads-counts₁ : Reads counts₁ from_timecnt tt empty_data d
    Reads-counts₁ =
        Reads-count (pos timecnt)
          (λ t. read_int32 host >>= λ y. read_int32 host >>= λ c. read_body host t y c) from_typecnt
          z.timecnt
          (Reads-count (pos (length d.localtimes))
            (λ y. read_int32 host >>= λ c. read_body host (pos timecnt) y c) from_charcnt z.typecnt
            (Reads-count (pos (length d.abbreviation))
              (λ c. read_body host (pos timecnt) (pos (length d.localtimes)) c) (body_bytes d)
              z.charcnt Reads-read_body))

    Reads-read_file :
        (s : Skipped) → IsSkipped s → Reads (read_file host) (file_bytes s d) tt empty_data d
    unfolding read_file
    Reads-read_file s (res, a, b, c) =
        Reads-skip 4 head
          (λ bytes.
            throw_unless (bytes_eq bytes head)
            >> (read_bytes (pos 1) >>= λ v. read_bytes (pos 15) >>= λ r. counts))
          (s.version ∷ (s.reserved ++ from_isgmtcnt s)) refl
          (Reads-skip 1 (s.version ∷ []) (λ v. read_bytes (pos 15) >>= λ r. counts)
            (s.reserved ++ from_isgmtcnt s) refl
            (Reads-skip 15 s.reserved (λ r. counts) (from_isgmtcnt s) res
              (Reads-count s.isgmtcnt
                (λ g. read_int32 host >>= λ s. read_int32 host >>= λ l. counts₁) (from_isstdcnt s) a
                (Reads-count s.isstdcnt (λ s. read_int32 host >>= λ l. counts₁) (from_leapcnt s) b
                  (Reads-count s.leapcnt (λ l. counts₁) from_timecnt c Reads-counts₁)))))

    -- The bytes of a time zone file, written for a zone whose transitions name local times of it and
    -- whose numbers fit their fields, 32 bits or a byte, are read as exactly that zone, whatever the
    -- fields that are skipped and whatever follows in the file.
    pub read_time_zone_file-file_bytes :
        (s : Skipped) (rest : List ℕ)
        → IsSkipped s
        → read_time_zone_file host (some (file_bytes s d ++ rest)) ≡ some d
    unfolding read_time_zone_file
    read_time_zone_file-file_bytes s rest h = ap (caught host) (Reads-read_file s h rest)
