-- ===== src/TimeZone/Zone.antt =====
-- The transitions of a zone, `findLocaltime`, and the way between local time and seconds. `gmtime_r` and
-- `timegm` are the C library's.
use muduo.Base.{
  Bool, true, false, not, ◌&&◌, ℕ, suc, ◌-◌, Option, none, some, List, [], ◌∷◌, length, drop,
  get_elem?, ltb, leb, ◌^◌, ◌==◌, if◌then◌else◌, ◌>>=◌, ◌>>◌, assert, ◌≡◌,
}
use muduo.Base.Int.{ℤ, pos, pos_part, neg_part, ◌+ℤ◌, ◌-ℤ◌, ltb_ℤ, int_eq}
use muduo.TimeZone.{Tm, zero_tm}

pub record Transition : Type 0 where
  pub gmttime : ℤ
  pub localtime : ℤ
  pub localtime_idx : ℕ

pub record Localtime : Type 0 where
  pub gmt_offset : ℤ
  pub is_dst : Bool
  pub arrb_idx : ℕ

-- `TimeZone::Data`, whose `names` nothing uses.
pub record Data : Type 0 where
  pub transitions : List Transition
  pub localtimes : List Localtime
  pub abbreviation : List ℕ

-- `Comp`: by the time in GMT, or by the local time.
abbrev pub key : Bool → Transition → ℤ
key true t = t.gmttime
key false t = t.localtime

abbrev pub comp : Bool → Transition → Transition → Bool
comp compare_gmt lhs rhs = ltb_ℤ (key compare_gmt lhs) (key compare_gmt rhs)

abbrev pub comp_equal : Bool → Transition → Transition → Bool
comp_equal compare_gmt lhs rhs = int_eq (key compare_gmt lhs) (key compare_gmt rhs)

-- `std::lower_bound`: the first element that is not before the value, in a range that is ordered.
unfoldable pub lower_bound : Bool → Transition → List Transition → ℕ
lower_bound compare_gmt sentry [] = 0
lower_bound compare_gmt sentry (t ∷ ts) =
    let rest = lower_bound compare_gmt sentry ts in
    if comp compare_gmt t sentry then suc rest else 0

abbrev pub starts_later : Bool → Transition → List Transition → Bool
starts_later compare_gmt sentry [] = true
starts_later compare_gmt sentry (t ∷ ts) = comp compare_gmt sentry t

-- The transition that the `else` branch of `findLocaltime` uses.
unfoldable pub transition_at : Bool → Transition → List Transition → Option Transition
unfolding lower_bound
transition_at compare_gmt sentry ts =
    let i = lower_bound compare_gmt sentry ts in
    elim (get_elem? ts i) [
      | some t ↦
          (if comp_equal compare_gmt sentry t
            then some t
            else (do assert (ltb 0 i); get_elem? ts (i - 1)))
      | none ↦ get_elem? ts (length ts - 1)
    ]

-- `none` is an access outside a vector, or a failed assertion.
unfoldable pub find_localtime : Data → Transition → Bool → Option Localtime
unfolding transition_at
find_localtime data_ sentry compare_gmt =
    if starts_later compare_gmt sentry data_.transitions then get_elem? data_.localtimes 0 else (do
      t ← transition_at compare_gmt sentry data_.transitions
      get_elem? data_.localtimes t.localtime_idx)

-- The numbers of a 64-bit `time_t`.
abbrev pub is_time : ℤ → Bool
is_time z = ltb (pos_part z) (2 ^ 63) && leb (neg_part z) (2 ^ 63)

-- The C library's conversions between seconds and dates in UTC, and what the standard leaves open of a
-- vector. `gmtime_r` is what the call leaves in a zeroed `struct tm`, and `has_date` tells whether it succeeds,
-- which it does not (EOVERFLOW) where the year is not one of an `int`. `timegm` is documented to take the
-- date and the time of day only, and to undo a `gmtime_r` that succeeds. `null_front` tells whether
-- `&front()` of an empty vector is null, as it is with libstdc++ where the vector has no storage.
pub record Libc : Type 0 where
  pub gmtime_r : ℤ → Tm
  pub has_date : ℤ → Bool
  pub timegm : Tm → ℤ
  pub timegm-gmtime_r :
      (seconds : ℤ) (is_dst : Bool) (gmtoff : ℤ) (zone : List ℕ)
      → has_date seconds ≡ true
      → timegm (record (gmtime_r seconds) { tm_isdst = is_dst; tm_gmtoff = gmtoff; tm_zone = zone })
        ≡ seconds
  pub null_front : Bool

-- `TimeZone(int, const char*)`
abbrev pub fixed_zone : ℤ → List ℕ → Data
fixed_zone east_of_utc name = record {
  transitions = [];
  localtimes = record { gmt_offset = east_of_utc; is_dst = false; arrb_idx = 0 } ∷ [];
  abbreviation = name;
}

-- `findLocaltime` has stored a null pointer: the vector of local times is empty.
abbrev pub takes_null : Bool → List Localtime → Bool → Bool
takes_null null_front [] later = null_front && later
takes_null null_front (l ∷ ls) later = false

module _ (libc : Libc) where
  open libc use {gmtime_r, timegm, null_front}

  -- What is done `if (local)`. An index that is the size of the string is at its end.
  abbrev pub local_fields : Data → ℤ → Localtime → Option Tm
  local_fields data_ seconds local = do
    assert (is_time (seconds +ℤ local.gmt_offset))
    assert (leb local.arrb_idx (length data_.abbreviation))
    some (record (gmtime_r (seconds +ℤ local.gmt_offset)) {
      tm_isdst = local.is_dst;
      tm_gmtoff = local.gmt_offset;
      tm_zone = drop local.arrb_idx data_.abbreviation;
    })

  unfoldable pub to_local_time : Data → ℤ → Option Tm
  unfolding find_localtime
  to_local_time data_ seconds =
      let sentry : Transition = record {
        gmttime = seconds;
        localtime = pos 0;
        localtime_idx = 0;
      } in
      if takes_null null_front data_.localtimes (starts_later true sentry data_.transitions)
      then some zero_tm
      else (do local ← find_localtime data_ sentry true; local_fields data_ seconds local)

  -- The seconds that are taken off where a clock shows an hour twice.
  abbrev pub repeated_hour : Data → Tm → ℤ → Localtime → Option ℤ
  repeated_hour data_ local_tm seconds local =
      if local_tm.tm_isdst
      then (do
        assert (is_time (seconds -ℤ local.gmt_offset))
        try_tm ← to_local_time data_ (seconds -ℤ local.gmt_offset)
        (if not try_tm.tm_isdst
              && (try_tm.tm_hour == local_tm.tm_hour && try_tm.tm_min == local_tm.tm_min)
            then (do assert (is_time (seconds -ℤ pos 3600)); some (seconds -ℤ pos 3600))
            else some seconds))
      else some seconds

  -- A null pointer is dereferenced without a test.
  unfoldable pub from_local_time : Data → Tm → Option ℤ
  unfolding find_localtime to_local_time
  from_local_time data_ local_tm = do
    let seconds = timegm local_tm
    local ←
        find_localtime data_ (record { gmttime = pos 0; localtime = seconds; localtime_idx = 0 })
          false
    seconds' ← repeated_hour data_ local_tm seconds local
    assert (is_time (seconds' -ℤ local.gmt_offset))
    some (seconds' -ℤ local.gmt_offset)
