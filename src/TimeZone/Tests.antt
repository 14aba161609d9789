-- ===== src/TimeZone/Tests.antt =====
-- Times and zones.
use muduo.Base.{
  true, false, none, some, [], ◌∷◌, ◌++◌, replicate, ◌^◌, ltb, ◌>>=◌, ◌≡◌, refl, arith,
}
use muduo.Base.Int.{pos, negsuc, pos_part, ◌+ℤ◌, ◌-ℤ◌, rem, quot}
use muduo.Date.{
  julian_day, largest_sum, calendar_day, get_julian_day_number, get_year_month_day, date_of,
  year_month_day, week_day,
}
use muduo.Buffer.Tests.{big_endian}
use muduo.TimeZone.{
  zero_tm, fill_hms, to_utc_time, from_utc_time, utc_of, day_of, k_julian_day_of_1970_01_01,
}
use muduo.TimeZone.Utc.{from_utc_time-to_utc_time}
use muduo.TimeZone.Zone.{Transition, Data, Libc, find_localtime, to_local_time, from_local_time}
use muduo.TimeZone.Find.{localtime_at, find_localtime-localtime_at}
use muduo.TimeZone.Local.{from_local_time-to_local_time}
use muduo.TimeZone.File.{read_time_zone_file}
use muduo.TimeZone.File.Encode.{Skipped, file_bytes, IsZone}
use muduo.TimeZone.File.RoundTrip.{read_time_zone_file-file_bytes}
use muduo.TimeZone.File.Missing.{to_local_time-read_time_zone_file}

before_the_epoch :
    to_utc_time (negsuc 0) true
    ≡ some (record {
      tm_sec = 59;
      tm_min = 59;
      tm_hour = 23;
      tm_mday = 31;
      tm_mon = 11;
      tm_year = pos 69;
      tm_wday = 3;
      tm_yday = 364;
      tm_isdst = false;
      tm_gmtoff = pos 0;
      tm_zone = b'G' ∷ b'M' ∷ b'T' ∷ [];
    })
unfolding to_utc_time utc_of day_of date_of year_month_day week_day fill_hms
    k_julian_day_of_1970_01_01 julian_day largest_sum calendar_day get_julian_day_number
    get_year_month_day rem quot ◌+ℤ◌ ◌-ℤ◌
before_the_epoch = refl

from_utc_time-to_utc_time_example :
    (to_utc_time (negsuc 86400) true >>= from_utc_time) ≡ some (negsuc 86400)
from_utc_time-to_utc_time_example =
    from_utc_time-to_utc_time (negsuc 86400) true (omega arith) (omega arith)

-- A library that keeps the seconds in one field.
abbrev libc : Libc
libc = record {
  gmtime_r = λ seconds. record zero_tm { tm_year = seconds };
  has_date = λ seconds. ltb (pos_part seconds) (2 ^ 50);
  timegm = λ tm. tm.tm_year;
  timegm-gmtime_r = λ seconds is_dst gmtoff zone has. refl;
  null_front = true;
}

-- One hour ahead, and two hours from second 1000 on.
abbrev zone : Data
zone = record {
  transitions =
      record { gmttime = pos 1000; localtime = pos 8200; localtime_idx = 1 }
      ∷ record { gmttime = pos 9000; localtime = pos 12600; localtime_idx = 0 }
      ∷ [];
  localtimes =
      record { gmt_offset = pos 3600; is_dst = false; arrb_idx = 0 }
      ∷ record { gmt_offset = pos 7200; is_dst = true; arrb_idx = 4 }
      ∷ [];
  abbreviation = b'C' ∷ b'E' ∷ b'T' ∷ 0 ∷ b'C' ∷ b'S' ∷ b'T' ∷ 0 ∷ [];
}

abbrev at_5000 : Transition
at_5000 = record { gmttime = pos 5000; localtime = pos 0; localtime_idx = 0 }

find_localtime-localtime_at_example :
    find_localtime zone at_5000 true ≡ localtime_at zone at_5000 true
find_localtime-localtime_at_example = find_localtime-localtime_at zone at_5000 true (omega arith)

from_local_time-to_local_time_example :
    (to_local_time libc zone (pos 20000) >>= from_local_time libc zone) ≡ some (pos 20000)
unfolding ◌+ℤ◌
from_local_time-to_local_time_example =
    from_local_time-to_local_time libc zone (pos 20000)
      (record { gmt_offset = pos 3600; is_dst = false; arrb_idx = 0 }) (omega arith) (omega arith)
      refl refl refl refl refl refl (omega arith)

zone-IsZone : IsZone zone
unfolding ◌+ℤ◌
zone-IsZone = record {
  transitions =
      (_, refl, refl, omega arith, omega arith, (_, refl, refl, omega arith, omega arith, tt));
  localtimes = (omega arith, omega arith, (omega arith, omega arith, tt));
  timecnt = omega arith;
  typecnt = omega arith;
  charcnt = omega arith;
}

abbrev skipped : Skipped
skipped = record {
  version = b'2';
  reserved = replicate 15 0;
  isgmtcnt = pos 2;
  isstdcnt = pos 2;
  leapcnt = pos 0;
}

read_time_zone_file-file_bytes_example :
    read_time_zone_file big_endian (some (file_bytes skipped zone ++ 0 ∷ [])) ≡ some zone
read_time_zone_file-file_bytes_example =
    read_time_zone_file-file_bytes big_endian zone zone-IsZone skipped (0 ∷ [])
      (refl, omega arith, omega arith, omega arith)

to_local_time-read_time_zone_file_example :
    (d : Data) × (read_time_zone_file big_endian none ≡ some d)
    × (to_local_time libc d (pos 20000) ≡ some zero_tm)
    × (from_local_time libc d zero_tm ≡ none)
to_local_time-read_time_zone_file_example =
    to_local_time-read_time_zone_file big_endian libc none (pos 20000) zero_tm tt refl
