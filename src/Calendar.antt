-- ===== src/Calendar.antt =====
-- `strftime("%Y%m%d%H%M")` of an instant in UTC, given in seconds since 1970: the key of a minute,
-- as `minute_key` of redis-writer/writer.py, player/app.py and tracer/app.py make it.
use Prim.Native.String.{◌++◌ as str_append}
use ott_ad_pipeline.Base.{ℕ, ◌+◌, ◌-◌, ◌*◌, ◌/◌, ◌%◌, ◌≡◌, refl, ltb, leb, String, if◌then◌else◌}
use ott_ad_pipeline.Signing.{digits}

pub record Date : Type 0 where
  pub year : ℕ
  pub month : ℕ
  pub day : ℕ

-- The Gregorian date of a day since 1970, counted in eras of 400 years that begin in March.
unfoldable pub date_of_day : ℕ → Date
date_of_day days =
    let z = days + 719468 in
    let doe = z % 146097 in
    let yoe = (doe - doe / 1460 + doe / 36524 - doe / 146096) / 365 in
    let doy = doe - (365 * yoe + yoe / 4 - yoe / 100) in
    let mp = (5 * doy + 2) / 153 in
    let month = if ltb mp 10 then mp + 3 else mp - 9 in
    let year = yoe + z / 146097 * 400 in
    record {
      year = if leb month 2 then year + 1 else year;
      month = month;
      day = doy - (153 * mp + 2) / 5 + 1;
    }

-- Two digits.
unfoldable pub pad : ℕ → String
unfolding digits
pad n = if ltb n 10 then str_append "0" (digits 3 n) else digits 3 n

-- `%Y%m%d%H%M` of a minute since 1970.
unfoldable pub stamp_minute : ℕ → String
unfolding date_of_day pad digits
stamp_minute minutes =
    let date = date_of_day (minutes / 1440) in
    str_append (digits 5 date.year) (
      str_append (pad date.month)
        (str_append (pad date.day) (str_append (pad (minutes / 60 % 24)) (pad (minutes % 60)))))

-- The key of the minute of an instant in seconds.
unfoldable pub minute_stamp : ℕ → String
unfolding stamp_minute
minute_stamp seconds = stamp_minute (seconds / 60)

-- `minute_key` of the player and the tracer, for a time in milliseconds.
unfoldable pub minute_key_ms : ℕ → String
unfolding minute_stamp
minute_key_ms ms = minute_stamp (ms / 1000)

-- `%Y-%m-%d` and `%H` of a time in milliseconds.
unfoldable pub day_ms : ℕ → String
unfolding date_of_day pad digits
day_ms ms =
    let date = date_of_day (ms / 86400000) in
    str_append (digits 5 date.year)
      (str_append "-" (str_append (pad date.month) (str_append "-" (pad date.day))))

unfoldable pub hour_ms : ℕ → String
unfolding pad
hour_ms ms = pad (ms / 3600000 % 24)

day_example : day_ms 1789208520000 ≡ "2026-09-12"
unfolding day_ms
day_example = refl

hour_example : hour_ms 1789208520000 ≡ "10"
unfolding hour_ms
hour_example = refl

-- The example of the docstring: 2026-09-12T10:22:00Z.
docstring_example : minute_stamp 1789208520 ≡ "202609121022"
unfolding minute_stamp
docstring_example = refl
