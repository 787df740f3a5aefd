-- ===== src/Calendar.antt =====
-- What the program uses of Go's time package: instants, the calendar date of an instant in a location,
-- and `AddDate`. Years are counted from the package's own year zero, -292277022399, so that a second
-- is a native number; the zone of a location comes from the time zone database.
pub mod Day
pub mod Steps
use openmeeting_server.Base.{
  ℕ, ◌+◌, ◌-◌, ◌*◌, ◌/◌, ◌%◌, ◌^◌, Bool, ◌&&◌, ◌||◌, not, ltb, if◌then◌else◌,
}
use openmeeting_server.Base.Int.{
  ℤ, pos, pos_part, neg_part, ◌+ℤ◌, ◌-ℤ◌, ltb_ℤ, eqb_ℤ, int64, negsuc,
}
use Day.{days_before_year, days_before_month, year_of, month_of, day_of_month}

-- `time.Time`: seconds since the year 1 as an int64, and nanoseconds.
pub record Time : Type 0 where
  pub sec : ℤ
  pub nsec : ℕ

-- The offset from UTC that holds at a moment, and the moments between which it holds.
pub record Span : Type 0 where
  pub offset : ℤ
  pub start : ℤ
  pub finish : ℤ

-- `Location.lookup`
abbrev pub Location : Type 0
Location = ℤ → Span

abbrev pub unix_to_internal : ℤ
unix_to_internal = pos 62135596800

-- `Time.Add`: the parts of a duration in nanoseconds are cut towards zero.
unfoldable pub add_duration : Time → ℤ → Time
unfolding int64 ◌+ℤ◌ ◌-ℤ◌
add_duration t (pos d) =
    let nsec = t.nsec + d % 1000000000 in
    record {
      sec = int64 (int64 (t.sec +ℤ pos (d / 1000000000)) +ℤ pos (nsec / 1000000000));
      nsec = nsec % 1000000000;
    }
add_duration t (negsuc d) =
    let whole = int64 (t.sec -ℤ pos ((d + 1) / 1000000000)) in
    let rest = (d + 1) % 1000000000 in
    if ltb t.nsec rest
    then record { sec = int64 (whole -ℤ pos 1); nsec = t.nsec + 1000000000 - rest }
    else record { sec = whole; nsec = t.nsec - rest }

-- From seconds since 1970 to seconds since the year zero.
abbrev pub unix_to_absolute : ℤ
unix_to_absolute = pos 9223372028715321600

unfoldable pub uint64 : ℤ → ℕ
uint64 a = (pos_part a + 2 ^ 64 - neg_part a % 2 ^ 64) % 2 ^ 64

-- `time.Unix(sec, nsec)`, and `Time.Unix`
unfoldable pub from_unix : ℤ → ℕ → Time
unfolding int64 ◌+ℤ◌
from_unix sec nsec = record { sec = int64 (sec +ℤ unix_to_internal); nsec = nsec }

unfoldable pub unix : Time → ℤ
unfolding int64 ◌-ℤ◌
unix t = int64 (t.sec -ℤ unix_to_internal)

-- The zero `time.Time`
abbrev pub zero_time : Time
zero_time = record { sec = pos 0; nsec = 0 }

unfoldable pub before : Time → Time → Bool
before t u = ltb_ℤ t.sec u.sec || eqb_ℤ t.sec u.sec && ltb t.nsec u.nsec

unfoldable pub after : Time → Time → Bool
unfolding before
after t u = before u t

-- Seconds since the year zero on the clocks of the location.
unfoldable pub abs : Location → Time → ℕ
unfolding unix uint64 ◌+ℤ◌
abs loc t = let u = unix t in uint64 (u +ℤ (loc u).offset +ℤ unix_to_absolute)

-- `Time.Weekday`: the year zero began on a Monday, and Sunday is 0.
unfoldable pub weekday : Location → Time → ℕ
unfolding abs
weekday loc t = (abs loc t + 86400) % 604800 / 86400

-- `Time.Day`
unfoldable pub day : Location → Time → ℕ
unfolding abs
day loc t = day_of_month (abs loc t / 86400)

-- The end of `time.Date`: from local seconds to an instant. The offset at the local seconds read as
-- UTC is tried first, and looked up again if it does not hold at the instant found.
unfoldable pub in_location : Location → ℤ → ℕ → Time
unfolding from_unix ◌-ℤ◌
in_location loc local nsec =
    let first = loc local in
    let utc = local -ℤ first.offset in
    if eqb_ℤ first.offset (pos 0)
    then from_unix local nsec
    else if ltb_ℤ utc first.start || not (ltb_ℤ utc first.finish)
    then from_unix (local -ℤ (loc utc).offset) nsec
    else from_unix utc nsec

-- `time.Date` for the date of the local second `s`, some months and days later, at the same time of day.
unfoldable pub local_after : ℕ → ℤ → ℤ → ℕ
unfolding uint64 ◌+ℤ◌
local_after s months days =
    let d = s / 86400 in
    let total = pos_part (pos (12 * year_of d + month_of d) +ℤ months) in
    let first = days_before_year (total / 12) + days_before_month (total / 12) (total % 12) in
    let n = pos (first + (day_of_month d - 1)) +ℤ days in
    uint64 (pos (uint64 n * 86400 + s % 86400))

-- `Time.AddDate(0, months, days)`
unfoldable pub add_date : Location → Time → ℤ → ℤ → Time
unfolding abs int64 local_after in_location ◌-ℤ◌
add_date loc t months days =
    let local = pos (local_after (abs loc t) months days) in
    in_location loc (int64 (local -ℤ unix_to_absolute)) t.nsec
