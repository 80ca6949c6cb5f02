-- ===== src/Proxy/Binary/Dates.antt =====
-- src/proxy/pg_binary.rs: dates, times, timestamps and intervals.
pub mod Civil
use pg_retest.Prelude.{
  ℕ, zero, suc, ◌+◌, ◌-◌, ◌*◌, ◌/◌, ◌%◌, ◌^◌, Bool, true, false, ◌&&◌, Option, none, some, List, [],
  ◌∷◌, ◌++◌, ltb, leb, ◌==◌, if◌then◌else◌, length, codes, ℤ, pos, negsuc, signed, unsigned_abs,
  is_negative, negate, add_nat, trunc_div, div_euclid, rem_euclid, scale,
}
use mathlib.Core.Option
use pg_retest.Text.{join}
use pg_retest.Text.Decimal.{padded, signed_decimal, signed_padded}
use pg_retest.Proxy.Binary.Scalars.{from_be_bytes, i32_from, i64_from, at}

-- The day of the era, of 400 years: `z - era * 146_097`, which is no less than 0.
abbrev pub day_of_era : ℤ → ℕ
day_of_era z = rem_euclid z 146097

abbrev pub era : ℤ → ℤ
era (pos n) = trunc_div (pos n) 146097
era (negsuc n) = trunc_div (negsuc (n + 146096)) 146097

abbrev pub year_of_era : ℕ → ℕ
year_of_era doe = (doe - doe / 1460 + doe / 36524 - doe / 146096) / 365

abbrev pub day_of_year : ℕ → ℕ
day_of_year doe = let yoe = year_of_era doe in doe - (365 * yoe + yoe / 4 - yoe / 100)

-- The month and the day of a day of the year, which begins in March.
abbrev pub month_shift : ℕ → ℕ
month_shift doy = (5 * doy + 2) / 153

abbrev pub day_of : ℕ → ℕ
day_of doy = doy - (153 * month_shift doy + 2) / 5 + 1

abbrev pub month_of : ℕ → ℕ
month_of mp = if ltb mp 10 then mp + 3 else mp - 9

unfoldable pub civil_from_days : ℤ → ℤ × ℕ × ℕ
civil_from_days z =
    let doe = day_of_era z in
    let doy = day_of_year doe in
    let m = month_of (month_shift doy) in
    let y = add_nat (scale (era z) 400) (year_of_era doe) in
    ((if leb m 2 then add_nat y 1 else y), m, day_of doy)

unfoldable pub format_pg_date : ℤ → List ℕ
unfolding civil_from_days
format_pg_date days =
    let (y, m, d) = civil_from_days (add_nat days 730425) in
    signed_padded 4 y ++ b'-' ∷ (padded 2 m ++ b'-' ∷ padded 2 d)

abbrev pub clock : ℕ → ℕ → ℕ → ℕ → List ℕ
clock h m s us =
    padded 2 h
    ++ b':' ∷ (padded 2 m ++ b':' ∷ (padded 2 s ++ (if us == 0 then [] else b'.' ∷ padded 6 us)))

unfoldable pub format_pg_time : ℤ → Option (List ℕ)
format_pg_time (negsuc n) = none
format_pg_time (pos micros) =
    let total_s = micros / 1000000 in
    let total_m = total_s / 60 in
    if ltb micros 86400000000
    then some (clock (total_m / 60) (total_m % 60) (total_s % 60) (micros % 1000000))
    else none

-- `days as i32` cuts the number of days to 32 bits.
abbrev pub as_i32 : ℤ → ℤ
as_i32 z = signed (2 ^ 31) (rem_euclid z (2 ^ 32))

unfoldable pub format_pg_timestamp : ℤ → Bool → Option (List ℕ)
unfolding format_pg_date format_pg_time
format_pg_timestamp micros utc =
    let date = format_pg_date (as_i32 (div_euclid micros 86400000000)) in
    Option.map (λ time. date ++ b' ' ∷ (time ++ (if utc then codes "+00" else [])))
      (format_pg_time (pos (rem_euclid micros 86400000000)))

abbrev part : ℤ → List ℕ → List (List ℕ) → List (List ℕ)
part (pos zero) unit parts = parts
part z unit parts = (signed_decimal z ++ unit) ∷ parts

-- The time of an interval, whose hours have no limit.
abbrev interval_time : ℤ → List ℕ
interval_time micros =
    let total_s = unsigned_abs micros / 1000000 in
    (if is_negative micros then b'-' ∷ [] else [])
    ++ clock (total_s / 3600) (total_s % 3600 / 60) (total_s % 60) (unsigned_abs micros % 1000000)

abbrev interval_text : ℤ → ℤ → ℤ → List ℕ
interval_text (pos zero) (pos zero) (pos zero) = codes "0"
interval_text months days micros =
    join (codes " ")
      (part months (codes " mons") (part days (codes " days") (interval_time micros ∷ [])))

unfoldable pub decode_interval : List ℕ → Option (List ℕ)
unfolding from_be_bytes padded signed_decimal
decode_interval bytes =
    if length bytes == 16
    then some (
        interval_text (i32_from (at 12 4 bytes)) (i32_from (at 8 4 bytes))
          (i64_from (at 0 8 bytes)))
    else none

-- The offset behind a time. `-offset` of the least `i32` is itself, and its amount is 2^31.
abbrev offset_text : ℤ → List ℕ
offset_text west =
    let abs = unsigned_abs west in
    let sign =
      if ltb 0 abs && (if is_negative west then abs == 2 ^ 31 else true) then b'-' else b'+' in
    sign
    ∷ (padded 2 (abs / 3600)
        ++ (if abs % 3600 / 60 == 0 then [] else b':' ∷ padded 2 (abs % 3600 / 60)))

unfoldable pub decode_timetz : List ℕ → Option (List ℕ)
unfolding format_pg_time from_be_bytes
decode_timetz bytes =
    if length bytes == 12
    then Option.map (λ time. time ++ offset_text (i32_from (at 8 4 bytes)))
        (format_pg_time (i64_from (at 0 8 bytes)))
    else none
