-- ===== src/Proxy/Binary/Dates/Civil.antt =====
-- src/proxy/pg_binary.rs: the calendar. A day has one date, and the date gives the day back.
use pg_retest.Prelude.{
  ℕ, zero, suc, ◌+◌, ◌-◌, ◌*◌, ◌/◌, ◌%◌, ◌≤◌, ◌<◌, ◌≡◌, refl, ap, ◌∙◌, true, false, ltb, leb,
  if◌then◌else◌, Bool-cases, inl, inr, arith, ℤ, pos, negsuc, negate, add_nat, scale, div_euclid,
  rem_euclid, ◌==◌,
}
use pg_retest.Proxy.Binary.Dates.{
  era, year_of_era, day_of_year, month_shift, day_of, civil_from_days,
}

-- The days of an era before its year `yoe`.
abbrev pub days_before : ℕ → ℕ
days_before yoe = 365 * yoe + yoe / 4 - yoe / 100

year_bounds :
    (doe : ℕ)
    → doe < 146097
    → (days_before (year_of_era doe) ≤ doe) × (doe - days_before (year_of_era doe) ≤ 365)
year_bounds doe h = (omega (arith, h), omega (arith, h))

month_bounds :
    (doy : ℕ)
    → doy ≤ 365
    → (month_shift doy ≤ 11)
      × (1 ≤ day_of doy)
      × (day_of doy ≤ 31)
      × ((153 * month_shift doy + 2) / 5 + day_of doy - 1 ≡ doy)
month_bounds doy h = (omega (arith, h), omega (arith, h), omega (arith, h), omega (arith, h))

-- `y - 1`
abbrev pub previous : ℤ → ℤ
previous (pos n) = if n == 0 then negsuc 0 else pos (n - 1)
previous (negsuc n) = negsuc (n + 1)

-- The day of a date, counted from the first of March of the year 0: whole eras of 400 years, whole
-- years of the era, which begin in March, whole months, and days.
abbrev pub days_from_civil : ℤ → ℕ → ℕ → ℤ
days_from_civil y m d =
    let y' = if leb m 2 then previous y else y in
    let yoe = rem_euclid y' 400 in
    let mp = (m + 9) % 12 in
    add_nat (scale (div_euclid y' 400) 146097) (days_before yoe + (153 * mp + 2) / 5 + d - 1)

era-div_euclid : (z : ℤ) → era z ≡ div_euclid z 146097
era-div_euclid (pos n) = refl
era-div_euclid (negsuc n) =
    let e : (n + 146096 + 1) / 146097 ≡ suc (n / 146097) = omega arith in rw e refl

add_nat-negate : (x r : ℕ) → r < x → add_nat (negate (pos x)) r ≡ negsuc (x - 1 - r)
add_nat-negate zero r h = elim h [ ]
add_nat-negate (suc x) r h =
    let e : leb (x + 1) r ≡ false = ground (arith, h) in
    rw e (ap negsuc (let d : x - r ≡ suc x - 1 - r = omega arith in d))

-- An integer is its quotient and its remainder.
rejoin : (z : ℤ) → add_nat (scale (div_euclid z 146097) 146097) (rem_euclid z 146097) ≡ z
rejoin (pos n) = ap pos (omega arith)
rejoin (negsuc n) =
    add_nat-negate ((n / 146097 + 1) * 146097) (146096 - n % 146097) (omega arith)
    ∙ ap negsuc
        (let e : (n / 146097 + 1) * 146097 - 1 - (146096 - n % 146097) ≡ n = omega arith in e)

split_year :
    (e : ℤ) (r : ℕ)
    → r < 400
    → (div_euclid (add_nat (scale e 400) r) 400 ≡ e)
      × (rem_euclid (add_nat (scale e 400) r) 400 ≡ r)
split_year (pos n) r h =
    (ap pos (let e : (n * 400 + r) / 400 ≡ n = omega (arith, h) in e), omega (arith, h))
split_year (negsuc n) r h = rw (add_nat-negate ((n + 1) * 400) r (omega (arith, h))) (
  ap negsuc (let e : ((n + 1) * 400 - 1 - r) / 400 ≡ n = omega (arith, h) in e),
  omega (arith, h),
)

previous-add_nat : (y : ℤ) → previous (add_nat y 1) ≡ y
previous-add_nat (pos n) =
    let e : ((n + 1) == 0) ≡ false = ground arith in
    rw e (ap pos (let d : n + 1 - 1 ≡ n = omega arith in d))
previous-add_nat (negsuc zero) = refl
previous-add_nat (negsuc (suc n)) =
    let e : leb (suc n + 1) 1 ≡ false = ground arith in
    rw e (ap negsuc (let d : suc n - 1 + 1 ≡ suc n = omega arith in d))

era_bound : (z : ℤ) → rem_euclid z 146097 < 146097
era_bound (pos n) = omega arith
era_bound (negsuc n) = omega arith

-- The date of a day of an era.
module _ (z : ℤ) (doe : ℕ) (h : doe < 146097) where
  abbrev march_year : ℤ
  march_year = add_nat (scale (era z) 400) (year_of_era doe)

  recovered :
      (doy : ℕ)
      → doy ≡ day_of_year doe
      → add_nat (scale (div_euclid march_year 400) 146097) (
          days_before (rem_euclid march_year 400)
          + (153 * month_shift doy + 2) / 5
          + day_of doy
          - 1)
        ≡ add_nat (scale (div_euclid z 146097) 146097) doe
  recovered doy e =
      let (fits, short) = year_bounds doe h in
      let (mp, d, d', back) = month_bounds doy (omega (arith, e, short)) in
      let (q, r) = split_year (era z) (year_of_era doe) (omega (arith, h)) in
      let days : days_before (year_of_era doe) + (153 * month_shift doy + 2) / 5 + day_of doy - 1
          ≡ doe =
        omega (arith, fits, back, e, d) in
      rw (q, r, days, era-div_euclid z) refl

-- Every day has a date in a month from 1 to 12, on a day from 1 to 31, and the date gives the day back.
pub civil_from_days-days_from_civil :
    (z : ℤ)
    → (1 ≤ (civil_from_days z).1)
      × ((civil_from_days z).1 ≤ 12)
      × (1 ≤ (civil_from_days z).2)
      × ((civil_from_days z).2 ≤ 31)
      × (days_from_civil (civil_from_days z).0 (civil_from_days z).1 (civil_from_days z).2 ≡ z)
unfolding civil_from_days
civil_from_days-days_from_civil z =
    let doe = rem_euclid z 146097 in
    let h = era_bound z in
    let doy = day_of_year doe in
    let mp = month_shift doy in
    let (mb, d, d', back) = month_bounds doy (year_bounds doe h).1 in
    let whole = recovered z doe h doy refl ∙ rejoin z in
    let y = add_nat (scale (era z) 400) (year_of_era doe) in
    elim (Bool-cases (ltb mp 10)) [
      | inl spring ↦
          let late : leb (mp + 3) 2 ≡ false = ground arith in
          let m : (mp + 3 + 9) % 12 ≡ mp = ground (arith, spring) in
          rw (spring, late, m) (omega arith, ground (arith, spring), d, d', whole)
      | inr winter ↦
          let early : leb (mp - 9) 2 ≡ true = ground (arith, winter, mb) in
          let m : (mp - 9 + 9) % 12 ≡ mp = ground (arith, winter, mb) in
          rw (winter, early, previous-add_nat y, m)
            (ground (arith, winter), omega (arith, mb), d, d', whole)
    ]
