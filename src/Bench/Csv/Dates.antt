-- ===== src/Bench/Csv/Dates.antt =====
-- The date of a day, against a calendar that counts the days of the years and months before a date.
use masters_sibren_wieme.Prelude.{
  ℕ, zero, suc, ◌≡◌, refl, ◌≤◌, ◌<◌, ◌+◌, ◌-◌, ◌*◌, ◌/◌, ◌%◌, Bool, true, false, ◌&&◌, ◌||◌, not,
  if◌then◌else◌, ltb, ◌==◌, arith, subst, sym,
}
use masters_sibren_wieme.Bench.Csv.{epoch_days_to_ymd}

abbrev pub is_leap : ℕ → Bool
is_leap y = (y % 4 == 0) && (not (y % 100 == 0) || (y % 400 == 0))

abbrev pub leap_day : ℕ → ℕ
leap_day y = if is_leap y then 1 else 0

abbrev pub days_in_month : ℕ → ℕ → ℕ
days_in_month y m =
    if m == 2
    then 28 + leap_day y
    else if (m == 4) || (m == 6) || (m == 9) || (m == 11)
    then 30
    else 31

-- The days of the first months of a year.
abbrev pub days_of_months : ℕ → ℕ → ℕ
days_of_months y zero = 0
days_of_months y (suc m) = days_of_months y m + days_in_month y (suc m)

-- Of the years from 1 on.
abbrev pub days_before_year : ℕ → ℕ
days_before_year y = 365 * (y - 1) + (y - 1) / 4 - (y - 1) / 100 + (y - 1) / 400

abbrev pub day_number : ℕ × ℕ × ℕ → ℕ
day_number (y, m, d) = days_before_year y + days_of_months y (m - 1) + d

abbrev pub IsDate : ℕ × ℕ × ℕ → Type 0
IsDate (y, m, d) = (1 ≤ m) × (m ≤ 12) × (1 ≤ d) × (d ≤ days_in_month y m)

leap_day-split :
    (y : ℕ) → 0 < y → days_before_year y + leap_day y ≡ 365 * (y - 1) + y / 4 - y / 100 + y / 400
leap_day-split y h = ground arith

leap_day-small : (y : ℕ) → leap_day y ≤ 1
leap_day-small y = ground arith

year_start :
    (doe yoe : ℕ)
    → doe < 146097
    → yoe ≡ (doe - doe / 1460 + doe / 36524 - doe / 146096) / 365
    → (365 * yoe + yoe / 4 - yoe / 100 ≤ doe)
      × (yoe < 400)
      × (doe < 365 * (yoe + 1) + (yoe + 1) / 4 - (yoe + 1) / 100 + (yoe + 1) / 400)
year_start doe yoe h e = (omega arith, omega arith, omega arith)

-- The month and the year of a day in month `mp` of a year that begins in March of `y`; `early` says that
-- the month is before January.
abbrev month_of : Bool → ℕ → ℕ
month_of early mp = if early then mp + 3 else mp - 9

abbrev year_of : Bool → ℕ → ℕ
year_of early y = if early then y else y + 1

abbrev day_of : ℕ → ℕ → ℕ
day_of mp doy = doy - (153 * mp + 2) / 5 + 1

abbrev InMonth : Bool → ℕ → ℕ → ℕ → Type 0
InMonth early y mp doy =
    IsDate (year_of early y, month_of early mp, day_of mp doy)
    × (days_of_months (year_of early y) (month_of early mp - 1)
          + day_of mp doy
          + (if early then 0 else 365 + leap_day y)
        ≡ doy + 60 + leap_day y)

in_month :
    (y mp doy : ℕ)
    → 153 * mp ≤ 5 * doy + 2
    → 5 * doy + 2 < 153 * (mp + 1)
    → doy ≤ 364 + leap_day (y + 1)
    → InMonth (ltb mp 10) y mp doy
in_month y zero doy low high last =
    ((omega arith, omega arith, omega arith, omega arith), omega arith)
in_month y (suc zero) doy low high last =
    ((omega arith, omega arith, omega arith, omega arith), omega arith)
in_month y (suc (suc zero)) doy low high last =
    ((omega arith, omega arith, omega arith, omega arith), omega arith)
in_month y (suc (suc (suc zero))) doy low high last =
    ((omega arith, omega arith, omega arith, omega arith), omega arith)
in_month y (suc (suc (suc (suc zero)))) doy low high last =
    ((omega arith, omega arith, omega arith, omega arith), omega arith)
in_month y (suc (suc (suc (suc (suc zero))))) doy low high last =
    ((omega arith, omega arith, omega arith, omega arith), omega arith)
in_month y (suc (suc (suc (suc (suc (suc zero)))))) doy low high last =
    ((omega arith, omega arith, omega arith, omega arith), omega arith)
in_month y (suc (suc (suc (suc (suc (suc (suc zero))))))) doy low high last =
    ((omega arith, omega arith, omega arith, omega arith), omega arith)
in_month y (suc (suc (suc (suc (suc (suc (suc (suc zero)))))))) doy low high last =
    ((omega arith, omega arith, omega arith, omega arith), omega arith)
in_month y (suc (suc (suc (suc (suc (suc (suc (suc (suc zero))))))))) doy low high last =
    ((omega arith, omega arith, omega arith, omega arith), omega arith)
in_month y (suc (suc (suc (suc (suc (suc (suc (suc (suc (suc zero)))))))))) doy low high last =
    ((omega arith, omega arith, omega arith, omega arith), omega arith)
in_month y (suc (suc (suc (suc (suc (suc (suc (suc (suc (suc (suc zero))))))))))) doy low high
      last =
    ((omega arith, omega arith, omega arith, omega arith), omega arith)
in_month y (suc (suc (suc (suc (suc (suc (suc (suc (suc (suc (suc (suc n)))))))))))) doy low high
      last =
    absurd (omega (arith, leap_day-small (y + 1), low, last))

number_early :
    (era yoe doy total leap before : ℕ)
    → 0 < yoe + era * 400
    → yoe < 400
    → before + leap
      ≡ 365 * (yoe + era * 400 - 1)
        + (yoe + era * 400) / 4
        - (yoe + era * 400) / 100
        + (yoe + era * 400) / 400
    → total ≡ doy + 60 + leap
    → before + total + 305 ≡ 146097 * era + (365 * yoe + yoe / 4 - yoe / 100) + doy
number_early era yoe doy total leap before after bound split counted = omega arith

last_day :
    (era doe yoe : ℕ)
    → 365 * yoe + yoe / 4 - yoe / 100 ≤ doe
    → yoe < 400
    → doe < 365 * (yoe + 1) + (yoe + 1) / 4 - (yoe + 1) / 100 + (yoe + 1) / 400
    → doe - (365 * yoe + yoe / 4 - yoe / 100) ≤ 364 + leap_day (yoe + era * 400 + 1)
last_day era doe yoe begun bound ended = ground arith

number_shift : (days n : ℕ) → n + 305 ≡ days + 719468 → n ≡ days + day_number (1970, 1, 1)
number_shift days n h = omega arith

-- The number of a day of year `yoe` of an era, by the number of its month's days.
number_if :
    (early : Bool) (era yoe doy sum d : ℕ)
    → 0 < yoe + era * 400
    → yoe < 400
    → sum + d + (if early then 0 else 365 + leap_day (yoe + era * 400))
      ≡ doy + 60 + leap_day (yoe + era * 400)
    → days_before_year (year_of early (yoe + era * 400)) + sum + d + 305
      ≡ 146097 * era + (365 * yoe + yoe / 4 - yoe / 100) + doy
number_if true era yoe doy sum d after bound total =
    let y = yoe + era * 400 in
    let split = leap_day-split y after in
    omega (
      arith,
      number_early era yoe doy (sum + d) (leap_day y) (days_before_year y) after bound split
          (omega (arith, total)),
    )
number_if false era yoe doy sum d after bound total = omega arith

abbrev of_year : ℕ → ℕ → ℕ → ℕ × ℕ × ℕ
of_year era yoe doy =
    let y = yoe + era * 400 in
    let mp = (5 * doy + 2) / 153 in
    let m = month_of (ltb mp 10) mp in ((if ltb 2 m then y else y + 1), m, day_of mp doy)

year_of-month :
    (y mp : ℕ)
    → mp ≤ 11
    → (if ltb 2 (month_of (ltb mp 10) mp) then y else y + 1) ≡ year_of (ltb mp 10) y
year_of-month y mp h = ground arith

of_year-IsDate :
    (era yoe doy : ℕ)
    → 0 < yoe + era * 400
    → yoe < 400
    → doy ≤ 364 + leap_day (yoe + era * 400 + 1)
    → IsDate (of_year era yoe doy)
      × (day_number (of_year era yoe doy) + 305
          ≡ 146097 * era + (365 * yoe + yoe / 4 - yoe / 100) + doy)
of_year-IsDate era yoe doy after bound last =
    let y = yoe + era * 400 in
    let mp = (5 * doy + 2) / 153 in
    let got = in_month y mp doy (omega arith) (omega arith) last in
    let top : mp ≤ 11 = omega (arith, last, leap_day-small (y + 1)) in
    subst
      (λ year.
        IsDate (year, month_of (ltb mp 10) mp, day_of mp doy)
        × (day_number (year, month_of (ltb mp 10) mp, day_of mp doy) + 305
            ≡ 146097 * era + (365 * yoe + yoe / 4 - yoe / 100) + doy))
      (sym (year_of-month y mp top))
      (
        got.0,
        number_if (ltb mp 10) era yoe doy
            (days_of_months (year_of (ltb mp 10) y) (month_of (ltb mp 10) mp - 1)) (day_of mp doy)
            after bound got.1,
      )

-- The date of each day from 1970-01-01 on is a date of the calendar, and the one that stands as many
-- days after the first day of the year 1 as that day does.
pub epoch_days_to_ymd-IsDate :
    (days : ℕ)
    → IsDate (epoch_days_to_ymd days)
      × (day_number (epoch_days_to_ymd days) ≡ days + day_number (1970, 1, 1))
unfolding epoch_days_to_ymd
epoch_days_to_ymd-IsDate days =
    let z = days + 719468 in
    let era = z / 146097 in
    let doe = z - era * 146097 in
    let yoe = (doe - doe / 1460 + doe / 36524 - doe / 146096) / 365 in
    let doy = doe - (365 * yoe + yoe / 4 - yoe / 100) in
    let begun = year_start doe yoe (omega arith) refl in
    let last : doy ≤ 364 + leap_day (yoe + era * 400 + 1) =
      last_day era doe yoe begun.0 begun.1 begun.2 in
    let got = of_year-IsDate era yoe doy (omega arith) begun.1 last in
    (got.0, number_shift days (day_number (of_year era yoe doy)) (omega (arith, got.1, begun.0)))
