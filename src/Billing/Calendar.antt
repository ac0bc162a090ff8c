-- ===== src/Billing/Calendar.antt =====
-- `CalculateNextPeriod` of internal/billing/domain/service.go. A time is a date of the UTC calendar
-- and the nanosecond of its day; `AddDate` is that of Go, which counts the days that the month of
-- the result does not have on into the next one.
use fintech_ecosystem.Base.{
  ℕ, ◌+◌, ◌-◌, ◌%◌, ◌≤◌, ◌<◌, String, ◌≡◌, refl, inl, inr, Bool, false, not, ◌&&◌, ◌||◌, str_eq,
  ltb, leb, ◌==◌, Bool-cases, arith, if◌then◌else◌,
}

pub record Time : Type 0 where
  pub year : ℕ
  pub month : ℕ
  pub day : ℕ
  pub nanos : ℕ

unfoldable pub is_leap : ℕ → Bool
is_leap y = (y % 4 == 0) && (not (y % 100 == 0) || y % 400 == 0)

unfoldable pub month_days : ℕ → ℕ → ℕ
month_days y m =
    if m == 2
    then (if is_leap y then 29 else 28)
    else (if m == 4 || m == 6 || m == 9 || m == 11 then 30 else 31)

-- A month from 1 to 12 and a day of at least 1, which may lie past its end.
unfoldable pub normalize : Time → Time
normalize t =
    let most = month_days t.year t.month in
    if leb t.day most then t else record t { month = t.month + 1; day = t.day - most }

-- `AddDate(1, 0, 0)` and `AddDate(0, 1, 0)`
unfoldable pub add_year : Time → Time
add_year t = normalize (record t { year = t.year + 1 })

unfoldable pub add_month : Time → Time
add_month t = normalize (
    if t.month == 12
    then record t { year = t.year + 1; month = 1 }
    else record t { month = t.month + 1 })

-- `CalculateNextPeriod`
unfoldable pub calculate_next_period : Time → String → Time
calculate_next_period start interval =
    if str_eq interval "year" then add_year start else add_month start

-- `a` is not after `b`.
unfoldable pub not_after : Time → Time → Bool
not_after a b =
    if a.year == b.year
    then (if a.month == b.month
        then (if a.day == b.day then leb a.nanos b.nanos else ltb a.day b.day)
        else ltb a.month b.month)
    else ltb a.year b.year

-- A date of the calendar.
pub record IsDate (t : Time) : Type 0 where
  pub some_month : 1 ≤ t.month
  pub year_end : t.month ≤ 12
  pub some_day : 1 ≤ t.day
  pub month_end : t.day ≤ month_days t.year t.month

month_days-most : (y m : ℕ) → month_days y m ≤ 31
unfolding month_days
month_days-most y m = ground arith

month_days-least : (y m : ℕ) → 28 ≤ month_days y m
unfolding month_days
month_days-least y m = ground arith

month_days-short : (y m d : ℕ) → m ≤ 12 → d ≤ 31 → leb d (month_days y m) ≡ false → m < 12
unfolding month_days
month_days-short y m d hi most over = ground (arith, hi, most, over)

-- A month that lacks days is not December, and the days that it lacks are in the next one.
normalize-IsDate :
    (t : Time) → 1 ≤ t.month → t.month ≤ 12 → 1 ≤ t.day → t.day ≤ 31 → IsDate (normalize t)
unfolding normalize
normalize-IsDate t lo hi d0 d1 = elim (Bool-cases (leb t.day (month_days t.year t.month))) [
  | inl fits ↦
      rw fits
        (record { some_month = lo; year_end = hi; some_day = d0; month_end = ground (arith, fits) })
  | inr over ↦
      let short = month_days-short t.year t.month t.day hi d1 over in
      let least = month_days-least t.year t.month in
      let next = month_days-least t.year (t.month + 1) in
      rw over (record {
        some_month = omega arith;
        year_end = omega (arith, short);
        some_day = ground (arith, over);
        month_end = ground (arith, least, next, d1, over);
      })
]

-- A later month of the year, or a month of a later year, is later.
later_year : (t u : Time) → u.year < t.year → not_after (normalize t) u ≡ false
unfolding normalize not_after
later_year t u h = ground (arith, h)

later_month : (t u : Time) → u.year ≡ t.year → u.month < t.month → not_after (normalize t) u ≡ false
unfolding normalize not_after
later_month t u same h = ground (arith, same, h)

add_year_lem : (t : Time) → IsDate t → IsDate (add_year t) × (not_after (add_year t) t ≡ false)
unfolding add_year
add_year_lem t date =
    let next : Time = record t { year = t.year + 1 } in
    let most = month_days-most t.year t.month in
    (
      normalize-IsDate next date.some_month date.year_end date.some_day
          (omega (arith, most, date.month_end)),
      later_year next t (omega arith),
    )

add_month_lem : (t : Time) → IsDate t → IsDate (add_month t) × (not_after (add_month t) t ≡ false)
unfolding add_month
add_month_lem t date =
    let most : t.day ≤ 31 = omega (arith, month_days-most t.year t.month, date.month_end) in
    elim (Bool-cases (t.month == 12)) [
      | inl december ↦
          let next : Time = record t { year = t.year + 1; month = 1 } in
          rw december (
            normalize-IsDate next (omega arith) (omega arith) date.some_day most,
            later_year next t (omega arith),
          )
      | inr other ↦
          let next : Time = record t { month = t.month + 1 } in
          let before : t.month < 12 = ground (arith, other, date.year_end) in
          rw other (
            normalize-IsDate next (omega arith) (omega (arith, before)) date.some_day most,
            later_month next t refl (omega arith),
          )
    ]

-- The next period of a date is a date and lies behind it, whatever the interval of the plan says:
-- a renewed subscription is due later than it was.
pub next_period-IsDate :
    (t : Time) (interval : String)
    → IsDate t
    → IsDate (calculate_next_period t interval)
      × (not_after (calculate_next_period t interval) t ≡ false)
unfolding calculate_next_period
next_period-IsDate t interval date = elim (Bool-cases (str_eq interval "year")) [
  | inl yearly ↦ rw yearly (add_year_lem t date)
  | inr monthly ↦ rw monthly (add_month_lem t date)
]
