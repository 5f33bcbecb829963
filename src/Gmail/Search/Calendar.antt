-- ===== src/Gmail/Search/Calendar.antt =====
-- The days since 1970, counted year by year and month by month, against the formula of the code.
use agent_sandbox.Gmail.Search.{days_from_civil, is_date}
use agent_sandbox.Common.{
  ℕ, suc, ◌/◌, ◌-◌, if◌then◌else◌, ◌+◌, Bool, suc, ◌≡◌, ◌%◌, ◌==◌, zero, arith, ◌||◌, ◌&&◌, ◌*◌,
  not, refl, ◌<◌, leb, ltb, true, ◌∙◌, ap, Bool-cases, inl, inr, ◌≤◌, u64_mod,
}

abbrev pub is_leap : ℕ → Bool
is_leap y = (y % 4 == 0 && not (y % 100 == 0)) || y % 400 == 0

unfoldable pub leap_day : ℕ → ℕ
leap_day y = if is_leap y then 1 else 0

abbrev pub days_in_month : ℕ → ℕ → ℕ
days_in_month y m =
    if m == 2 then 28 + leap_day y else if m == 4 || m == 6 || m == 9 || m == 11 then 30 else 31

-- The days of the first `n` years after 1970, and of the first `n` months of a year.
unfoldable pub days_of_years : ℕ → ℕ
days_of_years zero = 0
days_of_years (suc n) = days_of_years n + (365 + leap_day (1970 + n))

unfoldable pub days_of_months : ℕ → ℕ → ℕ
days_of_months y zero = 0
days_of_months y (suc n) = days_of_months y n + days_in_month y (suc n)

abbrev pub calendar_days : ℕ → ℕ → ℕ → ℕ
calendar_days year month day =
    days_of_years (year - 1970) + days_of_months year (month - 1) + (day - 1)

abbrev leaps : ℕ → ℕ
leaps y = y / 4 + y / 400 - y / 100

leaps-next : (x y : ℕ) → y ≡ suc x → leaps y ≡ leaps x + leap_day y
unfolding leap_day
leaps-next x y e = ground arith

days_of_years_lem : (n : ℕ) → days_of_years n + 477 ≡ 365 * n + leaps (1969 + n)
unfolding days_of_years
days_of_years_lem zero = refl
days_of_years_lem (suc n) =
    let same : 1969 + suc n ≡ 1970 + n = omega arith in
    rw same (omega (arith, days_of_years_lem n, leaps-next (1969 + n) (1970 + n) (omega arith)))

-- The days before a month, in a year that is not a leap year.
abbrev before_month : ℕ → ℕ
before_month m = if leb m 2 then 31 * (m - 1) else (153 * (m - 3) + 2) / 5 + 59

days_of_months_lem :
    (y n : ℕ)
    → n < 12
    → days_of_months y n ≡ before_month (suc n) + (if ltb 2 (suc n) then leap_day y else 0)
unfolding days_of_months
days_of_months_lem y zero h = refl
days_of_months_lem y (suc n) h = ground (arith, days_of_months_lem y n (omega arith))

-- The days of `y` years, put together from eras and the years of an era.
era_days :
    (y : ℕ) → y / 400 * 146097 + (y % 400 * 365 + y % 400 / 4 - y % 400 / 100) ≡ 365 * y + leaps y
era_days y = omega arith

-- The sum for a month after February, with the year's terms as they stand.
late_days :
    (year month day years months extra : ℕ)
    → 1970 ≤ year
    → (3 ≤ month) × (month ≤ 12) × (1 ≤ day) × (day ≤ 31)
    → year < 500000000
    → years + 477 ≡ 365 * (year - 1970) + leaps (year - 1)
    → months ≡ (153 * (month - 3) + 2) / 5 + 59 + extra
    → leaps year ≡ leaps (year - 1) + extra
    → (year / 400 * 146097
          + (year % 400 * 365
              + year % 400 / 4
              - year % 400 / 100
              + ((153 * (month - 3) + 2) / 5 + day - 1))
          + (u64_mod - 719468))
        % u64_mod
      ≡ years + months + (day - 1)
late_days year month day years months extra h k small e f g = omega (arith, era_days year)

-- The formula of the code counts the days of the calendar, also for a day that its month lacks.
pub days_from_civil_lem :
    (year month day : ℕ)
    → is_date year month day ≡ true
    → year < 500000000
    → days_from_civil year month day ≡ calendar_days year month day
unfolding days_from_civil
days_from_civil_lem year month day valid small =
    let years : days_of_years (year - 1970) + 477 ≡ 365 * (year - 1970) + leaps (year - 1) =
      days_of_years_lem (year - 1970) ∙ ap (λ k. 365 * (year - 1970) + leaps k) (ground arith) in
    let months : days_of_months year (month - 1)
        ≡ before_month month + (if ltb 2 month then leap_day year else 0) =
      days_of_months_lem year (month - 1) (ground arith)
      ∙ ap (λ k. before_month k + (if ltb 2 k then leap_day year else 0)) (ground arith) in
    elim (Bool-cases (leb month 2)) [
      | inl early ↦ ground (arith, years, months, era_days (year - 1))
      | inr late ↦
          let big : ltb 2 month ≡ true = ground arith in
          let before : before_month month ≡ (153 * (month - 3) + 2) / 5 + 59 = rw late refl in
          let extra : days_of_months year (month - 1)
              ≡ (153 * (month - 3) + 2) / 5 + 59 + leap_day year =
            months ∙ rw (late, big) refl in
          let next = leaps-next (year - 1) year (ground arith) in
          rw (late, big)
            (late_days year month day _ _ (leap_day year) (ground arith) (ground arith) small years
              extra next)
    ]

days_of_years-le : (n : ℕ) → days_of_years n ≤ 366 * n
unfolding days_of_years leap_day
days_of_years-le zero = omega arith
days_of_years-le (suc n) = ground (arith, days_of_years-le n)

days_of_months-le : (y n : ℕ) → days_of_months y n ≤ 31 * n
unfolding days_of_months leap_day
days_of_months-le y zero = omega arith
days_of_months-le y (suc n) = ground (arith, days_of_months-le y n)

-- The milliseconds of a date fit 64 bits.
pub calendar_days-lt :
    (year month day : ℕ)
    → is_date year month day ≡ true
    → year < 500000000
    → calendar_days year month day < 200000000000
calendar_days-lt year month day valid small =
    ground (arith, days_of_years-le (year - 1970), days_of_months-le year (month - 1))
