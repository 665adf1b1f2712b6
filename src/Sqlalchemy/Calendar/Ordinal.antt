-- ===== src/Sqlalchemy/Calendar/Ordinal.antt =====
-- The date of a day number is the date with that number: no day is skipped or given twice.
use crate_python.Sqlalchemy.Calendar.{
  Date, days_in_month, month_from, is_leap, is_date, date_of_days,
}
use crate_python.Prelude.{
  zero, suc, ℕ, ◌≡◌, ◌≤◌, ◌-◌, ◌+◌, ◌<◌, arith, ◌*◌, if◌then◌else◌, ◌/◌, ◌==◌, true, inl, inr, ◌∙◌,
  ◌%◌, Bool-cases,
}

-- The days before a year, and those before a month of a year.
unfoldable pub before_year : ℕ → ℕ
before_year y = (y - 1) * 365 + (y - 1) / 4 + (y - 1) / 400 - (y - 1) / 100

unfoldable pub before_month : ℕ → ℕ → ℕ
before_month y zero = 0
before_month y (suc m) = before_month y m + (if m == 0 then 0 else days_in_month y m)

-- `date.toordinal`
unfoldable pub ordinal : Date → ℕ
ordinal d = before_year d.year + before_month d.year d.month + d.day

-- The days from month `m` on, where `left` months follow.
days_left : ℕ → ℕ → ℕ → ℕ
days_left zero y m = days_in_month y m
days_left (suc left) y m = days_in_month y m + days_left left y (m + 1)

record InYear (y m n : ℕ) (d : Date) : Type 0 where
  pub same_year : d.year ≡ y
  pub month_low : m ≤ d.month
  pub month_high : d.month ≤ 12
  pub day_low : 1 ≤ d.day
  pub day_high : d.day ≤ days_in_month y d.month
  pub number : before_month y d.month + d.day ≡ before_month y m + n + 1

month_from-InYear :
    (left y m n : ℕ)
    → 0 < m
    → m + left ≤ 12
    → n < days_left left y m
    → InYear y m n (month_from left y m n)
unfolding month_from days_left before_month
month_from-InYear zero y m n p q h = ground arith
month_from-InYear (suc left) y (suc m) n p q h =
    ground (arith, month_from-InYear left y (suc m + 1) (n - days_in_month y (suc m)))
month_from-InYear (suc left) y zero n p q h = elim p [ ]

year_days : (y : ℕ) → 365 ≤ days_left 11 y 1
unfolding days_left days_in_month
year_days y = ground arith

-- The days before the year that `q` cycles of 400 years, `p` of 100, `r` of 4 and `t` years precede.
before_year_cycles :
    (q p r t : ℕ)
    → p < 4
    → r < 25
    → t < 4
    → before_year (q * 400 + p * 100 + r * 4 + t + 1) ≡ q * 146097 + p * 36524 + r * 1461 + t * 365
unfolding before_year
before_year_cycles q p r t hp hr ht = omega arith

-- The last day of a leap year of a cycle.
last_of_four :
    (q p r : ℕ)
    → p < 4
    → r < 24
    → ordinal (record { year = q * 400 + p * 100 + r * 4 + 4; month = 12; day = 31 })
      ≡ q * 146097 + p * 36524 + r * 1461 + 1460 + 1
unfolding ordinal before_month before_year days_in_month is_leap
last_of_four q p r hp hr = ground arith

last_of_cycle :
    (q : ℕ)
    → ordinal (record { year = q * 400 + 400; month = 12; day = 31 }) ≡ q * 146097 + 146096 + 1
unfolding ordinal before_month before_year days_in_month is_leap
last_of_cycle q = ground arith

-- The date has the day number `n`, and is one that `date` accepts.
record HasNumber (n : ℕ) (d : Date) : Type 0 where
  pub number : ordinal d ≡ n + 1
  pub valid : is_date d ≡ true

InYear-HasNumber :
    (y k n : ℕ) (d : Date)
    → 1 ≤ y
    → y ≤ 9999
    → n ≡ before_year y + k
    → InYear y 1 k d
    → HasNumber n d
unfolding ordinal is_date before_month
InYear-HasNumber y k n d l h e v = record {
  number = rw v.same_year (omega arith);
  valid = ground arith;
}

ordinary :
    (n q p r t k : ℕ)
    → n < 3652059
    → p < 4
    → r < 25
    → t < 4
    → k < 365
    → n ≡ q * 146097 + p * 36524 + r * 1461 + t * 365 + k
    → HasNumber n (month_from 11 (q * 400 + p * 100 + r * 4 + t + 1) 1 k)
ordinary n q p r t k hn hp hr ht hk e =
    let y : ℕ = q * 400 + p * 100 + r * 4 + t + 1 in
    InYear-HasNumber y k n (month_from 11 y 1 k) (omega arith) (omega arith)
      (omega (arith, before_year_cycles q p r t))
      (month_from-InYear 11 y 1 k (omega arith) (omega arith) (omega (arith, year_days y)))

four_years :
    (n q p r y : ℕ)
    → n < 3652059
    → p < 4
    → r < 24
    → y ≡ q * 400 + p * 100 + r * 4 + 4
    → n ≡ q * 146097 + p * 36524 + r * 1461 + 1460
    → HasNumber n (record { year = y; month = 12; day = 31 })
unfolding is_date days_in_month
four_years n q p r y h hp hr e f =
    rw e (record { number = last_of_four q p r hp hr ∙ omega arith; valid = ground arith })

whole_cycle :
    (n q y : ℕ)
    → n < 3652059
    → y ≡ q * 400 + 400
    → n ≡ q * 146097 + 146096
    → HasNumber n (record { year = y; month = 12; day = 31 })
unfolding is_date days_in_month
whole_cycle n q y h e f =
    rw e (record { number = last_of_cycle q ∙ omega arith; valid = ground arith })

date_of_days-HasNumber : (n : ℕ) → n < 3652059 → HasNumber n (date_of_days n)
unfolding date_of_days
date_of_days-HasNumber n h =
    let q : ℕ = n / 146097 in
    let a : ℕ = n % 146097 in
    let b : ℕ = a % 36524 in
    let c : ℕ = b % 1461 in
    elim (Bool-cases (a / 36524 == 4)) [
      | inl e ↦ rw e (whole_cycle n q _ h (ground arith) (ground arith))
      | inr e ↦ elim (Bool-cases (c / 365 == 4)) [
        | inl f ↦
            rw (e, f)
              (four_years n q (a / 36524) (b / 1461) _ h (ground arith) (ground arith)
                (ground arith) (ground arith))
        | inr f ↦
            rw (e, f)
              (ordinary n q (a / 36524) (b / 1461) (c / 365) (c % 365) h (ground arith)
                (ground arith) (ground arith) (ground arith) (ground arith))
      ]
    ]

-- Every day from year 1 to 9999, by its number, is given the date that has this number.
pub date_of_days-ordinal :
    (n : ℕ) → n < 3652059 → (is_date (date_of_days n) ≡ true) × (ordinal (date_of_days n) ≡ n + 1)
date_of_days-ordinal n h = let v = date_of_days-HasNumber n h in (v.valid, v.number)
