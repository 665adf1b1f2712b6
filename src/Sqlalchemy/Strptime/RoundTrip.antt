-- ===== src/Sqlalchemy/Strptime/RoundTrip.antt =====
-- A date or a time that is printed is read back.
use crate_python.Json
use crate_python.Sqlalchemy.Calendar.{Date, is_date, Datetime, is_datetime, days_in_month}
use crate_python.Sqlalchemy.Strptime.{
  show_year, numeral, day_of, year_of, fraction_of, literal, second_digit, two, digit, six,
  more_digits, date_of, show_date, parse_date, time_of, parse_datetime, show_datetime,
}
use crate_python.Prelude.{
  some, ℕ, Text, ◌≤◌, ◌<◌, ◌≡◌, ◌∷◌, arith, ◌++◌, suc, ◌+◌, ◌/◌, ◌*◌, ◌-◌, ◌%◌, ◌∙◌, ap, refl, true,
  false, [], append-nil, none,
}

record Bounds (d : Date) : Type 0 where
  pub year_high : d.year ≤ 9999
  pub month_low : 1 ≤ d.month
  pub month_high : d.month ≤ 12
  pub day_low : 1 ≤ d.day
  pub day_high : d.day ≤ 31

is_date-Bounds : (d : Date) → is_date d ≡ true → Bounds d
unfolding is_date days_in_month
is_date-Bounds d h = ground arith

numeral-two :
    (lo hi n : ℕ) (s : Text) → lo ≤ n → n ≤ hi → n < 100 → numeral lo hi (two n ++ s) ≡ some (n, s)
unfolding numeral second_digit
numeral-two lo hi n s l h k = ground arith

day_of-two : (n : ℕ) (s : Text) → 1 ≤ n → n ≤ 31 → day_of (two n ++ s) ≡ some (n, s)
unfolding day_of
day_of-two n s l h = ground (arith, numeral-two 1 31 n s)

show_year_four : (y : ℕ) → 1000 ≤ y → show_year y ≡ digit y 1000 ∷ digit y 100 ∷ two y
unfolding show_year
show_year_four y h = ground arith

year_of_four :
    (y : ℕ) (s : Text)
    → y ≤ 9999
    → year_of (digit y 1000 ∷ digit y 100 ∷ (two y ++ s)) ≡ some (y, s)
unfolding year_of
year_of_four y s h = ground arith

more_digits-digit :
    (k n m j : ℕ) (s : Text)
    → more_digits (suc k) n (digit m j ∷ s) ≡ more_digits k (n * 10 + m / j % 10) s
unfolding more_digits
more_digits-digit k n m j s = ground arith

fraction_first :
    (d : ℕ) (s : Text)
    → d < 10
    → fraction_of ((b'0' + d) ∷ s) ≡ some (more_digits 5 (b'0' + d - b'0') s)
unfolding fraction_of
fraction_first d s h = ground arith

more_digits_zero : (n : ℕ) (s : Text) → more_digits 0 n s ≡ (n, s)
unfolding more_digits
more_digits_zero n s = refl

more_digits_five :
    (a n : ℕ) (s : Text)
    → more_digits 5 a (digit n 10000 ∷ digit n 1000 ∷ digit n 100 ∷ (two n ++ s)) ≡ (
      ((((a * 10 + n / 10000 % 10) * 10 + n / 1000 % 10) * 10 + n / 100 % 10) * 10 + n / 10 % 10)
            * 10
          + n / 1 % 10,
      s,
    )
more_digits_five a n s =
    let a₄ : ℕ = a * 10 + n / 10000 % 10 in
    let a₃ : ℕ = a₄ * 10 + n / 1000 % 10 in
    let a₂ : ℕ = a₃ * 10 + n / 100 % 10 in
    let a₁ : ℕ = a₂ * 10 + n / 10 % 10 in
    more_digits-digit 4 a n 10000 (digit n 1000 ∷ digit n 100 ∷ (two n ++ s))
    ∙ more_digits-digit 3 a₄ n 1000 (digit n 100 ∷ (two n ++ s))
    ∙ more_digits-digit 2 a₃ n 100 (two n ++ s)
    ∙ more_digits-digit 1 a₂ n 10 (digit n 1 ∷ s)
    ∙ more_digits-digit 0 a₁ n 1 s
    ∙ more_digits_zero _ s

fraction_of-six : (n : ℕ) (s : Text) → n < 1000000 → fraction_of (six n ++ s) ≡ some (n, s)
fraction_of-six n s h =
    fraction_first (n / 100000 % 10) (digit n 10000 ∷ digit n 1000 ∷ digit n 100 ∷ (two n ++ s))
      (omega arith)
    ∙ ap some (
        more_digits_five (b'0' + n / 100000 % 10 - b'0') n s
        ∙ ap {B = ℕ × Text} (λ m. (m, s)) (omega arith))

literal_self : (c : ℕ) (s : Text) → literal c (c ∷ s) ≡ some s
unfolding literal
literal_self c s = ground arith

date_of-show_date :
    (d : Date) (s : Text)
    → is_date d ≡ true
    → 1000 ≤ d.year
    → date_of (show_date d ++ s) ≡ some (d, s)
unfolding date_of show_date
date_of-show_date d s h k =
    let v = is_date-Bounds d h in
    let dash_day : Text = b'-' ∷ (two d.day ++ s) in
    rw (
      show_year_four d.year k,
      year_of_four d.year (b'-' ∷ (two d.month ++ dash_day)) v.year_high,
      literal_self b'-' (two d.month ++ dash_day),
      numeral-two 1 12 d.month dash_day v.month_low v.month_high (omega arith),
      literal_self b'-' (two d.day ++ s),
      day_of-two d.day s v.day_low v.day_high,
    )

-- A date from year 1000 on, printed by `strftime('%Y-%m-%d')`, is read back by `strptime`.
pub parse_date-show_date :
    (d : Date) → is_date d ≡ true → 1000 ≤ d.year → parse_date (show_date d) ≡ some d
unfolding parse_date
parse_date-show_date d h k =
    rw (← append-nil (show_date d)) (rw (date_of-show_date d [] h k) (ground arith))

record TimeBounds (t : Datetime) : Type 0 where
  pub valid_date : is_date t.date ≡ true
  pub hour_high : t.hour ≤ 23
  pub minute_high : t.minute ≤ 59
  pub second_high : t.second ≤ 59
  pub micros_high : t.micros < 1000000

is_datetime_bounds : (t : Datetime) → is_datetime t ≡ true → TimeBounds t
unfolding is_datetime
is_datetime_bounds t h = ground arith

-- What stands behind the date.
abbrev time_text : Datetime → Text
time_text t =
    b'T'
    ∷ (two t.hour
        ++ (b':'
            ∷ (two t.minute ++ (b':' ∷ (two t.second ++ (b'.' ∷ (six t.micros ++ b'Z' ∷ [])))))))

time_of-time_text :
    (t : Datetime)
    → is_datetime t ≡ true
    → time_of t.date (time_text t) ≡ some (record t { aware = false }, [])
unfolding time_of
time_of-time_text t h =
    let v = is_datetime_bounds t h in
    let fraction : Text = b'.' ∷ (six t.micros ++ b'Z' ∷ []) in
    let seconds : Text = b':' ∷ (two t.second ++ fraction) in
    let minutes : Text = b':' ∷ (two t.minute ++ seconds) in
    rw (
      literal_self b'T' (two t.hour ++ minutes),
      numeral-two 0 23 t.hour minutes (omega arith) v.hour_high (omega arith),
      literal_self b':' (two t.minute ++ seconds),
      numeral-two 0 59 t.minute seconds (omega arith) v.minute_high (omega arith),
      literal_self b':' (two t.second ++ fraction),
      numeral-two 0 61 t.second fraction (omega arith) (omega arith) (omega arith),
      literal_self b'.' (six t.micros ++ b'Z' ∷ []),
      fraction_of-six t.micros (b'Z' ∷ []) v.micros_high,
      literal_self b'Z' [],
    )

unaware : (t : Datetime) → is_datetime (record t { aware = false }) ≡ is_datetime t
unfolding is_datetime
unaware t = refl

-- So is a time, with its microseconds; what is read has no time zone.
pub parse_datetime-show_datetime :
    (t : Datetime)
    → is_datetime t ≡ true
    → 1000 ≤ t.date.year
    → parse_datetime (show_datetime t) ≡ some (record t { aware = false })
unfolding parse_datetime show_datetime
parse_datetime-show_datetime t h k =
    let v = is_datetime_bounds t h in
    rw (date_of-show_date t.date (time_text t) v.valid_date k, time_of-time_text t h)
      (rw (unaware t ∙ h) refl)

-- The one format is not taken for the other.
pub parse_datetime-show_date :
    (d : Date) → is_date d ≡ true → 1000 ≤ d.year → parse_datetime (show_date d) ≡ none
unfolding parse_datetime time_of literal
parse_datetime-show_date d h k =
    rw (← append-nil (show_date d)) (rw (date_of-show_date d [] h k) refl)

pub parse_date-show_datetime :
    (t : Datetime) → is_datetime t ≡ true → 1000 ≤ t.date.year → parse_date (show_datetime t) ≡ none
unfolding parse_date show_datetime
parse_date-show_datetime t h k =
    rw (date_of-show_date t.date (time_text t) (is_datetime_bounds t h).valid_date k) refl

pub show_date-truthy :
    (d : Date) (s : Text) → 1000 ≤ d.year → Json.truthy (Json.text (show_date d ++ s)) ≡ true
unfolding show_date Json.truthy
show_date-truthy d s k = rw (show_year_four d.year k) refl
