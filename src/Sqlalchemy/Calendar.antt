-- ===== src/Sqlalchemy/Calendar.antt =====
-- Python's `date` and `datetime`, as far as sqlalchemy/dialect.py uses them: their ranges, and the
-- time that a number of milliseconds since 1970 stands for.
pub mod Ordinal
pub mod Utc
use crate_python.Exec.{Result, on_ok, ok, err}
use crate_python.Exceptions.{Exn, builtin_error, value_error}
use crate_python.Prelude.Int.{ℤ, pos, negsuc}
use crate_python.Prelude.{
  zero, suc, false, ℕ, Bool, ◌%◌, if◌then◌else◌, leb, ◌&&◌, ◌+◌, ◌/◌, ◌==◌, ltb, ◌-◌, ◌*◌, not,
  ◌||◌, str,
}

-- A `date`, and a `datetime` that has a time zone or none.
pub record Date : Type 0 where
  pub year : ℕ
  pub month : ℕ
  pub day : ℕ

pub record Datetime : Type 0 where
  pub date : Date
  pub hour : ℕ
  pub minute : ℕ
  pub second : ℕ
  pub micros : ℕ
  pub aware : Bool

unfoldable pub is_leap : ℕ → Bool
is_leap y = y % 4 == 0 && (not (y % 100 == 0) || y % 400 == 0)

unfoldable pub days_in_month : ℕ → ℕ → ℕ
days_in_month y m =
    if m == 2
    then (if is_leap y then 29 else 28)
    else if m == 4 || m == 6 || m == 9 || m == 11
    then 30
    else 31

-- What the constructor `date` accepts.
unfoldable pub is_date : Date → Bool
is_date d =
    leb 1 d.year
    && leb d.year 9999
    && leb 1 d.month
    && leb d.month 12
    && leb 1 d.day
    && leb d.day (days_in_month d.year d.month)

unfoldable pub is_datetime : Datetime → Bool
is_datetime t =
    is_date t.date && ltb t.hour 24 && ltb t.minute 60 && ltb t.second 60 && ltb t.micros 1000000

-- A number of milliseconds since 1970 by the day and the milliseconds in it.
unfoldable pub day_and_ms : ℤ → ℤ × ℕ
day_and_ms (pos n) = (pos (n / 86400000), n % 86400000)
day_and_ms (negsuc n) = (negsuc (n / 86400000), 86399999 - n % 86400000)

-- The month and the day of the `n`-th day of a year, from month `m` on.
unfoldable pub month_from : ℕ → ℕ → ℕ → ℕ → Date
month_from zero y m n = record { year = y; month = m; day = n + 1 }
month_from (suc left) y m n =
    let rest = month_from left y (m + 1) (n - days_in_month y m) in
    if ltb n (days_in_month y m) then record { year = y; month = m; day = n + 1 } else rest

-- `date.fromordinal(n + 1)`: the cycles of 400, 100, 4 years and one year that lie before the day.
unfoldable pub date_of_days : ℕ → Date
date_of_days n =
    let a = n % 146097 in
    let b = a % 36524 in
    let c = b % 1461 in
    let y = n / 146097 * 400 + a / 36524 * 100 + b / 1461 * 4 + c / 365 in
    if a / 36524 == 4 || c / 365 == 4
    then record { year = y; month = 12; day = 31 }
    else month_from 11 (y + 1) 1 (c % 365)

out_of_range : Exn
out_of_range = builtin_error value_error (str "year is out of range")

-- The day of `days` after 1970, if its year lies from 1 to 9999.
unfoldable pub date_since_1970 : ℤ → Result Date
unfolding out_of_range
date_since_1970 (pos d) =
    if ltb (d + 719162) 3652059 then ok (date_of_days (d + 719162)) else err out_of_range
date_since_1970 (negsuc d) =
    if ltb d 719162 then ok (date_of_days (719162 - (d + 1))) else err out_of_range

at_ms : Date → ℕ → Datetime
at_ms d ms = record {
  date = d;
  hour = ms / 3600000;
  minute = ms / 60000 % 60;
  second = ms / 1000 % 60;
  micros = ms % 1000 * 1000;
  aware = false;
}

-- `datetime.utcfromtimestamp(value / 1e3)`
unfoldable pub utc : ℤ → Result Datetime
unfolding at_ms
utc ms = let d = day_and_ms ms in on_ok (date_since_1970 d.0) (λ date. ok (at_ms date d.1))
