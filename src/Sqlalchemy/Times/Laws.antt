-- ===== src/Sqlalchemy/Times/Laws.antt =====
-- What is sent for a date or a time is understood when it comes back as it was sent.
use crate_python.Exceptions.{Exn, timezone_unaware, make_error}
use crate_python.Exec.{ok, err, Result}
use crate_python.Sqlalchemy.Strptime.RoundTrip.{
  show_date-truthy, parse_date-show_date, parse_datetime-show_date, parse_datetime-show_datetime,
  parse_date-show_datetime,
}
use crate_python.Sqlalchemy.Strptime.{show_date, show_datetime}
use crate_python.Sqlalchemy.Times.Json
use crate_python.Sqlalchemy.Times.{
  date_bind, datetime_bind, date_result, datetime_result, a_date, a_datetime, timezone_error,
}
use crate_python.Sqlalchemy.Calendar.{Date, Datetime, is_date, is_datetime}
use crate_python.Prelude.{refl, some, true, false, [], ◌≤◌, ◌≡◌, append-nil, Text, ap, Option, sym}

abbrev pub midnight : Date → Datetime
midnight d = record { date = d; hour = 0; minute = 0; second = 0; micros = 0; aware = false }

date_truthy : (d : Date) → 1000 ≤ d.year → Json.truthy (Json.text (show_date d)) ≡ true
date_truthy d k = rw (← append-nil (show_date d)) (show_date-truthy d [] k)

time_truthy : (t : Datetime) → 1000 ≤ t.date.year → Json.truthy (Json.text (show_datetime t)) ≡ true
unfolding show_datetime
time_truthy t k = show_date-truthy t.date _ k

-- A date from year 1000 on is sent as a text that a `Date` column reads as the same date, and a
-- `DateTime` column as its midnight.
pub date_result-date_bind :
    (d : Date)
    → is_date d ≡ true
    → 1000 ≤ d.year
    → (s : Text) × (date_bind (a_date d) ≡ ok (some s))
      × (date_result (Json.text s) ≡ ok (some d))
      × (datetime_result (Json.text s) ≡ ok (some (midnight d)))
unfolding date_bind date_result datetime_result
date_result-date_bind d h k = (
  show_date d,
  refl,
  rw (date_truthy d k, parse_date-show_date d h k) refl,
  rw (date_truthy d k, parse_datetime-show_date d h k, parse_date-show_date d h k) refl,
)

-- A time without a time zone, from year 1000 on, is sent as a text that a `DateTime` column reads as
-- the same time, microseconds included, and a `Date` column as its date. One with a time zone is
-- refused with a `TimezoneUnawareException`.
pub datetime_result-datetime_bind :
    (t : Datetime)
    → is_datetime t ≡ true
    → 1000 ≤ t.date.year
    → ((t.aware ≡ false)
        → (s : Text) × (datetime_bind (a_datetime t) ≡ ok (some s))
          × (datetime_result (Json.text s) ≡ ok (some t))
          × (date_result (Json.text s) ≡ ok (some t.date)))
      × ((t.aware ≡ true)
          → (e : Exn) × (datetime_bind (a_datetime t) ≡ err e) × (e.cls ≡ timezone_unaware))
unfolding datetime_bind date_result datetime_result make_error
datetime_result-datetime_bind t h k = (
  λ a. (
    show_datetime t,
    rw a refl,
    rw (time_truthy t k, parse_datetime-show_datetime t h k)
        (ap {B = Result (Option Datetime)} (λ b. ok (some (record t { aware = b }))) (sym a)),
    rw (time_truthy t k, parse_date-show_datetime t h k, parse_datetime-show_datetime t h k) refl,
  ),
  λ a. (timezone_error, rw a refl, refl),
)
