-- ===== src/Tests/Times.antt =====
-- Dates and times of the dialect.
use crate_python.Sqlalchemy.Times.Laws.{
  datetime_result-datetime_bind, midnight, date_result-date_bind,
}
use crate_python.Sqlalchemy.Times.Sent.{date_result-encode}
use crate_python.Exceptions.{Exn, timezone_unaware}
use crate_python.Sqlalchemy.Calendar.Ordinal.{ordinal}
use crate_python.Exec.{ok, err}
use crate_python.Sqlalchemy.Times.{
  date_bind, datetime_bind, a_date, a_datetime, date_result, datetime_result,
}
use crate_python.Prelude.Int.{ℤ, pos, negsuc}
use crate_python.Sqlalchemy.Strptime.{
  show_datetime, parse_date, show_date, show_year, year_of, literal, numeral, day_of,
}
use crate_python.Sqlalchemy.Calendar.{
  Date, Datetime, is_date, is_datetime, utc, date_of_days, days_in_month, is_leap, date_since_1970,
  day_and_ms, month_from,
}
use crate_python.Prelude.{refl, none, some, true, false, Text, ◌≡◌, str, ◌+◌, ◌<◌, arith}
use crate_python.Json
use crate_python.Http.Payload
use crate_python.Http.Payload.{encode, date, datetime}

abbrev leap_day : Date
leap_day = record { year = 2020; month = 2; day = 29 }

abbrev evening : Datetime
evening = record { date = leap_day; hour = 21; minute = 5; second = 9; micros = 70; aware = false }

leap_day_test : is_date leap_day ≡ true
unfolding is_date days_in_month is_leap
leap_day_test = refl

evening_test : is_datetime evening ≡ true
unfolding is_datetime is_date days_in_month is_leap
evening_test = refl

show_datetime_test : show_datetime evening ≡ str "2020-02-29T21:05:09.000070Z"
unfolding show_datetime str show_date show_year
show_datetime_test = refl

parse_date_test :
    (parse_date (str "2019-02-29") ≡ none)
    × (parse_date (str "2020-2-9") ≡ some (record { year = 2020; month = 2; day = 9 }))
    × (parse_date (str "2020-02-29T") ≡ none)
unfolding parse_date year_of str literal numeral day_of is_date days_in_month is_leap
parse_date_test = (refl, refl, refl)

utc_test :
    (utc (pos 1583010309007)
      ≡ ok (record evening { hour = 21; minute = 5; second = 9; micros = 7000 }))
    × (utc (negsuc 0)
        ≡ ok (record {
          date = record { year = 1969; month = 12; day = 31 };
          hour = 23;
          minute = 59;
          second = 59;
          micros = 999000;
          aware = false;
        }))
unfolding utc date_since_1970 day_and_ms date_of_days month_from days_in_month is_leap
utc_test = (refl, refl)

date_result-date_bind_example :
    (s : Text) × (date_bind (a_date leap_day) ≡ ok (some s))
    × (date_result (Json.text s) ≡ ok (some leap_day))
    × (datetime_result (Json.text s) ≡ ok (some (midnight leap_day)))
date_result-date_bind_example = date_result-date_bind leap_day leap_day_test (omega arith)

datetime_result-datetime_bind_example :
    ((evening.aware ≡ false)
      → (s : Text) × (datetime_bind (a_datetime evening) ≡ ok (some s))
        × (datetime_result (Json.text s) ≡ ok (some evening))
        × (date_result (Json.text s) ≡ ok (some evening.date)))
    × ((evening.aware ≡ true)
        → (e : Exn) × (datetime_bind (a_datetime evening) ≡ err e) × (e.cls ≡ timezone_unaware))
datetime_result-datetime_bind_example =
    datetime_result-datetime_bind evening evening_test (omega arith)

date_result-encode_example :
    (ms : ℤ) × (encode (Payload.date (pos 2)) ≡ ok (Json.num ms))
    × ((0 < 2 + 0
          → (d : Date) × (date_result (Json.num ms) ≡ ok (some d))
            × (is_date d ≡ true)
            × (ordinal d ≡ 719164 + 1))
        × (2 + 0 ≡ 0 → date_result (Json.num ms) ≡ ok none))
date_result-encode_example = date_result-encode (pos 2) 719164 (omega arith) (omega arith)
