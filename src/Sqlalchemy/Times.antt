-- ===== src/Sqlalchemy/Times.antt =====
-- sqlalchemy/dialect.py, the processors of `Date` and `DateTime`: dates and times to the texts that
-- are sent, and back from what the server answers. A number is taken to be whole milliseconds.
pub mod Laws
pub mod Sent
use crate_python.Sqlalchemy.Strptime.{show_date, show_datetime, parse_date, parse_datetime}
use crate_python.Prelude.Int.{pos}
use crate_python.Json
use crate_python.Exec.{Result, err, on_ok, ok}
use crate_python.Sqlalchemy.Calendar.{Date, Datetime, utc}
use crate_python.Json.{Json}
use crate_python.Exceptions.{
  Exn, builtin_error, make_error, value_error, type_error, assertion_error, timezone_unaware,
}
use crate_python.Prelude.{none, some, false, [], Option, if◌then◌else◌, Text, str}

abbrev or_mismatch : {A : Type 0} → Option A → Result A
or_mismatch none = err (builtin_error value_error (str "time data does not match format"))
or_mismatch (some a) = ok a

abbrev or_else : {A : Type 0} → Option A → Option A → Option A
or_else none o = o
or_else (some a) o = some a

abbrev date_part : Option Datetime → Option Date
date_part none = none
date_part (some t) = some t.date

abbrev at_midnight : Option Date → Option Datetime
at_midnight none = none
at_midnight (some d) =
    some (record { date = d; hour = 0; minute = 0; second = 0; micros = 0; aware = false })

abbrev not_a_text : Exn
not_a_text = builtin_error type_error (str "strptime() argument 1 must be str")

-- `Date.result_processor`, of a value that is not falsy: a number of milliseconds, else a text.
date_result_of : Json → Result Date
date_result_of (Json.num ms) = on_ok (utc ms) (λ t. ok t.date)
date_result_of (Json.bool b) = on_ok (utc (pos 1)) (λ t. ok t.date)
date_result_of (Json.text s) = or_mismatch (or_else (parse_date s) (date_part (parse_datetime s)))
date_result_of _ = err not_a_text

unfoldable pub date_result : Json → Result (Option Date)
unfolding date_result_of
date_result v = if Json.truthy v then on_ok (date_result_of v) (λ d. ok (some d)) else ok none

-- `DateTime.result_processor`
datetime_result_of : Json → Result Datetime
datetime_result_of (Json.num ms) = utc ms
datetime_result_of (Json.bool b) = utc (pos 1)
datetime_result_of (Json.text s) =
    or_mismatch (or_else (parse_datetime s) (at_midnight (parse_date s)))
datetime_result_of _ = err not_a_text

unfoldable pub datetime_result : Json → Result (Option Datetime)
unfolding datetime_result_of
datetime_result v =
    if Json.truthy v then on_ok (datetime_result_of v) (λ t. ok (some t)) else ok none

-- A value that is bound to a column. A `datetime` is a `date` too.
pub data Bound : Type 0 where
  nothing other : Bound
  a_date : Date → Bound
  a_datetime : Datetime → Bound

abbrev not_expected : Exn
not_expected = builtin_error assertion_error []

-- `Date.bind_processor`
unfoldable pub date_bind : Bound → Result (Option Text)
date_bind nothing = ok none
date_bind (a_date d) = ok (some (show_date d))
date_bind (a_datetime t) = ok (some (show_date t.date))
date_bind other = err not_expected

abbrev timezone_error : Exn
timezone_error =
    make_error timezone_unaware "TimezoneUnawareException"
      (str "Timezone aware datetime objects are not supported") none

-- `DateTime.bind_processor`
unfoldable pub datetime_bind : Bound → Result (Option Text)
datetime_bind nothing = ok none
datetime_bind (a_datetime t) = if t.aware then err timezone_error else ok (some (show_datetime t))
datetime_bind _ = err not_expected
