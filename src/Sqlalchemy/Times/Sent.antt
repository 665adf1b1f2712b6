-- ===== src/Sqlalchemy/Times/Sent.antt =====
-- A date that is sent as a parameter, in milliseconds, and read from a column.
use crate_python.Sqlalchemy.Calendar.Utc.{utc_lem}
use crate_python.Sqlalchemy.Calendar.Ordinal.{ordinal}
use crate_python.Sqlalchemy.Calendar.{Date, is_date, is_datetime, Datetime}
use crate_python.Sqlalchemy.Times.Json
use crate_python.Exec.{ok}
use crate_python.Sqlalchemy.Times.{date_result}
use crate_python.Prelude.Int.{◌*ℤ◌, ℤ, pos_part, neg_part, pos, negsuc}
use crate_python.Prelude.{
  refl, zero, suc, none, some, true, false, ◌≡◌, ℕ, ◌<◌, ◌+◌, ◌*◌, arith, ◌-◌,
}
use crate_python.Http.Payload
use crate_python.Http.Payload.{encode}

encode_day :
    (days : ℤ)
    → (ms : ℤ) × (encode (Payload.date days) ≡ ok (Json.num ms))
      × (pos_part ms ≡ pos_part days * 86400000)
      × (neg_part ms ≡ neg_part days * 86400000)
unfolding encode ◌*ℤ◌
encode_day (pos d) = (pos (d * 86400 * 1000), ground arith, omega arith, omega arith)
encode_day (negsuc d) = (negsuc (suc d * 86400 * 1000 - 1), ground arith, omega arith, omega arith)

not_zero : (ms : ℤ) → 0 < pos_part ms + neg_part ms → Json.truthy (Json.num ms) ≡ true
unfolding Json.truthy
not_zero (pos zero) h = elim h [ ]
not_zero (pos (suc n)) h = refl
not_zero (negsuc n) h = refl

zero_num : (ms : ℤ) → pos_part ms + neg_part ms ≡ 0 → Json.truthy (Json.num ms) ≡ false
unfolding Json.truthy
zero_num (pos zero) h = refl
zero_num (pos (suc n)) h = absurd (omega arith)
zero_num (negsuc n) h = absurd (omega arith)

is_datetime-is_date : (t : Datetime) → is_datetime t ≡ true → is_date t.date ≡ true
unfolding is_datetime
is_datetime-is_date t h = ground arith

-- A date of the years 1 to 9999, `days` from 1970 on, that is sent as a parameter and comes back as
-- the number that was sent, is read by a `Date` column as the date with its day number; but the
-- first day of 1970 is sent as 0, and that is read as `None`.
pub date_result-encode :
    (days : ℤ) (k : ℕ)
    → k < 3652059
    → k + neg_part days ≡ 719162 + pos_part days
    → (ms : ℤ) × (encode (Payload.date days) ≡ ok (Json.num ms))
      × ((0 < pos_part days + neg_part days
            → (d : Date) × (date_result (Json.num ms) ≡ ok (some d))
              × (is_date d ≡ true)
              × (ordinal d ≡ k + 1))
          × (pos_part days + neg_part days ≡ 0 → date_result (Json.num ms) ≡ ok none))
unfolding date_result
date_result-encode days k h e =
    let (ms, sent, p, n) = encode_day days in
    let (t, u, at) = utc_lem ms k 0 h (omega arith) (omega arith) in
    (
      ms,
      sent,
      (
        λ l. (
          t.date,
          rw (not_zero ms (omega arith), u) refl,
          is_datetime-is_date t at.valid,
          at.day_number,
        ),
        λ z. rw (zero_num ms (omega arith)) refl,
      ),
    )
