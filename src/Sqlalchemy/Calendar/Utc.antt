-- ===== src/Sqlalchemy/Calendar/Utc.antt =====
-- The time that a number of milliseconds stands for.
use crate_python.Exec.{ok}
use crate_python.Sqlalchemy.Calendar.Ordinal.{ordinal, date_of_days-ordinal}
use crate_python.Prelude.Int.{ℤ, neg_part, pos_part, pos, negsuc}
use crate_python.Sqlalchemy.Calendar.{
  utc, Datetime, at_ms, day_and_ms, is_datetime, date_since_1970, date_of_days,
}
use crate_python.Prelude.{refl, true, false, ℕ, ◌<◌, ◌*◌, ◌≡◌, ◌+◌, arith, ◌/◌, ◌%◌, ◌-◌}

-- `t` is the time `r` milliseconds into the day with number `k`.
pub record IsAt (k r : ℕ) (t : Datetime) : Type 0 where
  pub valid : is_datetime t ≡ true
  pub day_number : ordinal t.date ≡ k + 1
  pub time_of_day : (t.hour * 3600 + t.minute * 60 + t.second) * 1000000 + t.micros ≡ r * 1000
  pub no_zone : t.aware ≡ false

at_ms-IsAt : (k r : ℕ) → k < 3652059 → r < 86400000 → IsAt k r (at_ms (date_of_days k) r)
unfolding at_ms is_datetime
at_ms-IsAt k r h l =
    let (v, o) = date_of_days-ordinal k h in
    record { valid = ground arith; day_number = o; time_of_day = omega arith; no_zone = refl }

utc_parts :
    (ms : ℤ) (k r : ℕ)
    → k < 3652059
    → r < 86400000
    → k * 86400000 + r + neg_part ms ≡ 719162 * 86400000 + pos_part ms
    → utc ms ≡ ok (at_ms (date_of_days k) r)
unfolding utc day_and_ms date_since_1970
utc_parts (pos n) k r h l e =
    let d : n / 86400000 + 719162 ≡ k = omega arith in
    let m : n % 86400000 ≡ r = omega arith in rw (d, m) (ground arith)
utc_parts (negsuc n) k r h l e =
    let d : 719162 - (n / 86400000 + 1) ≡ k = omega arith in
    let m : 86399999 - n % 86400000 ≡ r = omega arith in rw (d, m) (ground arith)

-- A number of milliseconds, before or after 1970, that lies in the years 1 to 9999 is the time that
-- many milliseconds from the start of 1970 on, day 719162 by number.
pub utc_lem :
    (ms : ℤ) (k r : ℕ)
    → k < 3652059
    → r < 86400000
    → k * 86400000 + r + neg_part ms ≡ 719162 * 86400000 + pos_part ms
    → (t : Datetime) × (utc ms ≡ ok t) × IsAt k r t
utc_lem ms k r h l e = (at_ms (date_of_days k) r, utc_parts ms k r h l e, at_ms-IsAt k r h l)
