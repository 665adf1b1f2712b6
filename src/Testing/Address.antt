-- ===== src/Testing/Address.antt =====
-- testing/layer.py, `http_url_from_host_port` and `prepend_http`: the address of the server that is to
-- be started.
use crate_python.Prelude.{
  zero, suc, none, some, [], Text, ℕ, if◌then◌else◌, Bool, Option, ◌/◌, starts_with, leb, ◌∷◌, ◌+◌,
  ◌++◌, str, ◌&&◌, ◌*◌, ◌%◌, ◌||◌, ◌-◌, ltb,
}

-- `prepend_http`
unfoldable pub prepend_http : Text → Text
prepend_http host =
    if starts_with host (str "http://") || starts_with host (str "https://")
    then host
    else str "http://" ++ host

-- A port: none, a number, or a text such as `4200-4299`.
pub data Port : Type 0 where
  no_port : Port
  number : ℕ → Port
  text : Text → Port

abbrev is_digit : ℕ → Bool
is_digit c = leb b'0' c && leb c b'9'

-- `int(port)`, of a text of ASCII digits; other texts raise a `ValueError`, here `none`. (A sign, blanks
-- and underscores, which `int` reads too, are left out.)
unfoldable pub digits_value : ℕ → Text → Option ℕ
digits_value n [] = some n
digits_value n (c ∷ s) =
    let rest = digits_value (n * 10 + (c - b'0')) s in if is_digit c then rest else none

abbrev parse_int : Text → Option ℕ
parse_int [] = none
parse_int (c ∷ s) = digits_value 0 (c ∷ s)

-- How a number prints, with fuel for its digits, and the text that follows.
unfoldable pub show_from : ℕ → ℕ → Text → Text
show_from zero n rest = rest
show_from (suc fuel) n rest =
    let more = show_from fuel (n / 10) ((b'0' + n % 10) ∷ rest) in
    if ltb n 10 then (b'0' + n) ∷ rest else more

abbrev pub show_number : ℕ → Text
show_number n = show_from (suc n) n []

abbrev with_port : Text → Option ℕ → Option Text
with_port host none = none
with_port host (some p) = some (prepend_http host ++ (b':' ∷ show_number p))

-- `http_url_from_host_port`. An empty host, and the port 0 or an empty one, count as none.
unfoldable pub http_url_from_host_port : Text → Port → Option Text
http_url_from_host_port [] port = none
http_url_from_host_port (c ∷ host) no_port = none
http_url_from_host_port (c ∷ host) (number zero) = none
http_url_from_host_port (c ∷ host) (number (suc p)) = with_port (c ∷ host) (some (suc p))
http_url_from_host_port (c ∷ host) (text t) = with_port (c ∷ host) (parse_int t)
