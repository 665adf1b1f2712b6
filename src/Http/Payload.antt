-- ===== src/Http/Payload.antt =====
-- client/http.py, `CrateJsonEncoder` and `_create_sql_payload`: how a statement and its parameters
-- become the body of a request.
pub mod Laws
use crate_python.Prelude.{
  ℕ, Bool, true, false, ◌&&◌, Option, none, some, List, [], ◌∷◌, Text, str, if◌then◌else◌, ◌*◌, ◌+◌,
  ◌-◌, ◌/◌, ◌%◌, suc, ltb,
}
use crate_python.Prelude.Int.{ℤ, pos, ◌+ℤ◌, ◌*ℤ◌, sub_ℕ, negsuc}
use crate_python.Exceptions.{value_error, type_error, builtin_error}
use crate_python.Exec.{Result, ok, err, out_of_fuel}
use crate_python.Json
use crate_python.Json.{Json, Fields, end, field}

-- A parameter: a value that `json` knows, a `Decimal` by its text, a `datetime` by its distance
-- from 1970 in days, seconds and microseconds as `timedelta` has them, a `date` by its day, or an
-- object that `json` does not know.
pub data Param : Type 0 where
  plain : Json → Param
  decimal : Text → Param
  datetime : ℤ → ℕ → ℕ → Param
  date : ℤ → Param
  unknown : Param

-- The microseconds of a `timedelta`.
unfoldable pub total_microseconds : ℤ → ℕ → ℕ → ℤ
total_microseconds days seconds micros = days *ℤ 86400000000 +ℤ pos (seconds * 1000000 + micros)

-- A double below 2 ^ 48 is a multiple of one over this number.
unfoldable pub steps_of : ℕ → ℕ
steps_of ms =
    if ltb ms 17592186044416
    then 512
    else (if ltb ms 35184372088832
        then 256
        else (if ltb ms 70368744177664 then 128 else (if ltb ms 140737488355328 then 64 else 32)))

-- Whether `ms` and `rest` thousandths is nearer to `ms + 1` than to the double below it.
unfoldable pub is_rounded_up : ℕ → ℕ → Bool
is_rounded_up ms rest = ltb ((1000 - rest) * (2 * steps_of ms)) 1000

-- `int(micros / 1000.0 + seconds * 1000.0)`, of so many microseconds: the sum is rounded to the
-- nearest double, and cut off. The number of whole milliseconds stays below 2 ^ 48 up to the year
-- 9999.
unfoldable pub whole_ms : ℕ → ℕ
whole_ms total = let ms = total / 1000 in if is_rounded_up ms (total % 1000) then suc ms else ms

-- The same of an integer: before 1970, the sum is rounded and cut off towards zero.
unfoldable pub int_ms : ℤ → ℤ
int_ms (pos n) = pos (whole_ms n)
int_ms (negsuc n) = sub_ℕ 0 (whole_ms (suc n))

-- `CrateJsonEncoder.default`
unfoldable pub encode : Param → Result Json
encode (plain v) = ok v
encode (decimal t) = ok (Json.text t)
encode (datetime days seconds micros) =
    ok (Json.num (int_ms (total_microseconds days seconds micros)))
encode (date days) = ok (Json.num (days *ℤ 86400 *ℤ 1000))
encode unknown = err (builtin_error type_error (str "is not JSON serializable"))

abbrev consed : Result Json → Result (List Json) → Result (List Json)
consed (ok v) (ok vs) = ok (v ∷ vs)
consed (ok v) r = r
consed (err e) r = err e
consed out_of_fuel r = out_of_fuel

unfoldable pub encode_all : List Param → Result (List Json)
encode_all [] = ok []
encode_all (p ∷ ps) = consed (encode p) (encode_all ps)

-- The rows of `bulk_args`.
abbrev as_item : Result (List Json) → Result Json
as_item (ok vs) = ok (Json.arr (Json.items vs))
as_item (err e) = err e
as_item out_of_fuel = out_of_fuel

unfoldable pub encode_rows : List (List Param) → Result (List Json)
encode_rows [] = ok []
encode_rows (row ∷ rows) = consed (as_item (encode_all row)) (encode_rows rows)

abbrev is_nonempty {ℓ} : {A : Type ℓ} → List A → Bool
is_nonempty [] = false
is_nonempty (x ∷ xs) = true

abbrev with_rest : Text → Text → Result (List Json) → Result Fields
with_rest stmt key (ok vs) =
    ok (field (str "stmt") (Json.text stmt) (field key (Json.arr (Json.items vs)) end))
with_rest stmt key (err e) = err e
with_rest stmt key out_of_fuel = out_of_fuel

abbrev payload_fields : Text → List Param → List (List Param) → Result Fields
payload_fields stmt (a ∷ args) bulk = with_rest stmt (str "args") (encode_all (a ∷ args))
payload_fields stmt [] (row ∷ rows) = with_rest stmt (str "bulk_args") (encode_rows (row ∷ rows))
payload_fields stmt [] [] = ok (field (str "stmt") (Json.text stmt) end)

-- The dictionary that `_create_sql_payload` hands to `json.dumps`. An absent list is an empty one.
-- `stmt` is a text or another object.
unfoldable pub sql_payload : Option Text → List Param → List (List Param) → Result Fields
sql_payload none args bulk = err (builtin_error value_error (str "stmt is not a string"))
sql_payload (some stmt) args bulk =
    if is_nonempty args && is_nonempty bulk
    then err (builtin_error value_error (str "Cannot provide both: args and bulk_args"))
    else payload_fields stmt args bulk

abbrev dumped : Json.Library → Result Fields → Result Text
dumped lib (ok fs) = ok (lib.dumps (Json.obj fs))
dumped lib (err e) = err e
dumped lib out_of_fuel = out_of_fuel

unfoldable pub create_sql_payload :
    Json.Library → Option Text → List Param → List (List Param) → Result Text
create_sql_payload lib stmt args bulk = dumped lib (sql_payload stmt args bulk)
