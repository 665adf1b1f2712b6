-- ===== src/Http/Payload/Laws.antt =====
-- What becomes of times, and which payloads are made.
use crate_python.Exec.{ok}
use crate_python.Http.Payload.{sql_payload, Param}
use crate_python.Prelude.{none, some, Text, List, ◌≡◌, str, arith, ◌⊎◌, [], text_eq, ◌∷◌}
use crate_python.Json
use crate_python.Json.{Json, Fields}

-- A payload that is made has the statement, and not both `args` and `bulk_args`.
pub sql_payload_lem :
    (stmt : Text) (args : List Param) (bulk : List (List Param)) (fs : Fields)
    → sql_payload (some stmt) args bulk ≡ ok fs
    → (Json.get (str "stmt") fs ≡ some (Json.text stmt))
      × ((Json.get (str "args") fs ≡ none) ⊎ (Json.get (str "bulk_args") fs ≡ none))
unfolding sql_payload Json.get str text_eq
sql_payload_lem stmt [] [] fs h = ground arith
sql_payload_lem stmt [] (row ∷ rows) fs h = ground arith
sql_payload_lem stmt (a ∷ args) [] fs h = ground arith
sql_payload_lem stmt (a ∷ args) (row ∷ rows) fs h = ground arith
