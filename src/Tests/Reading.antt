-- ===== src/Tests/Reading.antt =====
-- Cursors.
use crate_python.Cursor.Fetch.{holding, fetchall_lem, fetchmany_lem}
use crate_python.Exec.{ok}
use crate_python.Cursor.{Session, fetchall, fetchmany, new_cursor}
use crate_python.Prelude.{some, false, [], List, ◌∷◌, ◌≡◌, arith}
use crate_python.Prelude.Int.{pos}
use crate_python.Json.{Json}

abbrev fresh : Session Unit
fresh = record { cursor = new_cursor; connection_closed = false; client = tt }

abbrev three_rows : List Json
three_rows = Json.num (pos 1) ∷ Json.num (pos 2) ∷ Json.num (pos 3) ∷ []

fetchall_lem_example : fetchall 4 (holding fresh three_rows) ≡ (ok three_rows, holding fresh [])
fetchall_lem_example = fetchall_lem fresh 4 three_rows (omega arith)

fetchmany_lem_example :
    fetchmany 0 (some (pos 2)) (holding fresh three_rows)
    ≡ (ok (Json.num (pos 1) ∷ Json.num (pos 2) ∷ []), holding fresh (Json.num (pos 3) ∷ []))
fetchmany_lem_example = fetchmany_lem fresh 0 2 three_rows (omega arith)
