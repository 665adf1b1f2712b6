-- ===== src/Tests/Bulk.antt =====
-- `executemany` with two sets of parameters, of which the second changes no row.
use crate_python.Cursor.Executemany.Sums.{BulkAnswer, executemany-bulk, executemany-one_by_one}
use crate_python.Version.{version, version_lt}
use crate_python.Exec.{Exec, ok}
use crate_python.Cursor.Executemany.{has_bulk, executemany}
use crate_python.Cursor.Executemany.Totals.{IsOpen, Answer, Totals}
use crate_python.Cursor.{Session, new_cursor}
use crate_python.Prelude.Int.{ℤ, pos, negsuc}
use crate_python.Json.{Fields, Json, field, end}
use crate_python.Prelude.{refl, some, true, false, [], str, text_eq, Option, ◌≡◌, ◌∷◌, text_lt}
use crate_python.Json

abbrev counted_fields : ℤ → Fields
counted_fields n = field (str "rowcount") (Json.num n) end

abbrev bulk_fields : Fields
bulk_fields = field (str "cols") (Json.arr Json.nil) (
    field (str "duration") (Json.num (pos 4)) (
      field (str "results")
        (Json.arr (
          Json.cons (Json.obj (counted_fields (pos 3)))
            (Json.cons (Json.obj (counted_fields (negsuc 0))) Json.nil)))
        end))

abbrev single_fields : ℤ → Fields
single_fields n = field (str "cols") (Json.arr Json.nil) (
    field (str "duration") (Json.num (pos 4))
      (field (str "rows") (Json.arr Json.nil) (counted_fields n)))

-- A client that answers so and keeps no state.
abbrev answering : Fields → Exec (Unit {0}) (Option Fields)
answering fs c = (ok (some fs), c)

abbrev open_session : Session (Unit {0})
open_session = record { cursor = new_cursor; connection_closed = false; client = tt }

open_session-IsOpen : IsOpen open_session
open_session-IsOpen = record { connection = refl; cursor = refl }

bulk_answer : BulkAnswer (answering bulk_fields) tt tt (pos 3 ∷ negsuc 0 ∷ []) (pos 4)
unfolding Json.get str text_eq Json.of_items
bulk_answer = record {
  fields = bulk_fields;
  results = _;
  answers = refl;
  has_no_rows = refl;
  has_results = refl;
  has_counts =
      ((counted_fields (pos 3), refl, refl), ((counted_fields (negsuc 0), refl, refl), tt));
  has_duration = refl;
}

single-Answer : (n : ℤ) → Answer (answering (single_fields n)) tt tt n (pos 4)
unfolding Json.get str text_eq
single-Answer n = record {
  fields = single_fields n;
  rows = Json.nil;
  answers = refl;
  has_rows = refl;
  has_count = refl;
  has_duration = refl;
}

version_test : has_bulk (version 2 3 0) ≡ true
unfolding has_bulk version_lt text_lt version
version_test = refl

old_version_test : has_bulk (version 0 41 0) ≡ false
unfolding has_bulk version_lt text_lt version
old_version_test = refl

executemany-bulk_example :
    (v : Json) × (t : Session (Unit {0})) × (executemany
        (version 2 3 0)
        (answering bulk_fields)
        []
        open_session
      ≡ (ok v, t))
    × Totals (3 ∷ []) (4 ∷ []) t
    × (t.client ≡ tt)
executemany-bulk_example =
    executemany-bulk (version 2 3 0) (answering bulk_fields) [] open_session tt
      (pos 3 ∷ negsuc 0 ∷ []) (pos 4) version_test open_session-IsOpen bulk_answer

executemany-one_by_one_example :
    (v : Json) × (t : Session (Unit {0})) × (executemany
        (version 0 41 0)
        (answering bulk_fields)
        (answering (single_fields (pos 3)) ∷ answering (single_fields (negsuc 0)) ∷ [])
        open_session
      ≡ (ok v, t))
    × Totals (3 ∷ []) (4 ∷ 4 ∷ []) t
    × (t.client ≡ tt)
executemany-one_by_one_example =
    executemany-one_by_one (version 0 41 0) (answering bulk_fields)
      (answering (single_fields (pos 3))) (answering (single_fields (negsuc 0)) ∷ []) open_session
      tt (pos 3 ∷ negsuc 0 ∷ []) (pos 4 ∷ pos 4 ∷ []) old_version_test open_session-IsOpen
      (tt, single-Answer (pos 3), (tt, single-Answer (negsuc 0), refl))
