-- ===== src/Tests/Expressions.antt =====
-- Expressions, and statements before they are executed.
use crate_python.Sqlalchemy.Statements.{visit_getitem_binary, visit_any}
use crate_python.Prelude.Dict.{lookup}
use crate_python.Prelude.{refl, none, true, [], ◌∷◌, List, Text, str, ◌≡◌, false}
use crate_python.Exec.{ok, err}
use crate_python.Json
use crate_python.Json.{Json}
use crate_python.Sqlalchemy.Compiler.{plain}
use crate_python.Sqlalchemy.Columns.{
  process, compiled, any, geopoint_bind, geopoint_result, point, not_iterable,
}
use crate_python.Sqlalchemy.Columns.Paths.{path, has, process-injective}
use crate_python.Sqlalchemy.Crud.{Execution, crate_before_execute}
use crate_python.Sqlalchemy.Crud.Whole.{crate_before_execute-AreWhole, AreWhole}

abbrev size_path : List Text
size_path = str "box" ∷ str "size" ∷ []

process_test :
    process (path (compiled (str "t.details")) size_path) ≡ str "t.details['box']['size']"
unfolding process path str visit_getitem_binary
process_test = refl

-- A key with quotes prints as two keys do.
quotes_test :
    process (path (compiled (str "d")) (str "a']['b" ∷ []))
    ≡ process (path (compiled (str "d")) (str "a" ∷ str "b" ∷ []))
unfolding process path str visit_getitem_binary
quotes_test = refl

any_test :
    process (any (compiled (str "tags")) (compiled (str "?")) (str " = ")) ≡ str "? = ANY (tags)"
unfolding process any str visit_any
any_test = refl

process-injective_example : (str "d" ≡ str "d") × (size_path ≡ size_path)
unfolding has str
process-injective_example =
    process-injective (str "d") (str "d") size_path size_path refl refl (refl, (refl, tt))
      (refl, (refl, tt)) refl

geopoint_test :
    (geopoint_result (geopoint_bind (point (Json.null ∷ []))) ≡ ok (Json.null ∷ []))
    × (geopoint_result Json.null ≡ err not_iterable)
unfolding geopoint_result geopoint_bind Json.of_items Json.items
geopoint_test = (refl, refl)

abbrev two_rows : Execution
two_rows = record {
  multiparams = ((str "id", plain Json.null) ∷ []) ∷ ((str "id", plain (Json.text [])) ∷ []) ∷ [];
  values = none;
  crate_specific = false;
}

two_rows-AreWhole : AreWhole two_rows.multiparams
unfolding lookup
two_rows-AreWhole = (((refl, tt), tt), (((refl, tt), tt), tt))

crate_before_execute-AreWhole_example :
    (crate_before_execute true true two_rows).multiparams ≡ two_rows.multiparams
crate_before_execute-AreWhole_example =
    crate_before_execute-AreWhole true true two_rows two_rows-AreWhole
