-- ===== src/Tests/Reflection.antt =====
-- Reflection on a server of version 4.0 that has the tables `locations` and `notes`.
use crate_python.Prelude.Dict.{lookup}
use crate_python.Http.Url.{one_text}
use crate_python.Sqlalchemy.Dialect.Keys.{get_pk_constraint}
use crate_python.Sqlalchemy.Dialect.Keys.Laws.{get_pk_constraint_lem, cells_of, Distinct}
use crate_python.Sqlalchemy.Dialect.{
  numeric, Query, VersionInfo, info_lt, schema_column, connect_servers, resolve_type, types_map,
  array_of, user_defined,
}
use crate_python.Exec.{Exec, ok}
use crate_python.Prelude.{
  refl, none, false, [], Text, List, ◌≡◌, ◌∷◌, str, contains, text_lt, some, text_eq,
}

abbrev names : List Text
names = str "locations" ∷ str "notes" ∷ []

abbrev answering : {A : Type 0} → A → Query → Exec (Unit {0}) A
answering a q s = (ok a, s)

abbrev info : VersionInfo
info = (4, 0, 0)

schema_column_test :
    (schema_column (0, 57, 0) ≡ str "table_schema") × (schema_column (0, 56, 9) ≡ str "schema_name")
unfolding schema_column info_lt text_lt str
schema_column_test = (refl, refl)

info_is_new : info_lt info (2, 3, 0) ≡ false
unfolding info_lt text_lt
info_is_new = refl

get_pk_constraint_lem_example :
    (columns : List Text) × (get_pk_constraint
        (answering (cells_of names))
        info
        (str "links")
        none
        tt
      ≡ (ok columns, tt))
    × Distinct columns
    × ((t : Text) → contains t columns ≡ contains t names)
get_pk_constraint_lem_example =
    get_pk_constraint_lem (answering (cells_of names)) info (str "links") none names tt tt
      info_is_new refl

connect_servers_test :
    (connect_servers (some (str "db")) none none ≡ some (one_text (str "db:4200")))
    × (connect_servers (some (str "db")) (some (str "1")) (some (one_text (str "a:2")))
        ≡ some (one_text (str "a:2")))
    × (connect_servers (some (str "db")) none (some (one_text [])) ≡ none)
unfolding connect_servers str
connect_servers_test = (refl, refl, refl)

resolve_type_test :
    (resolve_type (str "bigint_array") ≡ array_of numeric)
    × (resolve_type (str "ip") ≡ user_defined)
unfolding resolve_type types_map lookup str text_eq
resolve_type_test = (refl, refl)
