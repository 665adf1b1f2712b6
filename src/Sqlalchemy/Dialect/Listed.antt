-- ===== src/Sqlalchemy/Dialect/Listed.antt =====
-- What the answers of the server say of schemas, tables and columns.
use crate_python.Exec.{ok, Exec, ◌>>=◌}
use crate_python.Sqlalchemy.Dialect.{
  has_table, first_column, get_table_names, Query, VersionInfo, table_names_query,
}
use crate_python.Prelude.{
  refl, true, [], Text, List, ◌∷◌, ◌≡◌, ◌⊎◌, ◌↔◌, arith, text_eq_iff, Option, Bool, contains,
}

-- The text stands in the list.
abbrev pub IsIn : Text → List Text → Type 0
IsIn t [] = ⊥
IsIn t (u ∷ us) = (t ≡ u) ⊎ IsIn t us

pub contains-IsIn : (t : Text) (us : List Text) → (contains t us ≡ true) ↔ IsIn t us
unfolding contains
contains-IsIn t [] = ground arith
contains-IsIn t (u ∷ us) = ground (arith, contains-IsIn t us, text_eq_iff u t)

-- Rows of one cell each.
abbrev pub rows_of : List Text → List (List Text)
rows_of [] = []
rows_of (t ∷ ts) = (t ∷ []) ∷ rows_of ts

first_column-rows_of : (ts : List Text) → first_column (rows_of ts) ≡ ok ts
unfolding first_column
first_column-rows_of [] = refl
first_column-rows_of (t ∷ ts) = rw (first_column-rows_of ts) refl

-- If the server answers the query for the tables of a schema with `names`, then `has_table` says
-- whether the table is among them. It asks for the schema that is given, or `doc` if none is.
pub has_table_lem :
    {S : Type 0} (execute : Query → Exec S (List (List Text))) (info : VersionInfo) (table : Text)
    (schema : Option Text) (names : List Text) (s s' : S)
    → execute (table_names_query info schema) s ≡ (ok (rows_of names), s')
    → (b : Bool) × (has_table execute info table schema s ≡ (ok b, s'))
      × ((b ≡ true) ↔ IsIn table names)
unfolding has_table get_table_names ◌>>=◌
has_table_lem execute info table schema names s s' e =
    (contains table names, rw (e, first_column-rows_of names) refl, contains-IsIn table names)
