-- ===== src/Sqlalchemy/Dialect/Keys.antt =====
-- sqlalchemy/dialect.py, `get_pk_constraint`: the primary key of a table, as a set of names.
pub mod Laws
-- A cell: a text, or an array of texts.

use crate_python.Exec.{Result, Exec, ok, ◌>>=◌, err, lift, on_ok, pure}
use crate_python.Exceptions.{Exn, builtin_error, index_error, type_error}
use crate_python.Sqlalchemy.Dialect.{VersionInfo, Query, info_lt, schema_column, or_default}
use crate_python.Prelude.{[], Text, List, ◌∷◌, Option, if◌then◌else◌, not, str, ◌++◌, contains}

pub data Cell : Type 0 where
  one : Text → Cell
  many : List Text → Cell

-- The elements that `set` iterates over: of a text, its characters.
abbrev pub elements : Cell → List Text
elements (one []) = []
elements (one (c ∷ s)) = (c ∷ []) ∷ elements (one s)
elements (many ts) = ts

abbrev pk_min_version : VersionInfo
pk_min_version = (2, 3, 0)

-- The statements of `get_pk_constraint`, up to the blanks between their words.
unfoldable pub pk_query : VersionInfo → Text → Option Text → Query
pk_query info table schema = record {
  text =
      if not (info_lt info pk_min_version)
      then str
          "SELECT column_name FROM information_schema.key_column_usage WHERE table_name = ? AND table_catalog = ?"
      else str
          "SELECT constraint_name FROM information_schema.table_constraints WHERE table_name = ? AND "
        ++ (schema_column info ++ str " = ? AND constraint_type='PRIMARY_KEY'");
  params = table ∷ or_default schema ∷ [];
}

no_cell : Exn
no_cell = builtin_error index_error (str "list index out of range")

-- `result_fun` from 2.3 on: the names in the first column
pk_names : List (List Cell) → Result (List Text)
unfolding no_cell
pk_names [] = ok []
pk_names ([] ∷ rows) = err no_cell
pk_names ((one t ∷ cs) ∷ rows) = on_ok (pk_names rows) (λ rest. ok (t ∷ rest))
pk_names ((many ts ∷ cs) ∷ rows) = err (builtin_error type_error (str "unhashable type: 'list'"))

-- `result_fun` before: `set(rows[0] if rows else [])` of the first row
first_pk : List (List Cell) → Result (List Text)
first_pk [] = ok []
first_pk ([] ∷ rows) = ok []
first_pk ((c ∷ cs) ∷ rows) = ok (elements c)

-- `set(map(lambda el: el[0], rows))`, a set in the order in which its elements came
unfoldable pub to_set : List Text → List Text
to_set [] = []
to_set (t ∷ ts) = let rest = to_set ts in if contains t rest then rest else t ∷ rest

unfoldable pub get_pk_constraint :
    {S : Type 0}
    → (Query → Exec S (List (List Cell)))
    → VersionInfo
    → Text
    → Option Text
    → Exec S (List Text)
unfolding pk_names first_pk
get_pk_constraint execute info table schema = do
  rows ← execute (pk_query info table schema)
  names ← lift (if not (info_lt info pk_min_version) then pk_names rows else first_pk rows)
  pure (to_set names)
