-- ===== src/Sqlalchemy/Dialect/Keys/Laws.antt =====
-- The primary key as a set.
use crate_python.Exec.{Exec, ok, ◌>>=◌}
use crate_python.Sqlalchemy.Dialect.{Query, VersionInfo, info_lt}
use crate_python.Sqlalchemy.Dialect.Keys.{to_set, get_pk_constraint, pk_names, Cell, pk_query}
use crate_python.Prelude.{
  refl, false, [], List, Text, ◌∷◌, ◌≡◌, arith, text_eq_iff, Option, inl, inr, Bool-cases, contains,
}

abbrev pub Distinct : List Text → Type 0
Distinct [] = Unit
Distinct (t ∷ ts) = (contains t ts ≡ false) × Distinct ts

to_set-Distinct : (ts : List Text) → Distinct (to_set ts)
unfolding to_set
to_set-Distinct [] = tt
to_set-Distinct (t ∷ ts) = ground (arith, to_set-Distinct ts)

contains-to_set : (u : Text) (ts : List Text) → contains u (to_set ts) ≡ contains u ts
unfolding to_set contains
contains-to_set u [] = refl
contains-to_set u (t ∷ ts) = elim (Bool-cases (contains t (to_set ts))) [
  | inl old ↦ rw old (ground (arith, contains-to_set u ts, contains-to_set t ts, text_eq_iff t u))
  | inr new ↦ rw new (ground (arith, contains-to_set u ts))
]

abbrev pub cells_of : List Text → List (List Cell)
cells_of [] = []
cells_of (t ∷ ts) = (Cell.one t ∷ []) ∷ cells_of ts

pk_names-cells_of : (ts : List Text) → pk_names (cells_of ts) ≡ ok ts
unfolding pk_names
pk_names-cells_of [] = refl
pk_names-cells_of (t ∷ ts) = rw (pk_names-cells_of ts) refl

-- From version 2.3 on, if the server answers with a row for each column of the primary key, then the
-- columns that are returned are these, each once.
pub get_pk_constraint_lem :
    {S : Type 0} (execute : Query → Exec S (List (List Cell))) (info : VersionInfo) (table : Text)
    (schema : Option Text) (names : List Text) (s s' : S)
    → info_lt info (2, 3, 0) ≡ false
    → execute (pk_query info table schema) s ≡ (ok (cells_of names), s')
    → (columns : List Text) × (get_pk_constraint execute info table schema s ≡ (ok columns, s'))
      × Distinct columns
      × ((t : Text) → contains t columns ≡ contains t names)
unfolding get_pk_constraint ◌>>=◌
get_pk_constraint_lem execute info table schema names s s' new e = (
  to_set names,
  rw (e, new, pk_names-cells_of names) refl,
  to_set-Distinct names,
  λ t. contains-to_set t names,
)
