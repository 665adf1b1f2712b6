-- ===== src/Sqlalchemy/Ddl/Flat.antt =====
-- Which types compile.
use crate_python.Exec.{ok, err}
use crate_python.Prelude.{
  refl, false, inl, inr, ◌≡◌, Text, Option, ℕ, ◌⊎◌, Bool-cases, arith, str, ◌++◌,
}
use crate_python.Sqlalchemy.Ddl.{SqlType, compile_type, is_multidimensional, no_multidimensional}
use crate_python.Sqlalchemy.Ddl

-- No array in the type, however deep, has more than one dimension.
abbrev pub IsFlat : SqlType → Type 0
IsFlat (Ddl.array dimensions t) = (is_multidimensional dimensions ≡ false) × IsFlat t
IsFlat _ = Unit

abbrev Compiles : SqlType → Type 0
Compiles t =
    (IsFlat t × (s : Text) × (compile_type t ≡ ok s))
    ⊎ (¬ IsFlat t) × (compile_type t ≡ err no_multidimensional)

array-Compiles :
    (dimensions : Option ℕ) (t : SqlType) → Compiles t → Compiles (Ddl.array dimensions t)
unfolding compile_type
array-Compiles dimensions t h = elim (Bool-cases (is_multidimensional dimensions)) [
  | inl deep ↦ inr ((λ flat. ground (arith, deep, flat.0)), rw deep refl)
  | inr flat ↦ elim h [
    | inl (t_flat, s, e) ↦ inl ((flat, t_flat), str "ARRAY(" ++ (s ++ str ")"), rw (flat, e) refl)
    | inr (not_flat, e) ↦ inr ((λ f. not_flat f.1), rw (flat, e) refl)
  ]
]

-- A type in which no array has more than one dimension compiles to a text; any other raises
-- NotImplementedError.
pub compile_type_lem :
    (t : SqlType)
    → (IsFlat t × (s : Text) × (compile_type t ≡ ok s))
      ⊎ (¬ IsFlat t) × (compile_type t ≡ err no_multidimensional)
unfolding compile_type
compile_type_lem (Ddl.array dimensions t) = array-Compiles dimensions t (compile_type_lem t)
compile_type_lem (Ddl.other s) = inl (tt, _, refl)
compile_type_lem Ddl.string = inl (tt, _, refl)
compile_type_lem Ddl.unicode = inl (tt, _, refl)
compile_type_lem Ddl.text = inl (tt, _, refl)
compile_type_lem Ddl.decimal = inl (tt, _, refl)
compile_type_lem Ddl.bigint = inl (tt, _, refl)
compile_type_lem Ddl.numeric = inl (tt, _, refl)
compile_type_lem Ddl.integer = inl (tt, _, refl)
compile_type_lem Ddl.smallint = inl (tt, _, refl)
compile_type_lem Ddl.datetime = inl (tt, _, refl)
compile_type_lem Ddl.date = inl (tt, _, refl)
compile_type_lem Ddl.object = inl (tt, _, refl)
compile_type_lem Ddl.object_array = inl (tt, _, refl)
compile_type_lem Ddl.geopoint = inl (tt, _, refl)
compile_type_lem Ddl.geoshape = inl (tt, _, refl)
