-- ===== src/Sqlalchemy/Crud/Required.antt =====
-- Which parameters the caller of a statement has to give.
use crate_python.Prelude.{
  none, some, [], ◌∷◌, Option, List, Text, if◌then◌else◌, ◌&&◌, ◌≡◌, refl, contains, arith,
  text_eq_iff, ◌∙◌,
}
use crate_python.Prelude.Dict.{Dict, lookup, lookup-insert}
use crate_python.Sqlalchemy.Compiler.{Value}
use crate_python.Sqlalchemy.Crud.{CrudModule, add_required, required_of, is_missing}

module _ {P : Type 0} (crud : CrudModule P) (is_key : (k : Text) → crud.column_as_key k ≡ k) where
  lookup-add_required :
      (k : Text) (keys : List Text) (given : Option (Dict Value)) (d : Dict P)
      → lookup k (add_required crud keys given d)
        ≡ (if contains k keys && is_missing k given then some crud.required else lookup k d)
  unfolding add_required contains
  lookup-add_required k [] given d = refl
  lookup-add_required k (j ∷ keys) given d =
      lookup-add_required k keys given _
      ∙ ground
          (arith, is_key j, lookup-insert (crud.column_as_key j) k crud.required d, text_eq_iff j k)

  -- Of a statement whose columns' keys are as they are: a key is marked as required exactly if it is
  -- one of the compiled keys and the statement gives no value for it.
  pub required_of_lem :
      (k : Text) (keys : List Text) (given : Option (Dict Value))
      → lookup k (required_of crud (some keys) given)
        ≡ (if contains k keys && is_missing k given then some crud.required else none)
  unfolding required_of lookup
  required_of_lem k keys given = lookup-add_required k keys given []
