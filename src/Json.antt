-- ===== src/Json.antt =====
-- JSON values as Python's `json` module gives and takes them. A number is an integer; fractions are
-- not modelled.
use crate_python.Prelude.{
  zero, suc, Bool, true, false, Option, none, some, List, [], ◌∷◌, Text, text_eq, if◌then◌else◌,
}
use crate_python.Prelude.Int.{ℤ, pos, negsuc}

mutual
  pub data Json : Type 0 where
    null : Json
    bool : Bool → Json
    num : ℤ → Json
    text : Text → Json
    arr : Items → Json
    obj : Fields → Json

  pub data Items : Type 0 where
    nil : Items
    cons : Json → Items → Items

  pub data Fields : Type 0 where
    end : Fields
    field : Text → Json → Fields → Fields

-- `bool(v)`
unfoldable pub truthy : Json → Bool
truthy null = false
truthy (bool b) = b
truthy (num (pos zero)) = false
truthy (num (pos (suc n))) = true
truthy (num (negsuc n)) = true
truthy (text []) = false
truthy (text (c ∷ s)) = true
truthy (arr nil) = false
truthy (arr (cons x xs)) = true
truthy (obj end) = false
truthy (obj (field k v fs)) = true

-- `d.get(k)`, with `none` for a key that is absent
unfoldable pub get : Text → Fields → Option Json
get k end = none
get k (field j v fs) = if text_eq j k then some v else get k fs

-- `d.get(k, default)`
abbrev pub get_or : Text → Json → Fields → Json
get_or k default fs = elim (get k fs) [ none ↦ default | some v ↦ v ]

unfoldable pub items : List Json → Items
items [] = nil
items (v ∷ vs) = cons v (items vs)

unfoldable pub of_items : Items → List Json
of_items nil = []
of_items (cons v vs) = v ∷ of_items vs

-- What the client uses of the module `json` and of `str` on JSON values. `loads` is `none` where
-- it raises `ValueError`.
pub record Library : Type 0 where
  pub loads : Text → Option Json
  pub dumps : Json → Text
  pub show : Json → Text
