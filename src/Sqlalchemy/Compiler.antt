-- ===== src/Sqlalchemy/Compiler.antt =====
-- sqlalchemy/compiler.py, `rewrite_update`: an update of an object column becomes assignments to its
-- changed and deleted keys alone.
pub mod Partial
pub mod Stored
pub mod Outside
use crate_python.Sqlalchemy.Types.{MutableDict, member}
use crate_python.Prelude.{
  refl, true, false, [], List, Text, Bool, ◌∷◌, ◌++◌, if◌then◌else◌, str, not, ◌&&◌,
}
use crate_python.Prelude.Dict.{Dict, lookup, insert}
use crate_python.Json
use crate_python.Json.{Json}

-- A parameter of the statement.
pub data Value : Type 0 where
  plain : Json → Value
  tracked : MutableDict → Value

-- `any(keys)`: a key that is an empty text does not count.
unfoldable pub any_key : List Text → Bool
any_key [] = false
any_key ([] ∷ keys) = any_key keys
any_key ((c ∷ k) ∷ keys) = true

-- The subkeys that are assigned, with their values: first the changed keys that are there, in the
-- order of the items, then the deleted keys, with `None`.
unfoldable pub changed_items : List Text → Dict Json → Dict Json
changed_items changed [] = []
changed_items changed ((k, v) ∷ items) =
    let rest = changed_items changed items in if member k changed then (k, v) ∷ rest else rest

unfoldable pub deleted_items : List Text → Dict Json
deleted_items [] = []
deleted_items (k ∷ keys) = (k, Json.null) ∷ deleted_items keys

unfoldable pub partial_items : MutableDict → Dict Json
partial_items d = changed_items d.changed_keys d.items ++ deleted_items d.deleted_keys

-- `"{0}['{1}']".format(key, subkey)`
unfoldable pub subscript : Text → Text → Text
subscript key subkey = key ++ (str "['" ++ (subkey ++ str "']"))

-- `newparams["{0}['{1}']".format(key, subkey)] = subval`, for each
unfoldable pub assign_items : Text → Dict Json → Dict Value → Dict Value
assign_items key [] newparams = newparams
assign_items key ((k, v) ∷ items) newparams =
    assign_items key items (insert (subscript key k) (plain v) newparams)

-- The body of the loop over the items of a set of parameters.
unfoldable pub rewrite_param : Text → Value → Dict Value → Dict Value
rewrite_param key (plain v) newparams = insert key (plain v) newparams
rewrite_param key (tracked d) newparams =
    if not (any_key d.changed_keys) && not (any_key d.deleted_keys)
    then insert key (tracked d) newparams
    else assign_items key (partial_items d) newparams

unfoldable pub rewrite_params : Dict Value → Dict Value → Dict Value
rewrite_params [] newparams = newparams
rewrite_params ((key, v) ∷ params) newparams = rewrite_params params (rewrite_param key v newparams)

-- The new parameters of `rewrite_update`, for each set of parameters.
unfoldable pub rewrite_update : List (Dict Value) → List (Dict Value)
rewrite_update [] = []
rewrite_update (params ∷ rest) = rewrite_params params [] ∷ rewrite_update rest
