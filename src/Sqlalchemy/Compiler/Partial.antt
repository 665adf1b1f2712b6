-- ===== src/Sqlalchemy/Compiler/Partial.antt =====
-- The assignments that `rewrite_update` makes of a changed dictionary do to the stored object what was
-- done to the dictionary.
use crate_python.Sqlalchemy.Types.Tracks.{Tracks}
use crate_python.Sqlalchemy.Types.{member, MutableDict}
use crate_python.Sqlalchemy.Compiler.{deleted_items, changed_items, partial_items}
use crate_python.Json.{Json}
use crate_python.Prelude.Dict.{Dict, lookup, insert, NodupKeys, lookup-insert}
use crate_python.Prelude.{
  refl, none, some, [], Option, ◌++◌, ◌≡◌, Text, List, if◌then◌else◌, ◌∷◌, arith, text_eq_iff, ap,
  ◌∙◌,
}

abbrev pub or_else : {A : Type 0} → Option A → Option A → Option A
or_else none o = o
or_else (some a) o = some a

-- What the server does with assignments to subkeys, one after the other.
unfoldable pub apply_all : Dict Json → Dict Json → Dict Json
apply_all [] stored = stored
apply_all ((k, v) ∷ assignments) stored = apply_all assignments (insert k v stored)

apply_all-append :
    (xs ys stored : Dict Json) → apply_all (xs ++ ys) stored ≡ apply_all ys (apply_all xs stored)
unfolding apply_all
apply_all-append [] ys stored = refl
apply_all-append ((k, v) ∷ xs) ys stored = apply_all-append xs ys (insert k v stored)

apply_all-deleted_items :
    (j : Text) (keys : List Text) (stored : Dict Json)
    → lookup j (apply_all (deleted_items keys) stored)
      ≡ (if member j keys then some Json.null else lookup j stored)
unfolding apply_all deleted_items member
apply_all-deleted_items j [] stored = refl
apply_all-deleted_items j (k ∷ keys) stored = ground (
  arith,
  apply_all-deleted_items j keys (insert k Json.null stored),
  lookup-insert k j Json.null stored,
)

apply_all-changed_items :
    (j : Text) (changed : List Text) (items stored : Dict Json)
    → NodupKeys items
    → lookup j (apply_all (changed_items changed items) stored)
      ≡ (if member j changed then or_else (lookup j items) (lookup j stored) else lookup j stored)
unfolding apply_all changed_items lookup
apply_all-changed_items j changed [] stored n = ground arith
apply_all-changed_items j changed ((k, v) ∷ items) stored (n, ns) = ground (
  arith,
  apply_all-changed_items j changed items stored ns,
  apply_all-changed_items j changed items (insert k v stored) ns,
  lookup-insert k j v stored,
  text_eq_iff k j,
)

pub apply_all-partial_items :
    (j : Text) (old : Dict Json) (d : MutableDict)
    → NodupKeys d.items
    → lookup j (apply_all (partial_items d) old) ≡ (
        if member j d.deleted_keys
        then some Json.null
        else if member j d.changed_keys
        then or_else (lookup j d.items) (lookup j old)
        else lookup j old)
unfolding partial_items
apply_all-partial_items j old d n =
    ap (lookup j)
      (apply_all-append (changed_items d.changed_keys d.items) (deleted_items d.deleted_keys) old)
    ∙ (apply_all-deleted_items j d.deleted_keys
          (apply_all (changed_items d.changed_keys d.items) old)
        ∙ ap (λ o. if member j d.deleted_keys then some Json.null else o)
            (apply_all-changed_items j d.changed_keys d.items old n))

-- Of a dictionary whose two sets say how it differs from the stored object, the assignments, one
-- after the other, leave in the object each deleted key null and every other key as the dictionary
-- has it.
pub partial_items_lem :
    (j : Text) (old : Dict Json) (d : MutableDict)
    → Tracks old d
    → lookup j (apply_all (partial_items d) old)
      ≡ (if member j d.deleted_keys then some Json.null else lookup j d.items)
partial_items_lem j old d t =
    ground (arith, apply_all-partial_items j old d t.nodup, t.same j, t.there j)
