-- ===== src/Sqlalchemy/Types/Outside.antt =====
-- sqlalchemy/types.py: a dictionary inside a `MutableDict` is an object of its own. Whoever holds it may
-- change it by itself, also when it has been taken out of the root, and it still reports to the root.
use crate_python.Exceptions.{builtin_error, key_error}
use crate_python.Exec.OnOk.{OnOk, on_ok-OnOk, OnOk-any}
use crate_python.Json.{Json, Fields}
use crate_python.Sqlalchemy.Types.Tracks.{member-discard, member-add, erase-NodupKeys}
use crate_python.Prelude.{
  refl, none, some, Text, ◌≡◌, arith, true, false, text_eq_iff, Option, subst, [],
}
use crate_python.Exec.{Result, ok, err, on_ok}
use crate_python.Prelude.Dict.{lookup, erase, insert, NodupKeys, lookup-erase}
use crate_python.Sqlalchemy.Types.{
  MutableDict, on_key_changed, del_item, member, add, Change, change_fields, change_inside,
  change_at,
}

-- A dictionary that was made inside a root, which is its `to_update`: its items, and the root's key that
-- it was made under (`_overwrite_key`).
pub record Inner : Type 0 where
  pub items : Fields
  pub overwrite_key : Text

-- `__setitem__` or `__delitem__` of it
unfoldable pub change_inner : Change → Inner → MutableDict → Result (Inner × MutableDict)
unfolding change_fields
change_inner c inner root =
    on_ok (change_fields c inner.items)
      (λ fs. ok (record inner { items = fs }, on_key_changed inner.overwrite_key root))

-- While it stands under its key, a change of it is a change inside the root.
pub change_inside-change_inner :
    (k : Text) (c : Change) (fs : Fields) (root : MutableDict)
    → lookup k root.items ≡ some (Json.obj fs)
    → change_inside k [] c root
      ≡ on_ok
          (change_inner c (record { items = fs; overwrite_key = k }) root)
          (λ p. ok (record p.1 { items = insert k (Json.obj p.0.items) root.items }))
unfolding change_inside change_at change_inner on_key_changed
change_inside-change_inner k c fs root h = rw (change_inside, h) (go (change_fields c fs))
  where
    go :
        (r : Result Fields)
        → on_ok
            (on_ok r (λ fs'. ok (Json.obj fs')))
            (λ v'. ok (on_key_changed k (record root { items = insert k v' root.items })))
          ≡ on_ok {A = Inner × MutableDict}
              (on_ok r
                (λ fs'. ok (record { items = fs'; overwrite_key = k }, on_key_changed k root)))
              (λ p. ok (record p.1 { items = insert k (Json.obj p.0.items) root.items }))
    go (ok fs') = refl
    go (err e) = refl
    go Result.out_of_fuel = refl

pub change_inner-on_key_changed :
    (c : Change) (inner inner' : Inner) (root root' : MutableDict)
    → change_inner c inner root ≡ ok (inner', root')
    → root' ≡ on_key_changed inner.overwrite_key root
unfolding change_inner
change_inner-on_key_changed c inner inner' root root' h =
    subst (OnOk (λ p. p.1 ≡ on_key_changed inner.overwrite_key root)) h (
      on_ok-OnOk (λ fs. Unit) _ (change_fields c inner.items) _
        (OnOk-any (change_fields c inner.items)) (λ fs u. refl))

abbrev pub IsErased : Text → MutableDict → Type 0
IsErased k e = (lookup k e.items ≡ none) × NodupKeys e.items

found-IsErased :
    (k : Text) (d : MutableDict) (o : Option Json)
    → NodupKeys d.items
    → OnOk (IsErased k) (elim o [
      | none ↦ err (builtin_error key_error k)
      | some v ↦ ok (record d { items = erase k d.items; deleted_keys = add k d.deleted_keys })
    ])
found-IsErased k d none n = tt
found-IsErased k d (some v) n =
    (ground (arith, lookup-erase k k d.items, text_eq_iff k k), erase-NodupKeys k d.items n)

pub del_item-IsErased :
    (k : Text) (d e : MutableDict) → NodupKeys d.items → del_item k d ≡ ok e → IsErased k e
unfolding del_item
del_item-IsErased k d e n h = subst (OnOk (IsErased k)) h (found-IsErased k d (lookup k d.items) n)

pub member-on_key_changed :
    (k : Text) (d : MutableDict)
    → (member k (on_key_changed k d).deleted_keys ≡ false)
      × (member k (on_key_changed k d).changed_keys ≡ true)
unfolding on_key_changed
member-on_key_changed k d = (
  ground (arith, member-discard k k d.deleted_keys, text_eq_iff k k),
  ground (arith, member-add k k d.changed_keys, text_eq_iff k k),
)

pub items-on_key_changed : (k : Text) (d : MutableDict) → (on_key_changed k d).items ≡ d.items
unfolding on_key_changed
items-on_key_changed k d = refl
