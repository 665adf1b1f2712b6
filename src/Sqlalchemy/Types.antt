-- ===== src/Sqlalchemy/Types.antt =====
-- sqlalchemy/types.py, `MutableDict`: a dictionary that knows which of its keys were changed or
-- deleted. A dictionary inside it reports a change to the root, under the root's key above it.
pub mod Tracks
pub mod Outside
use crate_python.Exceptions.{builtin_error, key_error, type_error}
use crate_python.Exec.{Result, err, ok, on_ok}
use crate_python.Prelude.{
  refl, none, some, false, [], Text, List, Bool, if◌then◌else◌, ◌∷◌, text_eq, ◌||◌, str,
}
use crate_python.Prelude.Dict.{Dict, lookup, insert, erase}
use crate_python.Json
use crate_python.Json.{Json, Fields, end, field}

-- A set of keys, in the order in which they were added.
unfoldable pub member : Text → List Text → Bool
member k [] = false
member k (j ∷ set) = text_eq j k || member k set

unfoldable pub add : Text → List Text → List Text
add k set = if member k set then set else k ∷ set

unfoldable pub discard : Text → List Text → List Text
discard k [] = []
discard k (j ∷ set) = let rest = discard k set in if text_eq j k then rest else j ∷ rest

-- The root: its items, `_changed_keys` and `_deleted_keys`. The dictionaries inside it are the
-- objects among its values; their own two sets stay empty.
pub record MutableDict : Type 0 where
  pub items : Dict Json
  pub changed_keys : List Text
  pub deleted_keys : List Text

-- `MutableDict(initval)`
unfoldable pub make_dict : Dict Json → MutableDict
make_dict initval = record { items = initval; changed_keys = []; deleted_keys = [] }

unfoldable pub on_key_changed : Text → MutableDict → MutableDict
on_key_changed k d = record d {
  changed_keys = add k d.changed_keys;
  deleted_keys = discard k d.deleted_keys;
}

-- `__setitem__` of the root, with a plain JSON value
unfoldable pub set_item : Text → Json → MutableDict → MutableDict
set_item k v d = on_key_changed k (record d { items = insert k v d.items })

-- `__delitem__` of the root
unfoldable pub del_item : Text → MutableDict → Result MutableDict
del_item k d = elim (lookup k d.items) [
  | none ↦ err (builtin_error key_error k)
  | some v ↦ ok (record d { items = erase k d.items; deleted_keys = add k d.deleted_keys })
]

unfoldable pub put_field : Text → Json → Fields → Fields
put_field k v end = field k v end
put_field k v (field j w fs) = if text_eq j k then field j v fs else field j w (put_field k v fs)

unfoldable pub drop_field : Text → Fields → Fields
drop_field k end = end
drop_field k (field j w fs) = if text_eq j k then fs else field j w (drop_field k fs)

-- What is done to a dictionary inside: an assignment or a deletion.
pub data Change : Type 0 where
  assign : Text → Json → Change
  delete : Text → Change

change_fields : Change → Fields → Result Fields
change_fields (assign k v) fs = ok (put_field k v fs)
change_fields (delete k) fs = elim (Json.get k fs) [
  | none ↦ err (builtin_error key_error k)
  | some v ↦ ok (drop_field k fs)
]

-- The change, in the dictionary at the end of a path of keys.
unfoldable pub change_at : List Text → Change → Json → Result Json
unfolding change_fields
change_at [] c (Json.obj fs) = on_ok (change_fields c fs) (λ fs'. ok (Json.obj fs'))
change_at (k ∷ path) c (Json.obj fs) = elim (Json.get k fs) [
  | none ↦ err (builtin_error key_error k)
  | some v ↦ on_ok (change_at path c v) (λ v'. ok (Json.obj (put_field k v' fs)))
]
change_at path c _ = err (builtin_error type_error (str "object is not subscriptable"))

-- A change inside the value at the root's key `k`.
unfoldable pub change_inside : Text → List Text → Change → MutableDict → Result MutableDict
change_inside k path c d = elim (lookup k d.items) [
  | none ↦ err (builtin_error key_error k)
  | some v ↦
      on_ok (change_at path c v)
        (λ v'. ok (on_key_changed k (record d { items = insert k v' d.items })))
]

-- A statement of the program that changes the dictionary: an assignment of a plain JSON value to a key,
-- or a deletion of a key, by `d[k] = v` and `del d[k]`, at the root or in a dictionary inside it that is
-- reached through the root. Changes inside a list, and the methods that `dict` has besides (`pop`,
-- `popitem`, `update`, `clear`, `setdefault`), pass by the two sets in the code. A dictionary that was
-- taken out of the column and is stored again keeps its `_overwrite_key` in the code, and reports its
-- changes under the old key.
pub data Operation : Type 0 where
  at_root : Change → Operation
  inside : Text → List Text → Change → Operation

unfoldable pub operate : Operation → MutableDict → Result MutableDict
unfolding change_inside set_item del_item on_key_changed
operate (at_root (assign k v)) d = ok (set_item k v d)
operate (at_root (delete k)) d = del_item k d
operate (inside k path c) d = change_inside k path c d

unfoldable pub operate_all : List Operation → MutableDict → Result MutableDict
operate_all [] d = ok d
operate_all (o ∷ ops) d = on_ok (operate o d) (λ d'. operate_all ops d')
