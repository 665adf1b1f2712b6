-- ===== src/Tests/Objects.antt =====
-- Changes to an object column.
use crate_python.Sqlalchemy.Compiler.Outside.{change_inner-partial_items}
use crate_python.Sqlalchemy.Types.Outside.{Inner, change_inner}
use crate_python.Sqlalchemy.Compiler.Stored.{operate_all-partial_items}
use crate_python.Sqlalchemy.Compiler.{partial_items}
use crate_python.Exec.{ok}
use crate_python.Sqlalchemy.Compiler.Partial.{apply_all}
use crate_python.Json.{Json, field, end}
use crate_python.Sqlalchemy.Types.Tracks.{Tracks, operate_all-Tracks}
use crate_python.Sqlalchemy.Types.{
  delete, MutableDict, operate_all, Operation, make_dict, inside, assign, at_root, member, operate,
  change_at, add, put_field, discard, del_item, on_key_changed,
}
use crate_python.Prelude.Dict.{Dict, lookup, NodupKeys, insert, erase}
use crate_python.Prelude.{refl, some, [], List, str, ◌∷◌, ◌≡◌, text_eq, if◌then◌else◌, none, true}

abbrev old_items : Dict Json
old_items = (str "a", Json.text (str "x")) ∷ (str "b", Json.obj end) ∷ []

-- `d["b"]["c"] = None; del d["a"]`
abbrev changes : List Operation
changes = inside (str "b") [] (assign (str "c") Json.null) ∷ at_root (delete (str "a")) ∷ []

abbrev changed_object : MutableDict
changed_object = record {
  items = (str "b", Json.obj (field (str "c") Json.null end)) ∷ [];
  changed_keys = str "b" ∷ [];
  deleted_keys = str "a" ∷ [];
}

changes_test : operate_all changes (make_dict old_items) ≡ ok changed_object
unfolding operate_all make_dict operate lookup text_eq str change_at insert erase add put_field
    member discard
changes_test = refl

old_items-NodupKeys : NodupKeys old_items
unfolding lookup str text_eq
old_items-NodupKeys = (refl, (refl, tt))

operate_all-Tracks_example : Tracks old_items changed_object
operate_all-Tracks_example =
    operate_all-Tracks old_items changes changed_object old_items-NodupKeys changes_test

operate_all-partial_items_example :
    lookup (str "a") (apply_all (partial_items changed_object) old_items) ≡ (
      if member (str "a") changed_object.deleted_keys
      then some Json.null
      else lookup (str "a") changed_object.items)
operate_all-partial_items_example =
    operate_all-partial_items (str "a") old_items changes changed_object old_items-NodupKeys
      changes_test

-- `inner = d["b"]; del d["b"]; inner["c"] = True`
abbrev without_b : MutableDict
without_b = record {
  items = [];
  changed_keys = str "b" ∷ [];
  deleted_keys = str "b" ∷ str "a" ∷ [];
}

deletes_b : del_item (str "b") changed_object ≡ ok without_b
unfolding del_item lookup erase add member text_eq str
deletes_b = refl

abbrev inner : Inner
inner = record { items = field (str "c") Json.null end; overwrite_key = str "b" }

abbrev inner_with_true : Inner
inner_with_true = record inner { items = field (str "c") (Json.bool true) end }

abbrev reported : MutableDict
reported = record without_b { deleted_keys = str "a" ∷ [] }

changes_inner :
    change_inner (assign (str "c") (Json.bool true)) inner without_b
    ≡ ok (inner_with_true, reported)
unfolding change_inner put_field text_eq str add discard member on_key_changed
changes_inner = refl

change_inner-partial_items_example :
    (lookup (str "b") reported.items ≡ none)
    × (lookup (str "b") (apply_all (partial_items reported) old_items) ≡ lookup (str "b") old_items)
change_inner-partial_items_example =
    change_inner-partial_items old_items changed_object without_b reported
      (assign (str "c") (Json.bool true)) inner inner_with_true operate_all-Tracks_example deletes_b
      changes_inner
