-- ===== src/Sqlalchemy/Compiler/Outside.antt =====
-- A dictionary is deleted from an object column, and changed after that.
use crate_python.Exec.{ok}
use crate_python.Json.{Json}
use crate_python.Prelude.Dict.{Dict, lookup}
use crate_python.Prelude.{none, Text, ◌≡◌, refl, ◌∙◌, subst, sym}
use crate_python.Sqlalchemy.Types.{MutableDict, del_item, Change, on_key_changed}
use crate_python.Sqlalchemy.Types.Tracks.{Tracks}
use crate_python.Sqlalchemy.Types.Outside.{
  Inner, change_inner, change_inner-on_key_changed, IsErased, del_item-IsErased,
  member-on_key_changed, items-on_key_changed,
}
use crate_python.Sqlalchemy.Compiler.{partial_items}
use crate_python.Sqlalchemy.Compiler.Partial.{apply_all, apply_all-partial_items}

-- The key is gone from the dictionary, and a partial update leaves it in the stored object.
abbrev pub IsLeft : Text → Dict Json → MutableDict → Type 0
IsLeft k old d =
    (lookup k d.items ≡ none) × (lookup k (apply_all (partial_items d) old) ≡ lookup k old)

on_key_changed-IsLeft :
    (k : Text) (old : Dict Json) (e : MutableDict)
    → IsErased k e
    → IsLeft k old (on_key_changed k e)
on_key_changed-IsLeft k old e (gone, nodup) =
    let (kept, changed) = member-on_key_changed k e in
    let same = items-on_key_changed k e in
    (
      rw same gone,
      apply_all-partial_items k old (on_key_changed k e) (rw same nodup)
          ∙ rw (kept, changed, same, gone) refl,
    )

-- An object column was loaded as `old` and has been changed in any way that keeps its records of the
-- changes. A key is deleted, and then a dictionary that was made under this key is changed by itself,
-- neither of which raises. The key is gone from the application's dictionary, but the partial update
-- leaves the stored object's value of this key as it was: the change has taken the key off the deleted
-- ones.
pub change_inner-partial_items :
    (old : Dict Json) (d e e' : MutableDict) (c : Change) (inner inner' : Inner)
    → Tracks old d
    → del_item inner.overwrite_key d ≡ ok e
    → change_inner c inner e ≡ ok (inner', e')
    → (lookup inner.overwrite_key e'.items ≡ none)
      × (lookup inner.overwrite_key (apply_all (partial_items e') old)
          ≡ lookup inner.overwrite_key old)
change_inner-partial_items old d e e' c inner inner' t h k =
    subst (IsLeft inner.overwrite_key old) (sym (change_inner-on_key_changed c inner inner' e e' k))
      (on_key_changed-IsLeft inner.overwrite_key old e
        (del_item-IsErased inner.overwrite_key d e t.nodup h))
