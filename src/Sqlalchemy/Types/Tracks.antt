-- ===== src/Sqlalchemy/Types/Tracks.antt =====
-- The two sets of a `MutableDict` say how its items differ from those it was made of.
use crate_python.Exec.OnOk.{OnOk, on_ok-OnOk, OnOk-any}
use crate_python.Sqlalchemy.Types.{
  Operation, at_root, inside, Change, assign, delete, change_at, change_inside, set_item, del_item,
  operate, operate_all, member, MutableDict, on_key_changed, make_dict, add, discard,
}
use crate_python.Prelude.{
  refl, none, true, false, [], Text, ◌≡◌, arith, List, ◌≢◌, text_eq, if◌then◌else◌, ◌∷◌, ◌||◌,
  text_eq_iff, some, Option, subst,
}
use crate_python.Prelude.Dict.{Dict, lookup, insert, erase, lookup-insert, lookup-erase, NodupKeys}
use crate_python.Exec.{ok, err, on_ok}
use crate_python.Exceptions.{builtin_error, key_error}
use crate_python.Json.{Json}

pub member-add :
    (k j : Text) (set : List Text) → member j (add k set) ≡ (text_eq k j || member j set)
unfolding member add
member-add k j set = ground (arith, text_eq_iff k j)

pub member-discard :
    (k j : Text) (set : List Text)
    → member j (discard k set) ≡ (if text_eq k j then false else member j set)
unfolding member discard
member-discard k j [] = ground arith
member-discard k j (i ∷ set) =
    ground (arith, member-discard k j set, text_eq_iff k j, text_eq_iff i k, text_eq_iff i j)

insert-NodupKeys :
    {V : Type 0} (k : Text) (v : V) (d : Dict V) → NodupKeys d → NodupKeys (insert k v d)
unfolding insert lookup
insert-NodupKeys k v [] h = (refl, tt)
insert-NodupKeys k v ((j, w) ∷ d) (h, hs) =
    ground
      (arith, lookup-insert k j v d, text_eq_iff k j, text_eq_iff j k, insert-NodupKeys k v d hs)

pub erase-NodupKeys : {V : Type 0} (k : Text) (d : Dict V) → NodupKeys d → NodupKeys (erase k d)
unfolding erase lookup
erase-NodupKeys k [] h = tt
erase-NodupKeys k ((j, w) ∷ d) (h, hs) = ground (arith, lookup-erase k j d, erase-NodupKeys k d hs)

-- `d` was made of the items `old`: a deleted key is gone; any other that is not changed is as it
-- was; a changed key that is not deleted is there; and no key stands twice.
pub record Tracks (old : Dict Json) (d : MutableDict) : Type 0 where
  pub gone : (k : Text) → member k d.deleted_keys ≡ true → lookup k d.items ≡ none
  pub same :
      (k : Text)
      → member k d.deleted_keys ≡ false
      → member k d.changed_keys ≡ false
      → lookup k d.items ≡ lookup k old
  pub there :
      (k : Text)
      → member k d.deleted_keys ≡ false
      → member k d.changed_keys ≡ true
      → lookup k d.items ≢ none
  pub nodup : NodupKeys d.items

-- The root's key `k` gets the value `v`.
changed-Tracks :
    (old : Dict Json) (k : Text) (v : Json) (d : MutableDict)
    → Tracks old d
    → Tracks old (on_key_changed k (record d { items = insert k v d.items }))
unfolding on_key_changed
changed-Tracks old k v d t = record {
  gone = λ j h.
      ground (arith, lookup-insert k j v d.items, member-discard k j d.deleted_keys, t.gone j);
  same = λ j h c. ground (
    arith,
    lookup-insert k j v d.items,
    member-discard k j d.deleted_keys,
    member-add k j d.changed_keys,
    t.same j,
  );
  there = λ j h c. ground (
    arith,
    lookup-insert k j v d.items,
    member-discard k j d.deleted_keys,
    member-add k j d.changed_keys,
    t.there j,
  );
  nodup = insert-NodupKeys k v d.items t.nodup;
}

deleted-Tracks :
    (old : Dict Json) (k : Text) (d : MutableDict)
    → Tracks old d
    → Tracks old (record d { items = erase k d.items; deleted_keys = add k d.deleted_keys })
deleted-Tracks old k d t = record {
  gone = λ j h. ground (arith, lookup-erase k j d.items, member-add k j d.deleted_keys, t.gone j);
  same = λ j h c. ground (arith, lookup-erase k j d.items, member-add k j d.deleted_keys, t.same j);
  there =
      λ j h c. ground (arith, lookup-erase k j d.items, member-add k j d.deleted_keys, t.there j);
  nodup = erase-NodupKeys k d.items t.nodup;
}

make_dict-Tracks : (old : Dict Json) → NodupKeys old → Tracks old (make_dict old)
unfolding make_dict member
make_dict-Tracks old n = record {
  gone = λ k h. ground arith;
  same = λ k h c. refl;
  there = λ k h c. ground arith;
  nodup = n;
}

del_item-Tracks :
    (old : Dict Json) (k : Text) (d : MutableDict) (o : Option Json)
    → Tracks old d
    → OnOk (Tracks old) (elim o [
      | none ↦ err (builtin_error key_error k)
      | some v ↦ ok (record d { items = erase k d.items; deleted_keys = add k d.deleted_keys })
    ])
del_item-Tracks old k d none t = tt
del_item-Tracks old k d (some v) t = deleted-Tracks old k d t

change_inside-Tracks :
    (old : Dict Json) (k : Text) (path : List Text) (c : Change) (d : MutableDict) (o : Option Json)
    → Tracks old d
    → OnOk (Tracks old) (elim o [
      | none ↦ err (builtin_error key_error k)
      | some v ↦
          on_ok
            (change_at path c v)
            (λ v'. ok (on_key_changed k (record d { items = insert k v' d.items })))
    ])
change_inside-Tracks old k path c d none t = tt
change_inside-Tracks old k path c d (some v) t =
    on_ok-OnOk (λ v. Unit) (Tracks old) (change_at path c v) _ (OnOk-any (change_at path c v))
      (λ v' u. changed-Tracks old k v' d t)

operate-Tracks :
    (old : Dict Json) (o : Operation) (d : MutableDict)
    → Tracks old d
    → OnOk (Tracks old) (operate o d)
unfolding operate set_item del_item change_inside
operate-Tracks old (at_root (assign k v)) d t = changed-Tracks old k v d t
operate-Tracks old (at_root (delete k)) d t = del_item-Tracks old k d (lookup k d.items) t
operate-Tracks old (inside k path c) d t = change_inside-Tracks old k path c d (lookup k d.items) t

operate_all-OnOk :
    (old : Dict Json) (ops : List Operation) (d : MutableDict)
    → Tracks old d
    → OnOk (Tracks old) (operate_all ops d)
unfolding operate_all
operate_all-OnOk old [] d t = t
operate_all-OnOk old (o ∷ ops) d t =
    on_ok-OnOk (Tracks old) (Tracks old) (operate o d) (operate_all ops) (operate-Tracks old o d t)
      (λ d' t'. operate_all-OnOk old ops d' t')

-- A dictionary made of items without a double key, changed by assignments of plain JSON values to keys
-- and deletions of keys, in any order, at the root or in the dictionaries inside it, none of which
-- raises: each deleted key is gone, each key in neither set has its old value, each changed key that is
-- not deleted is there, and no key stands twice.
pub operate_all-Tracks :
    (old : Dict Json) (ops : List Operation) (d : MutableDict)
    → NodupKeys old
    → operate_all ops (make_dict old) ≡ ok d
    → Tracks old d
operate_all-Tracks old ops d n e =
    subst (OnOk (Tracks old)) e (operate_all-OnOk old ops (make_dict old) (make_dict-Tracks old n))
