-- ===== src/Sqlalchemy/Lists.antt =====
-- sqlalchemy/types.py, `MutableList`: a list that says when it was changed.
pub mod Laws
use crate_python.Prelude.{
  zero, suc, none, some, [], List, Option, ℕ, Bool, Text, ◌∷◌, if◌then◌else◌, str, ltb, length, ◌-◌,
  ◌++◌,
}
use crate_python.Exceptions.{Exn, builtin_error, index_error, value_error}
use crate_python.Exec.{Exec, raise, ok}
use crate_python.Json
use crate_python.Json.{Json}
use crate_python.Prelude.Int.{ℤ, pos, negsuc}

-- The items, and how often `changed` was called.
pub record MutableList : Type 0 where
  pub items : List Json
  pub changes : ℕ

-- `MutableList(initval)`, and the two sorts of value that `coerce` wraps; `None` stays as it is.
unfoldable pub make_list : List Json → MutableList
make_list initval = record { items = initval; changes = 0 }

abbrev items_of : Json.Items → List Json
items_of Json.nil = []
items_of (Json.cons v vs) = v ∷ items_of vs

unfoldable pub coerce : Json → Option MutableList
unfolding make_list
coerce Json.null = none
coerce (Json.arr vs) = some (make_list (items_of vs))
coerce v = some (make_list (v ∷ []))

-- The place that an index means in a list of `n` items, if there is one.
abbrev pub place : ℕ → ℤ → Option ℕ
place n (pos k) = if ltb k n then some k else none
place n (negsuc k) = if ltb k n then some (n - suc k) else none

-- The place at which `insert` puts an item: an index beyond an end means that end.
abbrev pub insert_place : ℕ → ℤ → ℕ
insert_place n (pos k) = if ltb k n then k else n
insert_place n (negsuc k) = n - suc k

unfoldable pub set_at : ℕ → Json → List Json → List Json
set_at k v [] = []
set_at zero v (u ∷ us) = v ∷ us
set_at (suc k) v (u ∷ us) = u ∷ set_at k v us

unfoldable pub insert_at : ℕ → Json → List Json → List Json
insert_at zero v us = v ∷ us
insert_at (suc k) v [] = v ∷ []
insert_at (suc k) v (u ∷ us) = u ∷ insert_at k v us

unfoldable pub remove_at : ℕ → List Json → List Json
remove_at k [] = []
remove_at zero (u ∷ us) = us
remove_at (suc k) (u ∷ us) = u ∷ remove_at k us

-- The place of the first item that equals the value
unfoldable pub index_of : (Json → Json → Bool) → Json → List Json → Option ℕ
index_of equal v [] = none
index_of equal v (u ∷ us) =
    let rest = index_of equal v us in
    if equal u v then some 0 else elim rest [ none ↦ none | some k ↦ some (suc k) ]

-- The methods that `MutableList` defines, of which `extend` is given a list. Those of `list` that it
-- inherits (`clear`, `sort`, `reverse`, `del`, `+=`) call no `changed()`.
pub data Method : Type 0 where
  set_item : ℤ → Json → Method
  append remove : Json → Method
  insert : ℤ → Json → Method
  extend : List Json → Method
  pop : ℤ → Method

-- `list.…` of the items, and then `self.changed()`
changed : List Json → Exec MutableList (Unit {0})
changed items l = (ok tt, record { items = items; changes = suc l.changes })

abbrev changed_at : Exn → Option ℕ → (ℕ → List Json) → Exec MutableList (Unit {0})
changed_at e none f = raise e
changed_at e (some k) f = changed (f k)

abbrev out_of_range : Text → Exn
out_of_range message = builtin_error index_error message

abbrev pop_message : List Json → Text
pop_message [] = str "pop from empty list"
pop_message (v ∷ vs) = str "pop index out of range"

-- Each method; none returns a value. `equal` is `==` of two items.
unfoldable pub call_method : (Json → Json → Bool) → Method → Exec MutableList (Unit {0})
unfolding changed
call_method equal (set_item i v) l =
    changed_at (out_of_range (str "list assignment index out of range")) (place (length l.items) i)
      (λ k. set_at k v l.items) l
call_method equal (append v) l = changed (l.items ++ (v ∷ [])) l
call_method equal (insert i v) l = changed (insert_at (insert_place (length l.items) i) v l.items) l
call_method equal (extend vs) l = changed (l.items ++ vs) l
call_method equal (pop i) l =
    changed_at (out_of_range (pop_message l.items)) (place (length l.items) i)
      (λ k. remove_at k l.items) l
call_method equal (remove v) l =
    changed_at (builtin_error value_error (str "list.remove(x): x not in list"))
      (index_of equal v l.items) (λ k. remove_at k l.items) l
