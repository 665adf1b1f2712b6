-- ===== src/Tests/Lists.antt =====
-- A list of two items.
use crate_python.Exceptions.{builtin_error, index_error}
use crate_python.Exec.{ok, err, raise}
use crate_python.Prelude.Int.{pos, negsuc}
use crate_python.Prelude.{refl, false, [], Bool, ◌∷◌, ◌≡◌, str}
use crate_python.Sqlalchemy.Lists
use crate_python.Sqlalchemy.Lists.{
  call_method, MutableList, Method, remove_at, set_at, insert_at, index_of,
}
use crate_python.Sqlalchemy.Lists.Laws.{IsCalled, call_method-IsCalled}
use crate_python.Json.{Json}

abbrev pair : MutableList
pair = record { items = Json.num (pos 1) ∷ Json.num (pos 2) ∷ []; changes = 0 }

abbrev never : Json → Json → Bool
never u v = false

pop_test :
    (call_method never (Lists.pop (negsuc 0)) pair
      ≡ (ok tt, record { items = Json.num (pos 1) ∷ []; changes = 1 }))
    × (call_method never (Lists.pop (pos 2)) pair
        ≡ (err (builtin_error index_error (str "pop index out of range")), pair))
unfolding call_method remove_at raise
pop_test = (refl, refl)

call_method-IsCalled_example :
    IsCalled never (Lists.pop (negsuc 1)) pair (call_method never (Lists.pop (negsuc 1)) pair)
call_method-IsCalled_example = call_method-IsCalled never (Lists.pop (negsuc 1)) pair
