-- ===== src/Sqlalchemy/Crud/Whole.antt =====
-- Updates that are left as they are.
use crate_python.Sqlalchemy.Crud.{rewrite_clause, crate_before_execute, Execution}
use crate_python.Prelude.{
  none, [], ◌∷◌, ◌++◌, not, List, Text, ◌&&◌, ◌≡◌, true, refl, arith, text_eq_iff, append-nil,
  append_assoc, ap, ◌∙◌, text_eq, sym, ◌≢◌, Bool,
}
use crate_python.Prelude.Dict.{Dict, lookup, insert, NodupKeys}
use crate_python.Sqlalchemy.Compiler.{
  Value, plain, tracked, any_key, rewrite_param, rewrite_params, rewrite_update,
}

-- No object among the parameters has a changed or a deleted key that is not empty.
abbrev pub IsWhole : Dict Value → Type 0
IsWhole [] = Unit
IsWhole ((k, plain v) ∷ params) = IsWhole params
IsWhole ((k, tracked t) ∷ params) =
    ((not (any_key t.changed_keys) && not (any_key t.deleted_keys)) ≡ true) × IsWhole params

insert-new :
    {V : Type 0} (k : Text) (v : V) (d : Dict V)
    → lookup k d ≡ none
    → insert k v d ≡ d ++ (k, v) ∷ []
unfolding lookup insert
insert-new k v [] h = refl
insert-new k v ((j, w) ∷ d) h = ground (arith, insert-new k v d, h)

occurs-absent :
    {V : Type 0} (j k : Text) (v : V) (acc params : Dict V)
    → text_eq k j ≡ true
    → lookup j (acc ++ (k, v) ∷ params) ≢ none
unfolding lookup
occurs-absent j k v [] params e h = absurd (ground (arith, e, h))
occurs-absent j k v ((i, w) ∷ acc) params e h = ground (arith, occurs-absent j k v acc params e, h)

fresh :
    {V : Type 0} (k : Text) (v : V) (acc params : Dict V)
    → NodupKeys (acc ++ (k, v) ∷ params)
    → lookup k acc ≡ none
unfolding lookup
fresh k v [] params n = refl
fresh k v ((j, w) ∷ acc) params (h, n) = ground (
  arith,
  fresh k v acc params n,
  h,
  occurs-absent j k v acc params,
  text_eq_iff j k,
  text_eq_iff k j,
)

rewrite_param-IsWhole :
    (k : Text) (v : Value) (params acc : Dict Value)
    → IsWhole ((k, v) ∷ params)
    → rewrite_param k v acc ≡ insert k v acc
unfolding rewrite_param
rewrite_param-IsWhole k (plain v) params acc w = refl
rewrite_param-IsWhole k (tracked t) params acc (w, ws) = rw w refl

IsWhole-tail :
    (k : Text) (v : Value) (params : Dict Value) → IsWhole ((k, v) ∷ params) → IsWhole params
IsWhole-tail k (plain v) params w = w
IsWhole-tail k (tracked t) params (w, ws) = ws

rewrite_params-append :
    (params acc : Dict Value)
    → NodupKeys (acc ++ params)
    → IsWhole params
    → rewrite_params params acc ≡ acc ++ params
unfolding rewrite_params
rewrite_params-append [] acc n w = sym (append-nil acc)
rewrite_params-append ((k, v) ∷ params) acc n w =
    ap (rewrite_params params)
      (rewrite_param-IsWhole k v params acc w ∙ insert-new k v acc (fresh k v acc params n))
    ∙ (rewrite_params-append params (acc ++ (k, v) ∷ [])
          (rw (append_assoc acc ((k, v) ∷ []) params) n) (IsWhole-tail k v params w)
        ∙ append_assoc acc ((k, v) ∷ []) params)

abbrev pub AreWhole : List (Dict Value) → Type 0
AreWhole [] = Unit
AreWhole (params ∷ rest) = (NodupKeys params × IsWhole params) × AreWhole rest

rewrite_update-AreWhole : (all : List (Dict Value)) → AreWhole all → rewrite_update all ≡ all
unfolding rewrite_update
rewrite_update-AreWhole [] w = refl
rewrite_update-AreWhole (params ∷ rest) ((n, w), ws) =
    λ i. rewrite_params-append params [] n w i ∷ rewrite_update-AreWhole rest ws i

rewrite_clause-rewrite_update :
    (e : Execution) → (rewrite_clause e).multiparams ≡ rewrite_update e.multiparams
unfolding rewrite_clause rewrite_update
rewrite_clause-rewrite_update e = go e.multiparams refl
  where
    go :
        (all : List (Dict Value))
        → e.multiparams ≡ all
        → (rewrite_clause e).multiparams ≡ rewrite_update e.multiparams
    go [] k = rw k refl
    go (d ∷ ds) k = rw k refl

-- Sets of parameters without a double key, in which no object has a changed or deleted key that is not
-- empty, are executed as they are, whatever the dialect and the clause.
pub crate_before_execute-AreWhole :
    (is_crate is_update : Bool) (e : Execution)
    → AreWhole e.multiparams
    → (crate_before_execute is_crate is_update e).multiparams ≡ e.multiparams
unfolding crate_before_execute
crate_before_execute-AreWhole is_crate is_update e w =
    ground (arith, rewrite_clause-rewrite_update e, rewrite_update-AreWhole e.multiparams w)
