-- ===== src/Sqlalchemy/Predicates/Order.antt =====
-- A match predicate prints the same whatever the order of its options.
use crate_python.Exec.{ok, Result, on_ok}
use mathlib.Core.List.{Permᴰ}
use crate_python.Sqlalchemy.Predicates.{
  insert_sorted, sorted, pairs, with_clause, untyped, compile_using, compile_match, Match,
  compile_column, boosted, using_of, with_using,
}
use crate_python.Prelude.{
  [], Text, List, ◌≡◌, arith, text_lt_asymm, text_lt_connex, ◌∷◌, text_not_lt_trans, refl, none,
  some, true, false, Bool, Option, ap, str, ◌++◌, join, ◌∙◌,
}

insert_sorted-swap :
    (s t : Text) (us : List Text)
    → insert_sorted s (insert_sorted t us) ≡ insert_sorted t (insert_sorted s us)
unfolding insert_sorted
insert_sorted-swap s t [] = ground (arith, text_lt_asymm s t, text_lt_asymm t s, text_lt_connex s t)
insert_sorted-swap s t (u ∷ us) = ground (
  arith,
  insert_sorted-swap s t us,
  text_lt_asymm s t,
  text_lt_asymm t s,
  text_lt_connex s t,
  text_not_lt_trans u s t,
  text_not_lt_trans u t s,
  text_not_lt_trans s u t,
  text_not_lt_trans t u s,
  text_lt_asymm u s,
  text_lt_asymm u t,
)

sorted_perm : {ts us : List Text} → Permᴰ ts us → sorted ts ≡ sorted us
unfolding sorted
sorted_perm Permᴰ.nil = refl
sorted_perm (Permᴰ.cons {a = a} {l₂ = us} e p) =
    ap (insert_sorted a) (sorted_perm p) ∙ ap (λ t. insert_sorted t (sorted us)) e
sorted_perm (Permᴰ.swap {a = a} {b = b} {b' = b'} {l = us} e f) =
    ap (λ t. insert_sorted t (insert_sorted b (sorted us))) e
    ∙ ap (λ t. insert_sorted b' (insert_sorted t (sorted us))) f
    ∙ insert_sorted-swap b' _ (sorted us)
sorted_perm (Permᴰ.trans p q) = sorted_perm p ∙ sorted_perm q

pairs_perm :
    (between : Text) {xs ys : List (Text × Text)}
    → Permᴰ xs ys
    → sorted (pairs between xs) ≡ sorted (pairs between ys)
unfolding pairs
pairs_perm between p = sorted_perm (printed p)
  where
    printed :
        {xs ys : List (Text × Text)} → Permᴰ xs ys → Permᴰ (pairs between xs) (pairs between ys)
    printed Permᴰ.nil = Permᴰ.nil
    printed (Permᴰ.cons e p) = Permᴰ.cons (ap (λ x. x.0 ++ (between ++ x.1)) e) (printed p)
    printed (Permᴰ.swap e f) =
        Permᴰ.swap (ap (λ x. x.0 ++ (between ++ x.1)) e) (ap (λ x. x.0 ++ (between ++ x.1)) f)
    printed (Permᴰ.trans p q) = Permᴰ.trans (printed p) (printed q)

abbrev is_nil : List (Text × Text) → Bool
is_nil [] = true
is_nil (x ∷ xs) = false

nil_perm : {xs ys : List (Text × Text)} → Permᴰ xs ys → is_nil xs ≡ is_nil ys
nil_perm Permᴰ.nil = refl
nil_perm (Permᴰ.cons e p) = refl
nil_perm (Permᴰ.swap e f) = refl
nil_perm (Permᴰ.trans p q) = nil_perm p ∙ nil_perm q

-- The predicate of boosted columns.
abbrev pub boosted_match : List (Text × Text) → Text → Option Text → List (Text × Text) → Match
boosted_match columns term match_type options = record {
  column = boosted columns;
  term = term;
  match_type = match_type;
  options = options;
}

with_clause_perm :
    (m : Match) (xs ys : List (Text × Text))
    → Permᴰ xs ys
    → with_clause (record m { options = xs }) ≡ with_clause (record m { options = ys })
unfolding with_clause
with_clause_perm m [] [] p = refl
with_clause_perm m [] (y ∷ ys) p = ground (arith, nil_perm p)
with_clause_perm m (x ∷ xs) [] p = ground (arith, nil_perm p)
with_clause_perm m (x ∷ xs) (y ∷ ys) p =
    ap (λ ts. some (str "with (" ++ (join (str ", ") ts ++ str ")"))) (pairs_perm (str "=") p)

untyped_perm : (xs ys : List (Text × Text)) → Permᴰ xs ys → untyped xs ≡ untyped ys
untyped_perm [] [] p = refl
untyped_perm [] (y ∷ ys) p = ground (arith, nil_perm p)
untyped_perm (x ∷ xs) [] p = ground (arith, nil_perm p)
untyped_perm (x ∷ xs) (y ∷ ys) p = refl

using_of_perm :
    (match_type : Option Text) (xs ys : List (Text × Text)) (clause : Option Text)
    → Permᴰ xs ys
    → using_of match_type xs clause ≡ using_of match_type ys clause
using_of_perm none xs ys clause p = untyped_perm xs ys p
using_of_perm (some []) xs ys clause p = untyped_perm xs ys p
using_of_perm (some (c ∷ cs)) xs ys clause p = refl

compile_using_perm :
    (m : Match) (xs ys : List (Text × Text))
    → Permᴰ xs ys
    → compile_using (record m { options = xs }) ≡ compile_using (record m { options = ys })
unfolding compile_using
compile_using_perm m xs ys p =
    using_of_perm m.match_type xs ys _ p
    ∙ ap (using_of m.match_type ys) (with_clause_perm m xs ys p)

-- A match predicate of boosted columns compiles to the same text, or raises the same exception,
-- whatever the order of its columns and the order of its options.
pub compile_match_perm :
    (columns columns' options options' : List (Text × Text)) (term : Text)
    (match_type : Option Text)
    → Permᴰ columns columns'
    → Permᴰ options options'
    → compile_match (boosted_match columns term match_type options)
      ≡ compile_match (boosted_match columns' term match_type options')
unfolding compile_match compile_column
compile_match_perm columns columns' options options' term match_type p q =
    ap (λ ts. compiled (compile_using (boosted_match columns term match_type options)) ts)
      (pairs_perm (str " ") p)
    ∙ ap (λ u. compiled u (sorted (pairs (str " ") columns')))
        (compile_using_perm (boosted_match columns term match_type options) options options' q)
  where
    compiled : Result (Option Text) → List Text → Result Text
    compiled r ts = on_ok r (λ u. ok (
        with_using
          (str "match("
            ++ ((str "(" ++ (join (str ", ") ts ++ str ")")) ++ (str ", " ++ (term ++ str ")"))))
          u))
