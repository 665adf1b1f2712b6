-- ===== src/Sqlalchemy/Predicates.antt =====
-- sqlalchemy/predicates/__init__.py, `Match`: the match predicate of the full-text search.
pub mod Order
use crate_python.Exec.{Result, ok, err, on_ok}
use crate_python.Exceptions.{Exn, builtin_error, value_error}
use crate_python.Prelude.{
  none, some, [], Text, List, Option, ◌∷◌, str, if◌then◌else◌, ◌++◌, text_lt, join,
}

-- A column, or columns with their boosts, each already as the compiler prints it; a boost that is
-- `None` prints as `None`.
pub data Column : Type 0 where
  one : Text → Column
  boosted : List (Text × Text) → Column

pub record Match : Type 0 where
  pub column : Column
  pub term : Text
  pub match_type : Option Text
  pub options : List (Text × Text)

-- `match`; the type and the options may be left out.
abbrev pub match : Column → Text → Option Text → Option (List (Text × Text)) → Match
match column term match_type none = record {
  column = column;
  term = term;
  match_type = match_type;
  options = [];
}
match column term match_type (some options) = record {
  column = column;
  term = term;
  match_type = match_type;
  options = options;
}

-- `sorted` of texts
unfoldable pub insert_sorted : Text → List Text → List Text
insert_sorted t [] = t ∷ []
insert_sorted t (u ∷ us) =
    let rest = insert_sorted t us in if text_lt u t then u ∷ rest else t ∷ (u ∷ us)

unfoldable pub sorted : List Text → List Text
sorted [] = []
sorted (t ∷ ts) = insert_sorted t (sorted ts)

-- `"{0}<between>{1}".format(k, v)`, for each
unfoldable pub pairs : Text → List (Text × Text) → List Text
pairs between [] = []
pairs between ((k, v) ∷ rest) = (k ++ (between ++ v)) ∷ pairs between rest

unfoldable pub compile_column : Match → Text
compile_column m = elim m.column [
  | one c ↦ c
  | boosted cs ↦ str "(" ++ (join (str ", ") (sorted (pairs (str " ") cs)) ++ str ")")
]

unfoldable pub with_clause : Match → Option Text
with_clause m = elim m.options [
  | [] ↦ none
  | o ∷ os ↦
      some (str "with (" ++ (join (str ", ") (sorted (pairs (str "=") m.options)) ++ str ")"))
]

abbrev pub using : Text → Option Text → Text
using match_type none = str "using " ++ match_type
using match_type (some clause) = str "using " ++ (match_type ++ (str " " ++ clause))

abbrev missing_match_type : Exn
missing_match_type =
    builtin_error value_error
      (str "missing match_type. It's not allowed to specify options without match_type")

abbrev pub untyped : List (Text × Text) → Result (Option Text)
untyped [] = ok none
untyped (o ∷ os) = err missing_match_type

-- A match type that is an empty text counts as none.
abbrev pub using_of : Option Text → List (Text × Text) → Option Text → Result (Option Text)
using_of none options clause = untyped options
using_of (some []) options clause = untyped options
using_of (some (c ∷ cs)) options clause = ok (some (using (c ∷ cs) clause))

unfoldable pub compile_using : Match → Result (Option Text)
unfolding with_clause
compile_using m = using_of m.match_type m.options (with_clause m)

-- `if using:`
abbrev pub with_using : Text → Option Text → Text
with_using func none = func
with_using func (some []) = func
with_using func (some (c ∷ cs)) = func ++ (str " " ++ (c ∷ cs))

-- `compile_match`; the term too is as the compiler prints it.
unfoldable pub compile_match : Match → Result Text
unfolding compile_column compile_using
compile_match m = on_ok (compile_using m) (λ u.
    ok (with_using (str "match(" ++ (compile_column m ++ (str ", " ++ (m.term ++ str ")")))) u))
