-- ===== src/Tests/Matches.antt =====
-- Match predicates.
use crate_python.Exec.{ok}
use crate_python.Sqlalchemy.Predicates.Order.{boosted_match, compile_match_perm}
use crate_python.Sqlalchemy.Predicates.{compile_match, sorted, pairs, insert_sorted}
use crate_python.Prelude.{refl, some, [], List, Text, str, ◌≡◌, ◌∷◌, join, text_lt}
use mathlib.Core.List.{Permᴰ}

abbrev columns : List (Text × Text)
columns = (str "name", str "1.5") ∷ (str "text", str "None") ∷ []

abbrev swapped : List (Text × Text)
swapped = (str "text", str "None") ∷ (str "name", str "1.5") ∷ []

abbrev fuzzy : List (Text × Text)
fuzzy = (str "fuzziness", str "1") ∷ []

compile_match_test :
    compile_match (boosted_match swapped (str "?") (some (str "best_fields")) fuzzy)
    ≡ ok (str "match((name 1.5, text None), ?) using best_fields with (fuzziness=1)")
unfolding compile_match str join sorted pairs insert_sorted text_lt
compile_match_test = refl

compile_match_perm_example :
    compile_match (boosted_match columns (str "?") (some (str "best_fields")) fuzzy)
    ≡ compile_match (boosted_match swapped (str "?") (some (str "best_fields")) fuzzy)
compile_match_perm_example =
    compile_match_perm columns swapped fuzzy fuzzy (str "?") (some (str "best_fields"))
      (Permᴰ.swap refl refl) (Permᴰ.cons refl Permᴰ.nil)
