-- ===== src/Sqlalchemy/Columns/Paths.antt =====
-- Which paths into a column print alike.
use crate_python.Prelude.{
  [], ◌∷◌, ◌++◌, ℕ, List, Text, Bool, false, str, ◌≡◌, ◌==◌, ◌||◌, refl, ap, arith, append_assoc,
  sym, append-nil, ◌∙◌,
}
use mathlib.Core.List.{head-eq_of_cons-eq, tail-eq_of_cons-eq, nil≢cons}
use crate_python.Sqlalchemy.Statements.{visit_getitem_binary}
use crate_python.Sqlalchemy.Compiler.{subscript}
use crate_python.Sqlalchemy.Columns.{Expression, get_item, process, compiled, item}

-- An item of an item, and so on.
unfoldable pub path : Expression → List Text → Expression
path e [] = e
path e (k ∷ keys) = path (get_item e k) keys

unfoldable pub has : ℕ → Text → Bool
has c [] = false
has c (d ∷ s) = d == c || has c s

abbrev pub IsQuoteFree : List Text → Type 0
IsQuoteFree [] = Unit
IsQuoteFree (k ∷ keys) = (has b'\'' k ≡ false) × IsQuoteFree keys

-- What a path adds to the text of the column.
unfoldable pub suffix : List Text → Text
suffix [] = []
suffix (k ∷ keys) = str "['" ++ (k ++ (str "']" ++ suffix keys))

pub process-path :
    (e : Expression) (keys : List Text) → process (path e keys) ≡ process e ++ suffix keys
unfolding path suffix process visit_getitem_binary str
process-path e [] = sym (append-nil (process e))
process-path e (k ∷ keys) =
    process-path (item e k) keys
    ∙ (append_assoc (process e) (str "['" ++ (k ++ str "']")) (suffix keys)
        ∙ ap (λ t. process e ++ (str "['" ++ t)) (append_assoc k (str "']") (suffix keys)))

has-append : (c : ℕ) (s t : Text) → has c (s ++ t) ≡ (has c s || has c t)
unfolding has
has-append c [] t = refl
has-append c (d ∷ s) t = ground (arith, has-append c s t)

-- Two texts without a character that both stand before this character are the same.
split :
    (c : ℕ) (s t x y : Text)
    → has c s ≡ false
    → has c t ≡ false
    → s ++ c ∷ x ≡ t ++ c ∷ y
    → (s ≡ t) × (x ≡ y)
unfolding has
split c [] [] x y h g e = (refl, tail-eq_of_cons-eq e)
split c [] (d ∷ t) x y h g e = absurd (ground (arith, g, head-eq_of_cons-eq e))
split c (b ∷ s) [] x y h g e = absurd (ground (arith, h, head-eq_of_cons-eq e))
split c (b ∷ s) (d ∷ t) x y h g e =
    let (same, rest) =
      split c s t x y (ground (arith, h)) (ground (arith, g)) (tail-eq_of_cons-eq e) in
    (ground (arith, head-eq_of_cons-eq e, same), rest)

suffix-injective :
    (keys other : List Text)
    → IsQuoteFree keys
    → IsQuoteFree other
    → suffix keys ≡ suffix other
    → keys ≡ other
unfolding suffix str
suffix-injective [] [] h g e = refl
suffix-injective [] (j ∷ js) h g e = absurd (nil≢cons e)
suffix-injective (k ∷ ks) [] h g e = absurd (nil≢cons (sym e))
suffix-injective (k ∷ ks) (j ∷ js) (h, hs) (g, gs) e =
    let (same, rest) = split b'\'' k j _ _ h g (tail-eq_of_cons-eq (tail-eq_of_cons-eq e)) in
    (λ i. same i ∷ suffix-injective ks js hs gs (tail-eq_of_cons-eq rest) i)

bracketed : (c d x : Text) → has b'[' c ≡ false → c ≡ d ++ b'[' ∷ x → ⊥
unfolding has
bracketed c d x h e = absurd (ground (arith, h, ap (has b'[') e, has-append b'[' d (b'[' ∷ x)))

columns-injective :
    (c d : Text) (keys other : List Text)
    → has b'[' c ≡ false
    → has b'[' d ≡ false
    → c ++ suffix keys ≡ d ++ suffix other
    → (c ≡ d) × (suffix keys ≡ suffix other)
unfolding suffix str
columns-injective c d [] [] h g e = (sym (append-nil c) ∙ (e ∙ append-nil d), refl)
columns-injective c d [] (j ∷ js) h g e = absurd (bracketed c d _ h (sym (append-nil c) ∙ e))
columns-injective c d (k ∷ ks) [] h g e = absurd (bracketed d c _ g (sym (append-nil d) ∙ sym e))
columns-injective c d (k ∷ ks) (j ∷ js) h g e =
    let (same, rest) = split b'[' c d _ _ h g e in (same, λ i. b'[' ∷ rest i)

-- Two paths into columns print the same text only if they are the same column and the same keys, of
-- columns whose names have no `[` and keys that have no `'`, which nothing escapes.
pub process-injective :
    (c d : Text) (keys other : List Text)
    → has b'[' c ≡ false
    → has b'[' d ≡ false
    → IsQuoteFree keys
    → IsQuoteFree other
    → process (path (compiled c) keys) ≡ process (path (compiled d) other)
    → (c ≡ d) × (keys ≡ other)
unfolding process
process-injective c d keys other h g free free' e =
    let (same, rest) =
      columns-injective c d keys other h g
        (sym (process-path (compiled c) keys) ∙ (e ∙ process-path (compiled d) other)) in
    (same, suffix-injective keys other free free' rest)

-- The name that a partial update assigns to is the one that an item of the column is read by.
pub process-subscript : (c k : Text) → process (get_item (compiled c) k) ≡ subscript c k
unfolding process visit_getitem_binary subscript
process-subscript c k = refl
