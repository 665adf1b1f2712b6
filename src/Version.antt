-- ===== src/Version.antt =====
-- The versions that client/connection.py, client/cursor.py and sqlalchemy/dialect.py compare, by
-- `StrictVersion` of Python's `distutils`.
use crate_python.Prelude.{
  refl, none, some, true, false, [], ℕ, Option, Text, Bool, str, ◌∷◌, text_lt, leb, ◌≡◌, ◌&&◌, ◌*◌,
  if◌then◌else◌, ◌+◌, ◌==◌, ◌-◌, ◌||◌,
}

-- A prerelease is a letter and a number.
pub record Version : Type 0 where
  pub major : ℕ
  pub minor : ℕ
  pub patch : ℕ
  pub prerelease : Option (ℕ × ℕ)

abbrev prerelease_key : Option (ℕ × ℕ) → Text
prerelease_key none = b'z' ∷ 0 ∷ []
prerelease_key (some (letter, n)) = letter ∷ n ∷ []

-- A prerelease, of `a` or `b`, comes before the version itself.
abbrev pub key : Version → Text
key v = v.major ∷ v.minor ∷ v.patch ∷ prerelease_key v.prerelease

-- `a < b`
unfoldable pub version_lt : Version → Version → Bool
version_lt a b = text_lt (key a) (key b)

unfoldable pub version : ℕ → ℕ → ℕ → Version
version a b c = record { major = a; minor = b; patch = c; prerelease = none }

is_digit : ℕ → Bool
is_digit c = leb b'0' c && leb c b'9'

-- The number that stands first in a text, if a digit does, and what follows. `seen` is the number
-- read so far.
digits_from : Option ℕ → Text → Option (ℕ × Text)
digits_from none [] = none
digits_from (some n) [] = some (n, [])
digits_from seen (c ∷ s) = elim (is_digit c) [
  | true ↦ digits_from (some (elim seen [ none ↦ 0 | some n ↦ n ] * 10 + (c - b'0'))) s
  | false ↦ elim seen [ none ↦ none | some n ↦ some (n, c ∷ s) ]
]

number : Text → Option (ℕ × Text)
number = digits_from none

abbrev after : Option (ℕ × Text) → (ℕ → Text → Option Version) → Option Version
after none f = none
after (some (n, rest)) f = f n rest

-- `([ab](\d+))?$`
prerelease_of : ℕ → ℕ → ℕ → Text → Option Version
prerelease_of a b c [] = some (version a b c)
prerelease_of a b c (l ∷ s) =
    if l == b'a' || l == b'b'
    then after (number s) (λ n rest. elim rest [
      | [] ↦ some (record { major = a; minor = b; patch = c; prerelease = some (l, n) })
      | x ∷ xs ↦ none
    ])
    else none

-- `(\. (\d+))?`
patch_of : ℕ → ℕ → Text → Option Version
patch_of a b [] = prerelease_of a b 0 []
patch_of a b (d ∷ s) =
    if d == b'.' then after (number s) (prerelease_of a b) else prerelease_of a b 0 (d ∷ s)

minor_of : ℕ → Text → Option Version
minor_of a [] = none
minor_of a (d ∷ s) = if d == b'.' then after (number s) (patch_of a) else none

-- `StrictVersion(s)`; `none` stands for its `ValueError`.
unfoldable pub parse_version : Text → Option Version
unfolding version number digits_from is_digit prerelease_of patch_of minor_of
parse_version s = after (number s) minor_of

parse_version_test :
    (parse_version (str "0.42.0") ≡ some (version 0 42 0))
    × (parse_version (str "2.3") ≡ some (version 2 3 0))
    × (parse_version (str "4.0.0-SNAPSHOT") ≡ none)
unfolding parse_version str
parse_version_test = (refl, refl, refl)
