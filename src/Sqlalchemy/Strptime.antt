-- ===== src/Sqlalchemy/Strptime.antt =====
-- Python's `strftime` and `strptime` with the two formats of sqlalchemy/dialect.py, on ASCII digits.
pub mod RoundTrip
use crate_python.Sqlalchemy.Calendar.{Date, Datetime, is_date, is_datetime}
use crate_python.Prelude.{
  zero, suc, none, some, false, [], ℕ, Text, lower_char, Option, ◌+◌, ◌∷◌, if◌then◌else◌, ◌++◌,
  Bool, ◌*◌, ◌/◌, ltb, leb, ◌-◌, ◌==◌, ◌&&◌, ◌%◌,
}

-- The digit that stands for 10 ^ k.
abbrev digit : ℕ → ℕ → ℕ
digit n k = b'0' + n / k % 10

-- `%m`, `%d`, `%H`, `%M`, `%S`
abbrev two : ℕ → Text
two n = digit n 10 ∷ digit n 1 ∷ []

-- `%Y`: a year before 1000 is not filled up with zeros.
unfoldable pub show_year : ℕ → Text
show_year y =
    if ltb y 10
    then digit y 1 ∷ []
    else if ltb y 100
    then two y
    else if ltb y 1000
    then digit y 100 ∷ two y
    else digit y 1000 ∷ digit y 100 ∷ two y

-- `strftime('%Y-%m-%d')`
unfoldable pub show_date : Date → Text
show_date d = show_year d.year ++ (b'-' ∷ (two d.month ++ (b'-' ∷ two d.day)))

-- `%f`
abbrev six : ℕ → Text
six n = digit n 100000 ∷ digit n 10000 ∷ digit n 1000 ∷ digit n 100 ∷ two n

-- `strftime('%Y-%m-%dT%H:%M:%S.%fZ')`
unfoldable pub show_datetime : Datetime → Text
show_datetime t =
    show_date t.date
    ++ (b'T'
        ∷ (two t.hour
            ++ (b':'
                ∷ (two t.minute
                    ++ (b':' ∷ (two t.second ++ (b'.' ∷ (six t.micros ++ b'Z' ∷ []))))))))

abbrev is_digit : ℕ → Bool
is_digit c = leb b'0' c && leb c b'9'

-- A directive of `strptime`: two digits that stand for a number in the range, or else one.
one_digit : ℕ → ℕ → Text → Option (ℕ × Text)
one_digit lo x s = if leb lo x then some (x, s) else none

second_digit : ℕ → ℕ → ℕ → Text → Option (ℕ × Text)
second_digit lo hi x [] = one_digit lo x []
second_digit lo hi x (c ∷ s) =
    let n = x * 10 + (c - b'0') in
    if is_digit c && leb lo n && leb n hi then some (n, s) else one_digit lo x (c ∷ s)

unfoldable pub numeral : ℕ → ℕ → Text → Option (ℕ × Text)
unfolding one_digit second_digit
numeral lo hi [] = none
numeral lo hi (c ∷ s) = if is_digit c then second_digit lo hi (c - b'0') s else none

-- `%d`, which may also be a space and a digit
spaced_digit : Text → Option (ℕ × Text)
spaced_digit [] = none
spaced_digit (c ∷ s) = if leb b'1' c && leb c b'9' then some (c - b'0', s) else none

unfoldable pub day_of : Text → Option (ℕ × Text)
unfolding numeral spaced_digit
day_of [] = none
day_of (c ∷ s) = if c == b' ' then spaced_digit s else numeral 1 31 (c ∷ s)

-- `%Y`: four digits
unfoldable pub year_of : Text → Option (ℕ × Text)
year_of (a ∷ b ∷ c ∷ d ∷ s) =
    if is_digit a && is_digit b && is_digit c && is_digit d
    then some ((a - b'0') * 1000 + (b - b'0') * 100 + (c - b'0') * 10 + (d - b'0'), s)
    else none
year_of _ = none

-- `%f`: one to six digits; those that are left out are zeros.
scale : ℕ → ℕ → ℕ
scale zero n = n
scale (suc k) n = scale k (n * 10)

more_digits : ℕ → ℕ → Text → ℕ × Text
more_digits zero n s = (n, s)
more_digits (suc k) n [] = (scale (suc k) n, [])
more_digits (suc k) n (c ∷ s) =
    let rest = more_digits k (n * 10 + (c - b'0')) s in
    if is_digit c then rest else (scale (suc k) n, c ∷ s)

unfoldable pub fraction_of : Text → Option (ℕ × Text)
unfolding more_digits scale
fraction_of [] = none
fraction_of (c ∷ s) = if is_digit c then some (more_digits 5 (c - b'0') s) else none

-- A literal of the format; letters match in both cases.
unfoldable pub literal : ℕ → Text → Option Text
unfolding lower_char
literal c [] = none
literal c (d ∷ s) = if lower_char d == lower_char c then some s else none

infixl 5 ◌>>=◌
abbrev ◌>>=◌ : {A B : Type 0} → Option A → (A → Option B) → Option B
none >>= f = none
some a >>= f = f a

date_of : Text → Option (Date × Text)
date_of s = do
  y ← year_of s
  s₁ ← literal b'-' y.1
  m ← numeral 1 12 s₁
  s₂ ← literal b'-' m.1
  d ← day_of s₂
  some (record { year = y.0; month = m.0; day = d.0 }, d.1)

time_of : Date → Text → Option (Datetime × Text)
time_of date s = do
  s₁ ← literal b'T' s
  h ← numeral 0 23 s₁
  s₂ ← literal b':' h.1
  m ← numeral 0 59 s₂
  s₃ ← literal b':' m.1
  sec ← numeral 0 61 s₃
  s₄ ← literal b'.' sec.1
  f ← fraction_of s₄
  rest ← literal b'Z' f.1
  some (
    record { date = date; hour = h.0; minute = m.0; second = sec.0; micros = f.0; aware = false },
    rest,
  )

abbrev whole_date : Option (Date × Text) → Option Date
whole_date (some (d, [])) = if is_date d then some d else none
whole_date _ = none

abbrev whole_datetime : Option (Datetime × Text) → Option Datetime
whole_datetime (some (t, [])) = if is_datetime t then some t else none
whole_datetime _ = none

-- `strptime(value, '%Y-%m-%d')`, where `none` stands for its `ValueError`
unfoldable pub parse_date : Text → Option Date
unfolding date_of
parse_date s = whole_date (date_of s)

-- `strptime(value, '%Y-%m-%dT%H:%M:%S.%fZ')`
unfoldable pub parse_datetime : Text → Option Datetime
unfolding date_of time_of
parse_datetime s = whole_datetime (do d ← date_of s; time_of d.0 d.1)
