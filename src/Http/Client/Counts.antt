-- ===== src/Http/Client/Counts.antt =====
-- No server is lost or duplicated: how often a server stands in the two lists together.
use crate_python.Prelude.{
  ℕ, zero, suc, ◌+◌, ◌≡◌, refl, ◌∙◌, true, List, [], ◌∷◌, ◌++◌, Text, text_eq, length, text_eq_iff,
  arith, if◌then◌else◌, contains,
}
use crate_python.Http.Client.Turn.{next_turn_elim}
use crate_python.Http.Client.{
  Down, Client, heappush, restore_step, restore, next_turn, get_server, remove, drop_server,
}

unfoldable pub count : Text → List Text → ℕ
count s [] = 0
count s (x ∷ xs) = (if text_eq x s then 1 else 0) + count s xs

unfoldable pub count_down : Text → List Down → ℕ
count_down s [] = 0
count_down s (d ∷ heap) = (if text_eq d.server s then 1 else 0) + count_down s heap

abbrev pub occurrences : Text → Client → ℕ
occurrences s c = count s c.active + count_down s c.inactive

pub count-append : (s : Text) (xs ys : List Text) → count s (xs ++ ys) ≡ count s xs + count s ys
unfolding count
count-append s [] ys = omega arith
count-append s (x ∷ xs) ys = omega (arith, count-append s xs ys)

pub count_down-heappush :
    (s : Text) (d : Down) (heap : List Down)
    → count_down s (heappush d heap) ≡ count_down s (d ∷ heap)
unfolding heappush count_down
count_down-heappush s d [] = refl
count_down-heappush s d (e ∷ heap) = ground (arith, count_down-heappush s d heap)

restore_step-occurrences :
    (s : Text) (time : ℕ → ℕ) (heap : List Down) (c : Client)
    → count_down s heap ≡ count_down s c.inactive
    → occurrences s (restore_step time heap c) ≡ occurrences s c
unfolding restore_step count count_down
restore_step-occurrences s time [] c e = refl
restore_step-occurrences s time (d ∷ heap) c e =
    ground (arith, count-append s c.active (d.server ∷ []), count_down-heappush s d heap)

pub restore-occurrences :
    (s : Text) (time : ℕ → ℕ) (n : ℕ) (c : Client)
    → occurrences s (restore time n c) ≡ occurrences s c
unfolding restore
restore-occurrences s time zero c = refl
restore-occurrences s time (suc n) c =
    restore-occurrences s time n _ ∙ restore_step-occurrences s time c.inactive c refl

pub take_next-occurrences :
    (s x : Text) (rest : List Text) → count s (rest ++ x ∷ []) ≡ count s (x ∷ rest)
unfolding count
take_next-occurrences s x rest = omega (arith, count-append s rest (x ∷ []))

next_turn-occurrences : (s : Text) (c : Client) → occurrences s (next_turn c).1 ≡ occurrences s c
unfolding count count_down
next_turn-occurrences s c =
    next_turn_elim (λ r. occurrences s r.1 ≡ occurrences s c) c
      (λ x rest e. ground (arith, take_next-occurrences s x rest)) (λ d heap e k. ground arith)
      (λ e k. refl)

-- Taking a server neither loses nor duplicates one: every server stands in the two lists together
-- as often as before.
pub get_server-occurrences :
    (s : Text) (time : ℕ → ℕ) (c : Client) → occurrences s (get_server time c).1 ≡ occurrences s c
unfolding get_server
get_server-occurrences s time c =
    next_turn-occurrences s (restore time (length c.inactive) c)
    ∙ restore-occurrences s time (length c.inactive) c

pub count-remove :
    (s t : Text) (xs : List Text)
    → contains t xs ≡ true
    → count s (remove t xs) + (if text_eq t s then 1 else 0) ≡ count s xs
unfolding count remove contains
count-remove s t [] h = ground arith
count-remove s t (x ∷ xs) h = ground (arith, count-remove s t xs, text_eq_iff x t)

-- Dropping a server, whether it raises or not, moves it between the lists.
pub drop_server-occurrences :
    (s : Text) (time : ℕ → ℕ) (server message : Text) (c : Client)
    → occurrences s (drop_server time server message c).1 ≡ occurrences s c
unfolding drop_server count_down
drop_server-occurrences s time server message c = ground (
  arith,
  count-remove s server c.active,
  count_down-heappush s (record { ts = time c.reads; server = server; message = message })
      c.inactive,
)
