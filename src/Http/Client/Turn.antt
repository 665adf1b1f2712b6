-- ===== src/Http/Client/Turn.antt =====
-- The second half of `_get_server`, by the three states that the lists can be in.
use crate_python.Prelude.{◌≡◌, refl, List, [], ◌∷◌, ◌++◌, Text, str, arith}
use crate_python.Exceptions.{builtin_error, index_error}
use crate_python.Exec.{Result, ok, err}
use crate_python.Http.Client.{Down, Client, next_turn}

module _ (c : Client) where
  pub next_turn_active :
      (x : Text) (rest : List Text)
      → c.active ≡ x ∷ rest
      → next_turn c ≡ (ok x, record c { active = rest ++ x ∷ [] })
  unfolding next_turn
  next_turn_active x rest e = ground arith

  pub next_turn_oldest :
      (d : Down) (heap : List Down)
      → c.active ≡ []
      → c.inactive ≡ d ∷ heap
      → next_turn c ≡ (ok d.server, record c { active = d.server ∷ []; inactive = heap })
  unfolding next_turn
  next_turn_oldest d heap e f = ground arith

  pub next_turn_empty :
      c.active ≡ []
      → c.inactive ≡ []
      → next_turn c ≡ (err (builtin_error index_error (str "index out of range")), c)
  unfolding next_turn
  next_turn_empty e f = ground arith

-- To prove a property of the outcome, prove it in the three states.
pub next_turn_elim {ℓ} :
    (P : Result Text × Client → Type ℓ) (c : Client)
    → ((x : Text) (rest : List Text)
        → c.active ≡ x ∷ rest
        → P (ok x, record c { active = rest ++ x ∷ [] }))
    → ((d : Down) (heap : List Down)
        → c.active ≡ []
        → c.inactive ≡ d ∷ heap
        → P (ok d.server, record c { active = d.server ∷ []; inactive = heap }))
    → (c.active ≡ []
        → c.inactive ≡ []
        → P (err (builtin_error index_error (str "index out of range")), c))
    → P (next_turn c)
next_turn_elim P c f g h = go c.active c.inactive refl refl
  where
    go : (a : List Text) (i : List Down) → c.active ≡ a → c.inactive ≡ i → P (next_turn c)
    go (x ∷ rest) i e k = rw (next_turn_active c x rest e) (f x rest e)
    go [] (d ∷ heap) e k = rw (next_turn_oldest c d heap e k) (g d heap e k)
    go [] [] e k = rw (next_turn_empty c e k) (h e k)
