-- ===== src/Exec/Runs.antt =====
-- A method whose first part is known to return or to raise.
use crate_python.Prelude.{◌≡◌, ap, refl}
use crate_python.Exceptions.{Exn}
use crate_python.Exec.Ends.{PostWith}
use crate_python.Exec.{out_of_fuel, Exec, Result, ok, err, continue, ◌>>=◌, pure}

module _ {ℓ} {S A B : Type ℓ} (m : Exec S A) (f : A → Exec S B) (s : S) where
  pub bind-ok : (a : A) (s' : S) → m s ≡ (ok a, s') → (m >>= f) s ≡ f a s'
  unfolding ◌>>=◌ pure
  bind-ok a s' e = ap {B = Result B × S} (λ r. continue r.0 f r.1) e

  pub bind-err : (x : Exn) (s' : S) → m s ≡ (err x, s') → (m >>= f) s ≡ (err x, s')
  unfolding ◌>>=◌ pure
  bind-err x s' e = ap {B = Result B × S} (λ r. continue r.0 f r.1) e

-- Where a method neither raises nor lacks fuel, it returns.
pub returned {ℓ} :
    {S A : Type ℓ} (Q : A → S → Type 0) (r : Result A) (s : S)
    → PostWith ⊥ Q (λ _ _. ⊥) r s
    → (a : A) × (r ≡ ok a) × Q a s
returned Q (ok a) s h = (a, refl, h)
returned Q (err e) s h = elim h [ ]
returned Q out_of_fuel s h = elim h [ ]
