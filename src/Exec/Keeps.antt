-- ===== src/Exec/Keeps.antt =====
-- Invariants of methods, one rule for each way to build one.
use crate_python.Prelude.{Bool, true, false, Option, none, some, if◌then◌else◌}
use crate_python.Exceptions.{Exn}
use crate_python.Exec.{
  Result, ok, err, out_of_fuel, Exec, pure, raise, lift, gets, modify, diverge, case_option, handle,
  try_except, continue, ◌>>=◌,
}

-- `m` keeps `P`, however it ends.
pub record Keeps {ℓ κ} {S A : Type ℓ} (P : S → Type κ) (m : Exec S A) : Type (ℓ ⊔ κ) where
  pub at : (s : S) → P s → P (m s).1

pub Keeps-modify {ℓ κ} :
    {S : Type ℓ} {P : S → Type κ} (f : S → S) → ((s : S) → P s → P (f s)) → Keeps P (modify f)
unfolding modify
Keeps-modify f k = record { at = k }

module _ {ℓ κ} {S A : Type ℓ} {P : S → Type κ} where
  -- A method that leaves the object as it is.
  reading-Keeps : (outcome : S → Result A) → Keeps P (λ s. (outcome s, s))
  reading-Keeps outcome = record { at = λ s h. h }

  pub Keeps-gets : (attribute : S → A) → Keeps P (gets attribute)
  unfolding gets
  Keeps-gets attribute = reading-Keeps (λ s. ok (attribute s))

  pub Keeps-lift : (r : Result A) → Keeps P (lift r)
  unfolding lift
  Keeps-lift r = reading-Keeps (λ s. r)

  pub Keeps-pure : (a : A) → Keeps P (pure a)
  unfolding pure
  Keeps-pure a = reading-Keeps (λ s. ok a)

  pub Keeps-raise : (e : Exn) → Keeps P (raise {A = A} e)
  unfolding raise
  Keeps-raise e = reading-Keeps (λ s. err e)

  handle-Keeps :
      (r : Result A) (handler : Exn → Exec S A)
      → ((e : Exn) → Keeps P (handler e))
      → Keeps P (handle r handler)
  handle-Keeps (ok a) handler k = record { at = λ s h. h }
  handle-Keeps (err e) handler k = record { at = (k e).at }
  handle-Keeps out_of_fuel handler k = record { at = λ s h. h }

  pub Keeps-try_except :
      (m : Exec S A) (handler : Exn → Exec S A)
      → Keeps P m
      → ((e : Exn) → Keeps P (handler e))
      → Keeps P (try_except m handler)
  unfolding try_except
  Keeps-try_except m handler km kh = record {
    at = λ s h. (handle-Keeps (m s).0 handler kh).at (m s).1 (km.at s h);
  }

  pub Keeps-if :
      (test : Bool) (branch other : Exec S A)
      → Keeps P branch
      → Keeps P other
      → Keeps P (if test then branch else other)
  Keeps-if true branch other ky ko = ky
  Keeps-if false branch other ky ko = ko

pub Keeps-diverge {ℓ κ} : {S A : Type ℓ} (P : S → Type κ) → Keeps P (diverge {S = S} {A = A})
unfolding diverge
Keeps-diverge P = reading-Keeps (λ s. out_of_fuel)

module _ {ℓ κ} {S A B : Type ℓ} {P : S → Type κ} where
  pub Keeps-case_option :
      (o : Option A) (m : Exec S B) (f : A → Exec S B)
      → Keeps P m
      → ((a : A) → Keeps P (f a))
      → Keeps P (case_option o m f)
  unfolding case_option
  Keeps-case_option none m f km kf = km
  Keeps-case_option (some a) m f km kf = kf a

  continue-Keeps :
      (r : Result A) (f : A → Exec S B) → ((a : A) → Keeps P (f a)) → Keeps P (continue r f)
  continue-Keeps (ok a) f k = record { at = (k a).at }
  continue-Keeps (err e) f k = record { at = λ s h. h }
  continue-Keeps out_of_fuel f k = record { at = λ s h. h }

  pub Keeps-bind :
      (first : Exec S A) (next : A → Exec S B)
      → Keeps P first
      → ((a : A) → Keeps P (next a))
      → Keeps P (first >>= next)
  unfolding ◌>>=◌
  Keeps-bind first next kf kn = record {
    at = λ s h. (continue-Keeps (first s).0 next kn).at (first s).1 (kf.at s h);
  }

pub ruleset keeps_rules = (
  Keeps-bind, Keeps-try_except, Keeps-case_option, Keeps-if, Keeps-gets, Keeps-lift, Keeps-pure,
  Keeps-raise,
)
