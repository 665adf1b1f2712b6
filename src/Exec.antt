-- ===== src/Exec.antt =====
-- Methods that mutate an object and may raise. What was written before a raise stays written, so
-- the state comes back beside the exception too. A loop that the fuel does not suffice for is kept
-- apart from both outcomes, and no handler catches it.
pub mod Keeps
pub mod Ends
pub mod Runs
pub mod OnOk
use crate_python.Prelude.{Option, none, some}
use crate_python.Exceptions.{Exn}

pub data Result {ℓ} (A : Type ℓ) : Type ℓ where
  ok : A → Result A
  err : Exn → Result A
  out_of_fuel : Result A

abbrev pub on_ok {ℓ κ} : {A : Type ℓ} {B : Type κ} → Result A → (A → Result B) → Result B
on_ok (ok a) f = f a
on_ok (err e) f = err e
on_ok out_of_fuel f = out_of_fuel

abbrev pub Exec {ℓ} : Type ℓ → Type ℓ → Type ℓ
Exec S A = S → Result A × S

module _ {ℓ} {S A : Type ℓ} where
  unfoldable pub pure : A → Exec S A
  pure a s = (ok a, s)

  unfoldable pub raise : Exn → Exec S A
  raise e s = (err e, s)

  unfoldable pub lift : Result A → Exec S A
  lift r s = (r, s)

  unfoldable pub gets : (S → A) → Exec S A
  gets f s = (ok (f s), s)

  unfoldable pub diverge : Exec S A
  diverge s = (out_of_fuel, s)

  abbrev pub handle : Result A → (Exn → Exec S A) → Exec S A
  handle r handler s = elim r [
    | ok a ↦ (ok a, s)
    | err e ↦ handler e s
    | out_of_fuel ↦ (out_of_fuel, s)
  ]

  -- `try: m except Exception as e: handler(e)`
  unfoldable pub try_except : Exec S A → (Exn → Exec S A) → Exec S A
  try_except m handler s = handle (m s).0 handler (m s).1

-- Assignments to attributes.
unfoldable pub modify {ℓ} : {S : Type ℓ} → (S → S) → Exec S (Unit {ℓ})
modify f s = (ok tt, f s)

-- `if x is None: … else: …`
unfoldable pub case_option {ℓ} : {S A B : Type ℓ} → Option A → Exec S B → (A → Exec S B) → Exec S B
case_option none m f = m
case_option (some a) m f = f a

module _ {ℓ} {S A B : Type ℓ} where
  abbrev pub continue : Result A → (A → Exec S B) → Exec S B
  continue r f s = elim r [ ok a ↦ f a s | err e ↦ (err e, s) | out_of_fuel ↦ (out_of_fuel, s) ]

  infixl 10 ◌>>=◌ ◌>>◌
  -- Opening this opens the other ways to build a method.
  unfoldable pub ◌>>=◌ : Exec S A → (A → Exec S B) → Exec S B
  unfolding pure raise lift gets modify diverge try_except case_option
  ◌>>=◌ m f s = continue (m s).0 f (m s).1

  abbrev pub ◌>>◌ : Exec S A → Exec S B → Exec S B
  m >> n = m >>= λ _. n
