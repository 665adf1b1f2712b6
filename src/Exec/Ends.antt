-- ===== src/Exec/Ends.antt =====
-- Hoare triples for methods that may raise.
use crate_python.Prelude.{
  ◌≡◌, refl, Bool, true, false, Option, none, some, if◌then◌else◌, inl, inr, ◌⊎◌,
}
use crate_python.Exceptions.{Exn}
use crate_python.Exec.Keeps.{Keeps}
use crate_python.Exec.{
  Result, ok, err, out_of_fuel, Exec, pure, raise, diverge, case_option, handle, try_except,
  continue, ◌>>=◌,
}

-- A value that is returned has `Q`, an exception that is raised has `E`, each with the state. What
-- is said of a loop whose fuel did not suffice is `F`.
abbrev pub PostWith {ℓ κ} :
    {S A : Type ℓ} → Type κ → (A → S → Type κ) → (Exn → S → Type κ) → Result A → S → Type κ
PostWith F Q E (ok a) s = Q a s
PostWith F Q E (err e) s = E e s
PostWith F Q E out_of_fuel s = F

abbrev pub Post {ℓ κ} :
    {S A : Type ℓ} → (A → S → Type κ) → (Exn → S → Type κ) → Result A → S → Type κ
Post = PostWith Unit

-- Begun in a state with `P`, the method ends with `Q` or raises with `E`; if it can be out of fuel,
-- then `F` holds.
pub record EndsWith {ℓ κ} {S A : Type ℓ} (F : Type κ) (P : S → Type κ) (m : Exec S A)
    (Q : A → S → Type κ) (E : Exn → S → Type κ) : Type (ℓ ⊔ κ) where
  pub at : (s : S) → P s → PostWith F Q E (m s).0 (m s).1

-- The triple of partial correctness.
abbrev pub Ends {ℓ κ} :
    {S A : Type ℓ} → (S → Type κ) → Exec S A → (A → S → Type κ) → (Exn → S → Type κ) → Type (ℓ ⊔ κ)
Ends = EndsWith Unit

module _ {ℓ κ} {S A : Type ℓ} {P : S → Type κ} {Q : A → S → Type κ} {E : Exn → S → Type κ}
    {F : Type κ} where
  pub Ends-pure : (a : A) → ((s : S) → P s → Q a s) → EndsWith F P (pure a) Q E
  unfolding pure
  Ends-pure a h = record { at = h }

  pub Ends-raise : (e : Exn) → ((s : S) → P s → E e s) → EndsWith F P (raise e) Q E
  unfolding raise
  Ends-raise e h = record { at = h }

  pub Ends-if :
      (b : Bool) (m n : Exec S A)
      → (b ≡ true → EndsWith F P m Q E)
      → (b ≡ false → EndsWith F P n Q E)
      → EndsWith F P (if b then m else n) Q E
  Ends-if true m n km kn = km refl
  Ends-if false m n km kn = kn refl

pub Ends-diverge {ℓ κ} :
    {S A : Type ℓ} (P : S → Type κ) (Q : A → S → Type κ) (E : Exn → S → Type κ) → Ends P diverge Q E
unfolding diverge
Ends-diverge P Q E = record { at = λ s h. tt }

module _ {ℓ κ} {S A B : Type ℓ} {R : B → S → Type κ} {E : Exn → S → Type κ} {F : Type κ} where
  continue-Ends :
      (Q : A → S → Type κ) (r : Result A) (f : A → Exec S B) (s : S)
      → PostWith F Q E r s
      → ((a : A) → EndsWith F (Q a) (f a) R E)
      → PostWith F R E (continue r f s).0 (continue r f s).1
  continue-Ends Q (ok a) f s h k = (k a).at s h
  continue-Ends Q (err e) f s h k = h
  continue-Ends Q out_of_fuel f s h k = h

module _ {ℓ κ} {S A : Type ℓ} {Q : A → S → Type κ} {E : Exn → S → Type κ} {F : Type κ} where
  handle-Ends :
      (D : Exn → S → Type κ) (r : Result A) (handler : Exn → Exec S A) (s : S)
      → PostWith F Q D r s
      → ((e : Exn) → EndsWith F (D e) (handler e) Q E)
      → PostWith F Q E (handle r handler s).0 (handle r handler s).1
  handle-Ends D (ok a) handler s h k = h
  handle-Ends D (err e) handler s h k = (k e).at s h
  handle-Ends D out_of_fuel handler s h k = h

module _ {ℓ κ} {S A B : Type ℓ} {P : S → Type κ} {R : B → S → Type κ} {E : Exn → S → Type κ}
    {F : Type κ} where
  pub Ends-case_option :
      (o : Option A) (m : Exec S B) (f : A → Exec S B)
      → (o ≡ none → EndsWith F P m R E)
      → ((a : A) → o ≡ some a → EndsWith F P (f a) R E)
      → EndsWith F P (case_option o m f) R E
  unfolding case_option
  Ends-case_option none m f km kf = km refl
  Ends-case_option (some a) m f km kf = kf a refl

  pub Ends-bind :
      (Q : A → S → Type κ) (m : Exec S A) (f : A → Exec S B)
      → EndsWith F P m Q E
      → ((a : A) → EndsWith F (Q a) (f a) R E)
      → EndsWith F P (m >>= f) R E
  unfolding ◌>>=◌
  Ends-bind Q m f km kf = record { at = λ s h. continue-Ends Q (m s).0 f (m s).1 (km.at s h) kf }

module _ {ℓ κ} {S A : Type ℓ} {P : S → Type κ} {Q : A → S → Type κ} {E : Exn → S → Type κ}
    {F : Type κ} where
  pub Ends-try_except :
      (D : Exn → S → Type κ) (m : Exec S A) (handler : Exn → Exec S A)
      → EndsWith F P m Q D
      → ((e : Exn) → EndsWith F (D e) (handler e) Q E)
      → EndsWith F P (try_except m handler) Q E
  unfolding try_except
  Ends-try_except D m handler km kh = record {
    at = λ s h. handle-Ends D (m s).0 handler (m s).1 (km.at s h) kh;
  }

of_state {ℓ κ} :
    {S A : Type ℓ} (P : S → Type κ) (r : Result A) (s : S) → P s → Post (λ _. P) (λ _. P) r s
of_state P (ok a) s h = h
of_state P (err e) s h = h
of_state P out_of_fuel s h = tt

weaken {ℓ κ} :
    {S A : Type ℓ} (F : Type κ) {Q Q' : A → S → Type κ} {E E' : Exn → S → Type κ}
    → ((a : A) (s : S) → Q a s → Q' a s)
    → ((e : Exn) (s : S) → E e s → E' e s)
    → (r : Result A) (s : S) → PostWith F Q E r s
    → PostWith F Q' E' r s
weaken F g h (ok a) s p = g a s p
weaken F g h (err e) s p = h e s p
weaken F g h out_of_fuel s p = p

-- An invariant is a triple.
pub Ends-Keeps {ℓ κ} :
    {S A : Type ℓ} {P : S → Type κ} (m : Exec S A) → Keeps P m → Ends P m (λ _. P) (λ _. P)
Ends-Keeps {P} m k = record { at = λ s h. of_state P (m s).0 (m s).1 (k.at s h) }

module _ {ℓ κ} {S A : Type ℓ} {P P' : S → Type κ} {Q Q' : A → S → Type κ} {E E' : Exn → S → Type κ}
    {F : Type κ} where
  -- A stronger precondition and a weaker postcondition.
  pub Ends-weaken :
      (m : Exec S A)
      → EndsWith F P m Q E
      → ((s : S) → P' s → P s)
      → ((a : A) (s : S) → Q a s → Q' a s)
      → ((e : Exn) (s : S) → E e s → E' e s)
      → EndsWith F P' m Q' E'
  Ends-weaken m k f g h = record { at = λ s p. weaken _ g h (m s).0 (m s).1 (k.at s (f s p)) }

of_errors {ℓ κ} :
    {S A : Type ℓ} (P : S → Type κ) (X : Exn → Type κ) (r : Result A) (s : S)
    → P s
    → ((e : Exn) → r ≡ err e → X e)
    → Post (λ _. P) (λ e s. P s × X e) r s
of_errors P X (ok a) s h k = h
of_errors P X (err e) s h k = (h, k e refl)
of_errors P X out_of_fuel s h k = tt

-- An invariant, with what is known of the exceptions.
pub Ends-errors {ℓ κ} :
    {S A : Type ℓ} {P : S → Type κ} (X : Exn → Type κ) (m : Exec S A)
    → Keeps P m
    → ((s : S) (e : Exn) → P s → (m s).0 ≡ err e → X e)
    → Ends P m (λ _. P) (λ e s. P s × X e)
Ends-errors {P} X m k f = record {
  at = λ s h. of_errors P X (m s).0 (m s).1 (k.at s h) (λ e q. f s e h q);
}

-- A fact that holds wherever the precondition does may be used in the proof.
pub Ends-given {ℓ κ μ} :
    {S A : Type ℓ} {F : Type κ} {P : S → Type κ} {Q : A → S → Type κ} {E : Exn → S → Type κ}
    {X : Type μ} (m : Exec S A)
    → ((s : S) → P s → X)
    → (X → EndsWith F P m Q E)
    → EndsWith F P m Q E
Ends-given m f k = record { at = λ s h. (k (f s h)).at s h }

module _ {ℓ κ} {S A : Type ℓ} {F : Type κ} {P P' : S → Type κ} {Q : A → S → Type κ}
    {E : Exn → S → Type κ} where
  either_way :
      (m : Exec S A)
      → EndsWith F P m Q E
      → EndsWith F P' m Q E
      → (s : S) → P s ⊎ P' s
      → PostWith F Q E (m s).0 (m s).1
  either_way m k l s (inl h) = k.at s h
  either_way m k l s (inr h) = l.at s h

  pub Ends-or :
      (m : Exec S A) → EndsWith F P m Q E → EndsWith F P' m Q E → EndsWith F (λ s. P s ⊎ P' s) m Q E
  Ends-or m k l = record { at = either_way m k l }
