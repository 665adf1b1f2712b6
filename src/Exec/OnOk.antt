-- ===== src/Exec/OnOk.antt =====
-- What holds of the value of a chain of fallible steps.
use crate_python.Exec.{Result, ok, err, out_of_fuel, on_ok}

-- If the result is a value, it has `P`.
abbrev pub OnOk : {A : Type 0} → (A → Type 0) → Result A → Type 0
OnOk P (ok a) = P a
OnOk P (err e) = Unit
OnOk P out_of_fuel = Unit

pub on_ok-OnOk :
    {A B : Type 0} (P : A → Type 0) (Q : B → Type 0) (r : Result A) (f : A → Result B)
    → OnOk P r
    → ((a : A) → P a → OnOk Q (f a))
    → OnOk Q (on_ok r f)
on_ok-OnOk P Q (ok a) f h k = k a h
on_ok-OnOk P Q (err e) f h k = tt
on_ok-OnOk P Q out_of_fuel f h k = tt

pub OnOk-any : {A : Type 0} (r : Result A) → OnOk (λ a. Unit) r
OnOk-any (ok a) = tt
OnOk-any (err e) = tt
OnOk-any out_of_fuel = tt
