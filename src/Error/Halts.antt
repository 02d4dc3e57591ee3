-- ===== src/Error/Halts.antt =====
-- Calls that end before their fuel does.
use weave_jacquard.Prelude.{◌≢◌, refl, Bool, true, false, if◌then◌else◌}
use weave_jacquard.Error.{
  Code, Error, Result, ok, err, validation, not_found, value_error, overflow_error, integrity_error,
  operational_error, out_of_fuel, conflict, batch, ◌>>=◌, require,
}

-- An error of the code, and not the model's own.
abbrev pub IsRaised : Error → Type 0
IsRaised out_of_fuel = ⊥
IsRaised _ = Unit

-- The call returns what `P` holds of, or raises an error of the code.
abbrev pub Halts {ℓ} : {A : Type ℓ} (P : A → Type 0) → Result A → Type 0
Halts P (ok a) = P a
Halts P (err e) = IsRaised e

pub >>=-Halts {ℓ κ} :
    {A : Type ℓ} {B : Type κ} (P : B → Type 0) (Q : A → Type 0) (m : Result A) (f : A → Result B)
    → Halts Q m
    → ((a : A) → Q a → Halts P (f a))
    → Halts P (m >>= f)
>>=-Halts P Q (ok a) f q k = k a q
>>=-Halts P Q (err e) f q k = q

pub require-Halts : (b : Bool) (c : Code) → Halts (λ _. Unit) (require b c)
require-Halts true c = tt
require-Halts false c = tt

abbrev pub Any {ℓ} : {A : Type ℓ} → A → Type 0
Any a = Unit

pub ≢-Halts {ℓ} : {A : Type ℓ} (m : Result A) → m ≢ err out_of_fuel → Halts Any m
≢-Halts (ok a) h = tt
≢-Halts (err out_of_fuel) h = h refl
≢-Halts (err (validation c)) h = tt
≢-Halts (err not_found) h = tt
≢-Halts (err value_error) h = tt
≢-Halts (err overflow_error) h = tt
≢-Halts (err integrity_error) h = tt
≢-Halts (err operational_error) h = tt
≢-Halts (err (conflict cs)) h = tt
≢-Halts (err (batch c i)) h = tt

pub if-Halts :
    {A : Type 0} (P : A → Type 0) (b : Bool) (m k : Result A)
    → Halts P m
    → Halts P k
    → Halts P (if b then m else k)
if-Halts P true m k h g = h
if-Halts P false m k h g = g
