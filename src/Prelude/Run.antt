-- ===== src/Prelude/Run.antt =====
-- The result of code that reads memory in a loop: a value, a fault (a read outside the buffer), or
-- a loop that used up the fuel of the model.
use mathlib.Core.Path.{◌≡◌, refl}
use mathlib.Core.Option.{Option, none, some}

pub data Run {ℓ} (A : Type ℓ) : Type ℓ where
  ok : A → Run A
  fault : Run A
  no_fuel : Run A

infixl 5 ◌>>=◌
abbrev pub ◌>>=◌ {ℓ ℓ'} : {A : Type ℓ} {B : Type ℓ'} → Run A → (A → Run B) → Run B
no_fuel >>= next = no_fuel
fault >>= next = fault
ok v >>= next = next v

-- A read: outside the buffer it faults.
abbrev pub reads {ℓ} : {A : Type ℓ} → Option A → Run A
reads none = fault
reads (some a) = ok a

pub >>=-eq-ok {ℓ ℓ'} :
    {A : Type ℓ} {B : Type ℓ'} (run : Run A) (next : A → Run B) {b : B}
    → (run >>= next) ≡ ok b
    → (v : A) × (run ≡ ok v) × (next v ≡ ok b)
>>=-eq-ok no_fuel next e = cc
>>=-eq-ok fault next e = cc
>>=-eq-ok (ok v) next e = (v, refl, e)
