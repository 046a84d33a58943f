-- ===== src/Prelude/Faults.antt =====
-- What a run of C++ code comes to. `fault` is an access outside of an object (a null pointer, a
-- read or write past a buffer, `back()` of an empty vector); `stuck` is a loop whose fuel ran out.
use mathlib.Core.Path.{◌≡◌, refl}
use mathlib.Core.Option.{Option, none, some}
use mathlib.Core.Logic.{◌≢◌}

pub data Outcome {ℓ} (A : Type ℓ) : Type ℓ where
  done : A → Outcome A
  fault : Outcome A
  stuck : Outcome A

infixl 5 ◌>>=◌
abbrev pub ◌>>=◌ {ℓ κ} : {A : Type ℓ} {B : Type κ} → Outcome A → (A → Outcome B) → Outcome B
done a >>= f = f a
fault >>= f = fault
stuck >>= f = stuck

-- A pointer that is followed: null is a fault.
abbrev pub deref {ℓ} : {A : Type ℓ} → Option A → Outcome A
deref none = fault
deref (some a) = done a

pub >>=-ne-stuck {ℓ κ} :
    {A : Type ℓ} {B : Type κ} (m : Outcome A) (f : A → Outcome B)
    → m ≢ stuck
    → ((a : A) → m ≡ done a → f a ≢ stuck)
    → (m >>= f) ≢ stuck
>>=-ne-stuck (done a) f h k = k a refl
>>=-ne-stuck fault f h k = λ e. cc
>>=-ne-stuck stuck f h k = absurd (h refl)

pub deref-ne-stuck {ℓ} : {A : Type ℓ} (o : Option A) → deref o ≢ stuck
deref-ne-stuck none = λ e. cc
deref-ne-stuck (some a) = λ e. cc

-- Inversion of a successful bind.
pub >>=-eq-done {ℓ κ} :
    {A : Type ℓ} {B : Type κ} (m : Outcome A) (f : A → Outcome B) {b : B}
    → (m >>= f) ≡ done b
    → (a : A) × (m ≡ done a) × (f a ≡ done b)
>>=-eq-done (done a) f h = (a, refl, h)
>>=-eq-done fault f h = cc
>>=-eq-done stuck f h = cc
