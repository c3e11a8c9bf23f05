-- ===== src/Prelude/Partial.antt =====
-- Code that can fault, as a monad: `none` is a read through a null pointer or out of range.
use mathlib.Core.Path.{◌≡◌, refl}
use mathlib.Core.Option.{Option, none, some}
use native.Mathlib.Omega.{arith}

infixl 5 ◌>>=◌
abbrev pub ◌>>=◌ {ℓ κ} : {A : Type ℓ} {B : Type κ} → Option A → (A → Option B) → Option B
none >>= f = none
some a >>= f = f a

-- The two steps of a chain that returns.
pub >>=-eq-some {ℓ κ} :
    {A : Type ℓ} {B : Type κ} (m : Option A) (f : A → Option B) {b : B}
    → (m >>= f) ≡ some b
    → (a : A) × (m ≡ some a) × (f a ≡ some b)
>>=-eq-some none f h = ground arith
>>=-eq-some (some a) f h = (a, refl, h)

-- The call returns, and its result satisfies `P`.
abbrev pub Returns {ℓ} : {A : Type ℓ} → Option A → (A → Type 0) → Type 0
Returns none P = ⊥
Returns (some a) P = P a

-- A chain returns if its first step does and the rest does from there.
pub Returns-bind {ℓ κ} :
    {A : Type ℓ} {B : Type κ} (m : Option A) (f : A → Option B) (P : A → Type 0) (Q : B → Type 0)
    → Returns m P
    → ((a : A) → P a → Returns (f a) Q)
    → Returns (m >>= f) Q
Returns-bind none f P Q h k = absurd h
Returns-bind (some a) f P Q h k = k a h

-- What is shown of each result holds of the result that the call has.
pub Returns-and {ℓ} :
    {A : Type ℓ} {P Q : A → Type 0} (m : Option A)
    → Returns m P
    → ((a : A) → m ≡ some a → P a → Q a)
    → Returns m Q
Returns-and none h k = absurd h
Returns-and (some a) h k = k a refl h
