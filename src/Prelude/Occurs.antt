-- ===== src/Prelude/Occurs.antt =====
-- Lists of numbers that stand for containers of pointers: how often a number occurs, and its removal.
use Prim.Native.Nat.{ℕ, suc, ◌+◌, ◌<◌}
use mathlib.Core.Path.{◌≡◌, refl}
use mathlib.Core.Bool.{Bool, true, false}
use mathlib.Core.List.{List, [], ◌∷◌, ◌++◌}
use native.Mathlib.Omega.{arith}
use demo_code.Prelude.Tests.{◌==◌, if◌then◌else◌}
use demo_code.Prelude.Lists.{length}

unfoldable pub occurs : ℕ → List ℕ → ℕ
occurs a [] = 0
occurs a (x ∷ xs) = (if x == a then 1 else 0) + occurs a xs

unfoldable pub contains : ℕ → List ℕ → Bool
contains a [] = false
contains a (x ∷ xs) = if x == a then true else contains a xs

-- The first occurrence is taken out.
unfoldable pub erase : ℕ → List ℕ → List ℕ
erase a [] = []
erase a (x ∷ xs) = if x == a then xs else x ∷ erase a xs

pub occurs-append : (a : ℕ) (xs ys : List ℕ) → occurs a (xs ++ ys) ≡ occurs a xs + occurs a ys
unfolding occurs
occurs-append a [] ys = omega arith
occurs-append a (x ∷ xs) ys = omega (arith, occurs-append a xs ys)

pub occurs-contains : (a : ℕ) (xs : List ℕ) → contains a xs ≡ true → 0 < occurs a xs
unfolding occurs contains
occurs-contains a [] h = ground arith
occurs-contains a (x ∷ xs) h = ground (arith, occurs-contains a xs)

pub occurs_absent : (a : ℕ) (xs : List ℕ) → contains a xs ≡ false → occurs a xs ≡ 0
unfolding occurs contains
occurs_absent a [] h = refl
occurs_absent a (x ∷ xs) h = ground (arith, occurs_absent a xs)

pub occurs-erase :
    (b a : ℕ) (xs : List ℕ)
    → contains a xs ≡ true
    → occurs b (erase a xs) + (if a == b then 1 else 0) ≡ occurs b xs
unfolding occurs contains erase
occurs-erase b a [] h = ground arith
occurs-erase b a (x ∷ xs) h = ground (arith, occurs-erase b a xs)

pub length-erase :
    (a : ℕ) (xs : List ℕ) → contains a xs ≡ true → suc (length (erase a xs)) ≡ length xs
unfolding contains erase
length-erase a [] h = ground arith
length-erase a (x ∷ xs) h = ground (arith, length-erase a xs)

pub occurs-one : (a b : ℕ) → occurs a (b ∷ []) ≡ (if b == a then 1 else 0)
unfolding occurs
occurs-one a b = omega arith

pub occurs-cons :
    (a x : ℕ) (xs : List ℕ) → occurs a (x ∷ xs) ≡ (if x == a then 1 else 0) + occurs a xs
unfolding occurs
occurs-cons a x xs = refl

pub occurs-nil : (a : ℕ) → occurs a [] ≡ 0
unfolding occurs
occurs-nil a = refl

pub contains-cons :
    (a x : ℕ) (xs : List ℕ) → contains a (x ∷ xs) ≡ (if x == a then true else contains a xs)
unfolding contains
contains-cons a x xs = refl

pub contains-nil : (a : ℕ) → contains a [] ≡ false
unfolding contains
contains-nil a = refl
