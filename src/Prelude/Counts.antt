-- ===== src/Prelude/Counts.antt =====
-- Lists of integers as bags, and lists in order.
use mathlib.Core.Path.{◌≡◌, refl}
use mathlib.Core.List.{List, [], ◌∷◌, ◌++◌}
use Prim.Native.Nat.{ℕ, ◌+◌}
use native.Mathlib.Omega.{arith}
use demo_code.Prelude.Tests.{if◌then◌else◌, ◌==◌}
use demo_code.Prelude.Int.{ℤ, pos_part, neg_part, ◌≤ℤ◌}
use demo_code.Prelude.Sorted.{All}

-- `a` and `b` are one integer.
abbrev pub same_ℤ : ℤ → ℤ → ℕ
same_ℤ a b = if pos_part a + neg_part b == pos_part b + neg_part a then 1 else 0

unfoldable pub count : ℤ → List ℤ → ℕ
count a [] = 0
count a (x ∷ xs) = same_ℤ a x + count a xs

-- The same items, as often.
abbrev pub SameItems : List ℤ → List ℤ → Type 0
SameItems xs ys = (a : ℤ) → count a xs ≡ count a ys

-- Each item is not larger than those that follow.
abbrev pub IsOrdered : List ℤ → Type 0
IsOrdered [] = Unit
IsOrdered (x ∷ xs) = All (λ y. x ≤ℤ y) xs × IsOrdered xs

pub count-cons : (a x : ℤ) (xs : List ℤ) → count a (x ∷ xs) ≡ same_ℤ a x + count a xs
unfolding count
count-cons a x xs = refl

pub count-nil : (a : ℤ) → count a [] ≡ 0
unfolding count
count-nil a = refl

pub count-append : (a : ℤ) (xs ys : List ℤ) → count a (xs ++ ys) ≡ count a xs + count a ys
unfolding count
count-append a [] ys = omega arith
count-append a (x ∷ xs) ys = omega (arith, count-append a xs ys)
