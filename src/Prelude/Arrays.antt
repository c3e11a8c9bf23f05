-- ===== src/Prelude/Arrays.antt =====
-- Arrays of integers as lists: checked reads and writes in range, exchanges, and the last item.
use mathlib.Core.Path.{◌≡◌, refl, ap}
use mathlib.Core.List.{List, [], ◌∷◌}
use mathlib.Core.Option.{Option, some}
use Prim.Native.Nat.{ℕ, zero, suc, ◌+◌, ◌<◌, ◌≤◌}
use native.Mathlib.Omega.{arith}
use demo_code.Prelude.Tests.{if◌then◌else◌, ◌==◌}
use demo_code.Prelude.Lists.{length, get_elem?, get_or, set, set?, take, length-set}
use demo_code.Prelude.Partial.{◌>>=◌}
use demo_code.Prelude.Int.{ℤ, pos}
use demo_code.Prelude.Counts.{same_ℤ, count, SameItems}

-- The item at a place, or 0 outside the array.
abbrev pub at : List ℤ → ℕ → ℤ
at xs i = get_or xs i (pos 0)

pub get_elem?-at : (xs : List ℤ) (i : ℕ) → i < length xs → get_elem? xs i ≡ some (at xs i)
get_elem?-at [] i h = absurd (omega arith)
get_elem?-at (x ∷ xs) zero h = refl
get_elem?-at (x ∷ xs) (suc i) h = get_elem?-at xs i (omega arith)

pub set?-set : (xs : List ℤ) (i : ℕ) (v : ℤ) → i < length xs → set? xs i v ≡ some (set xs i v)
set?-set [] i v h = absurd (omega arith)
set?-set (x ∷ xs) zero v h = refl
set?-set (x ∷ xs) (suc i) v h = rw (set?-set xs i v (omega arith))

pub at-set :
    (xs : List ℤ) (i j : ℕ) (v : ℤ)
    → i < length xs
    → at (set xs i v) j ≡ (if i == j then v else at xs j)
at-set [] i j v h = absurd (omega arith)
at-set (x ∷ xs) zero zero v h = refl
at-set (x ∷ xs) zero (suc j) v h = ground arith
at-set (x ∷ xs) (suc i) zero v h = ground arith
at-set (x ∷ xs) (suc i) (suc j) v h = ground (arith, at-set xs i j v)

pub count-set :
    (a : ℤ) (xs : List ℤ) (i : ℕ) (v : ℤ)
    → i < length xs
    → count a (set xs i v) + same_ℤ a (at xs i) ≡ count a xs + same_ℤ a v
unfolding count
count-set a [] i v h = absurd (omega arith)
count-set a (x ∷ xs) zero v h = omega arith
count-set a (x ∷ xs) (suc i) v h = omega (arith, count-set a xs i v)

-- `Swap(xs[i], xs[j])`
unfoldable pub swap : List ℤ → ℕ → ℕ → Option (List ℤ)
swap xs i j = do x ← get_elem? xs i; y ← get_elem? xs j; ys ← set? xs i y; set? ys j x

unfoldable pub swapped : List ℤ → ℕ → ℕ → List ℤ
swapped xs i j = set (set xs i (at xs j)) j (at xs i)

pub length-swapped : (xs : List ℤ) (i j : ℕ) → length (swapped xs i j) ≡ length xs
unfolding swapped
length-swapped xs i j =
    omega (arith, length-set (set xs i (at xs j)) j (at xs i), length-set xs i (at xs j))

module _ (xs : List ℤ) (i j : ℕ) (p : i < length xs) (q : j < length xs) where
  pub swap-swapped : swap xs i j ≡ some (swapped xs i j)
  unfolding swap swapped
  swap-swapped =
      rw (get_elem?-at xs i p, ◌>>=◌)
        (rw (get_elem?-at xs j q, ◌>>=◌)
          (rw (set?-set xs i (at xs j) p, ◌>>=◌)
            (set?-set (set xs i (at xs j)) j (at xs i) (omega (arith, length-set xs i (at xs j))))))

  pub at-swapped :
      (k : ℕ)
      → at (swapped xs i j) k ≡ (if j == k then at xs i else if i == k then at xs j else at xs k)
  unfolding swapped
  at-swapped k =
      rw (at-set (set xs i (at xs j)) j k (at xs i) (omega (arith, length-set xs i (at xs j))))
        (rw (at-set xs i k (at xs j) p) refl)

  pub swapped-SameItems : SameItems (swapped xs i j) xs
  unfolding swapped
  swapped-SameItems a = ground (
    arith,
    count-set a (set xs i (at xs j)) j (at xs i),
    count-set a xs i (at xs j),
    length-set xs i (at xs j),
    at-set xs i j (at xs j),
  )

-- `pop_back`
pub length-init : (n : ℕ) (xs : List ℤ) → n ≤ length xs → length (take n xs) ≡ n
length-init zero xs h = refl
length-init (suc n) [] h = absurd (omega arith)
length-init (suc n) (x ∷ xs) h = ap suc (length-init n xs (omega arith))

pub at-take : (n : ℕ) (xs : List ℤ) (i : ℕ) → i < n → at (take n xs) i ≡ at xs i
at-take zero xs i h = absurd (omega arith)
at-take (suc n) [] i h = refl
at-take (suc n) (x ∷ xs) zero h = refl
at-take (suc n) (x ∷ xs) (suc i) h = at-take n xs i (omega arith)

pub count-take :
    (a : ℤ) (n : ℕ) (xs : List ℤ)
    → length xs ≡ suc n
    → count a (take n xs) + same_ℤ a (at xs n) ≡ count a xs
unfolding count
count-take a n [] h = absurd (omega arith)
count-take a zero (x ∷ []) h = omega arith
count-take a zero (x ∷ y ∷ xs) h = absurd (omega arith)
count-take a (suc n) (x ∷ xs) h = omega (arith, count-take a n xs)
