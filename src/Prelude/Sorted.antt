-- ===== src/Prelude/Sorted.antt =====
-- Strictly sorted lists of integers as finite sets: insertion and removal, and how they act on a
-- list that is split at one of its members.
use mathlib.Core.Path.{◌≡◌, refl}
use mathlib.Core.List.{List, [], ◌∷◌, ◌++◌}
use mathlib.Core.Logic.{◌↔◌}
use native.Mathlib.Omega.{arith}
use demo_code.Prelude.Tests.{if◌then◌else◌}
use demo_code.Prelude.Int.{ℤ, ltb_ℤ, ◌<ℤ◌}

abbrev pub All {ℓ} : {A : Type ℓ} → (A → Type 0) → List A → Type 0
All P [] = Unit
All P (x ∷ xs) = P x × All P xs

abbrev pub IsSorted : List ℤ → Type 0
IsSorted [] = Unit
IsSorted (x ∷ xs) = All (λ y. x <ℤ y) xs × IsSorted xs

pub All-imp {ℓ} :
    {A : Type ℓ} {P Q : A → Type 0} → ((x : A) → P x → Q x) → (xs : List A) → All P xs → All Q xs
All-imp f [] h = tt
All-imp f (x ∷ xs) h = (f x h.0, All-imp f xs h.1)

pub All-append {ℓ} :
    {A : Type ℓ} (P : A → Type 0) (xs ys : List A) → All P (xs ++ ys) ↔ (All P xs × All P ys)
All-append P [] ys = (λ h. (tt, h), λ h. h.1)
All-append P (x ∷ xs) ys = (
  λ h. let rest = (All-append P xs ys).0 h.1 in ((h.0, rest.0), rest.1),
  λ h. (h.0.0, (All-append P xs ys).1 (h.0.1, h.1)),
)

-- A list that is sorted around a member.
pub record IsSplit (xs : List ℤ) (v : ℤ) (ys : List ℤ) : Type 0 where
  pub below : All (λ x. x <ℤ v) xs
  pub above : All (λ y. v <ℤ y) ys
  pub left : IsSorted xs
  pub right : IsSorted ys

pub IsSorted-IsSplit :
    (xs : List ℤ) (v : ℤ) (ys : List ℤ) → IsSorted (xs ++ v ∷ ys) → IsSplit xs v ys
IsSorted-IsSplit [] v ys h = record { below = tt; above = h.0; left = tt; right = h.1 }
IsSorted-IsSplit (x ∷ xs) v ys h =
    let rest = IsSorted-IsSplit xs v ys h.1 in
    let parts = (All-append (λ y. x <ℤ y) xs (v ∷ ys)).0 h.0 in
    record {
      below = (parts.1.0, rest.below);
      above = rest.above;
      left = (parts.0, rest.left);
      right = rest.right;
    }

pub IsSplit-IsSorted :
    (xs : List ℤ) (v : ℤ) (ys : List ℤ) → IsSplit xs v ys → IsSorted (xs ++ v ∷ ys)
IsSplit-IsSorted [] v ys s = (s.above, s.right)
IsSplit-IsSorted (x ∷ xs) v ys s = (
  (All-append (λ y. x <ℤ y) xs (v ∷ ys)).1
      (s.left.0, (s.below.0, All-imp (λ y h. omega arith) ys s.above)),
  IsSplit-IsSorted xs v ys
      (record { below = s.below.1; above = s.above; left = s.left.1; right = s.right }),
)

-- The set with one more member, and with one member less.
unfoldable pub insert : ℤ → List ℤ → List ℤ
insert x [] = x ∷ []
insert x (y ∷ ys) = if ltb_ℤ x y then x ∷ y ∷ ys else if ltb_ℤ y x then y ∷ insert x ys else y ∷ ys

unfoldable pub remove : ℤ → List ℤ → List ℤ
remove x [] = []
remove x (y ∷ ys) = if ltb_ℤ x y then y ∷ ys else if ltb_ℤ y x then y ∷ remove x ys else ys

pub All-insert : (P : ℤ → Type 0) (x : ℤ) (ys : List ℤ) → P x → All P ys → All P (insert x ys)
unfolding insert
All-insert P x [] p h = (p, tt)
All-insert P x (y ∷ ys) p h = ground (arith, All-insert P x ys p)

pub All-remove : (P : ℤ → Type 0) (x : ℤ) (ys : List ℤ) → All P ys → All P (remove x ys)
unfolding remove
All-remove P x [] h = tt
All-remove P x (y ∷ ys) h = ground (arith, All-remove P x ys)

pub insert-IsSorted : (x : ℤ) (ys : List ℤ) → IsSorted ys → IsSorted (insert x ys)
unfolding insert
insert-IsSorted x [] h = (tt, tt)
insert-IsSorted x (y ∷ ys) h = ground (
  arith,
  insert-IsSorted x ys,
  All-insert (λ z. y <ℤ z) x ys,
  λ (lt : x <ℤ y). All-imp {P = λ z. y <ℤ z} {Q = λ z. x <ℤ z} (λ z k. omega arith) ys h.0,
)

pub remove-IsSorted : (x : ℤ) (ys : List ℤ) → IsSorted ys → IsSorted (remove x ys)
unfolding remove
remove-IsSorted x [] h = tt
remove-IsSorted x (y ∷ ys) h = ground (arith, remove-IsSorted x ys, All-remove (λ z. y <ℤ z) x ys)

pub insert-append_lt :
    (x v : ℤ) (xs ys : List ℤ) → x <ℤ v → insert x (xs ++ v ∷ ys) ≡ insert x xs ++ v ∷ ys
unfolding insert
insert-append_lt x v [] ys h = ground arith
insert-append_lt x v (y ∷ xs) ys h = ground (arith, insert-append_lt x v xs ys h)

pub insert-append_gt :
    (x v : ℤ) (xs ys : List ℤ)
    → v <ℤ x
    → All (λ y. y <ℤ v) xs
    → insert x (xs ++ v ∷ ys) ≡ xs ++ v ∷ insert x ys
unfolding insert
insert-append_gt x v [] ys h b = ground arith
insert-append_gt x v (y ∷ xs) ys h b = ground (arith, insert-append_gt x v xs ys h b.1)

pub insert-append_self :
    (v : ℤ) (xs ys : List ℤ) → All (λ y. y <ℤ v) xs → insert v (xs ++ v ∷ ys) ≡ xs ++ v ∷ ys
unfolding insert
insert-append_self v [] ys b = ground arith
insert-append_self v (y ∷ xs) ys b = ground (arith, insert-append_self v xs ys b.1)

remove_below : (x : ℤ) (ys : List ℤ) → All (λ y. x <ℤ y) ys → remove x ys ≡ ys
unfolding remove
remove_below x [] h = refl
remove_below x (y ∷ ys) h = ground arith

pub remove-append_lt :
    (x v : ℤ) (xs ys : List ℤ) → x <ℤ v → remove x (xs ++ v ∷ ys) ≡ remove x xs ++ v ∷ ys
unfolding remove
remove-append_lt x v [] ys h = ground arith
remove-append_lt x v (y ∷ xs) ys h = ground (arith, remove-append_lt x v xs ys h)

pub remove-append_gt :
    (x v : ℤ) (xs ys : List ℤ)
    → v <ℤ x
    → All (λ y. y <ℤ v) xs
    → remove x (xs ++ v ∷ ys) ≡ xs ++ v ∷ remove x ys
unfolding remove
remove-append_gt x v [] ys h b = ground arith
remove-append_gt x v (y ∷ xs) ys h b = ground (arith, remove-append_gt x v xs ys h b.1)

pub remove-append_self :
    (v : ℤ) (xs ys : List ℤ) → All (λ y. y <ℤ v) xs → remove v (xs ++ v ∷ ys) ≡ xs ++ ys
unfolding remove
remove-append_self v [] ys b = ground arith
remove-append_self v (y ∷ xs) ys b = ground (arith, remove-append_self v xs ys b.1)
