-- ===== src/RbTree/Contents.antt =====
-- The values of a tree in order, and what the paths and the rounds of `AddFixUp` do with them.
use mathlib.Core.List.{append_assoc}
use demo_code.Prelude.{ℤ, List, [], ◌∷◌, ◌++◌, ◌≡◌, refl, ap, arith, inl, inr, Bool-cases}
use demo_code.Prelude.Sorted.{IsSorted, IsSorted-IsSplit}
use demo_code.RbTree.{
  Color, Tree, leaf, node, Frame, left_of, right_of, zip, blacken, Round, recoloured, single,
  double, fault, fix_round, is_red, lr_round, rl_round,
}

unfoldable pub in_order : Tree → List ℤ
in_order leaf = []
in_order (node c l v r) = in_order l ++ v ∷ in_order r

pub in_order-blacken : (t : Tree) → in_order (blacken t) ≡ in_order t
unfolding in_order blacken
in_order-blacken leaf = refl
in_order-blacken (node c l v r) = refl

-- Trees with the same values, in the same place.
pub in_order-zip :
    (t u : Tree) (path : List Frame)
    → in_order t ≡ in_order u
    → in_order (zip t path) ≡ in_order (zip u path)
unfolding zip in_order
in_order-zip t u [] e = e
in_order-zip t u (left_of c v r ∷ path) e =
    in_order-zip (node c t v r) (node c u v r) path (ap (λ xs. xs ++ v ∷ in_order r) e)
in_order-zip t u (right_of c l v ∷ path) e =
    in_order-zip (node c l v t) (node c l v u) path (ap (λ xs. in_order l ++ v ∷ xs) e)

pub IsSorted-zip :
    (t : Tree) (path : List Frame) → IsSorted (in_order (zip t path)) → IsSorted (in_order t)
unfolding zip in_order
IsSorted-zip t [] h = h
IsSorted-zip t (left_of c v r ∷ path) h =
    (IsSorted-IsSplit (in_order t) v (in_order r) (IsSorted-zip (node c t v r) path h)).left
IsSorted-zip t (right_of c l v ∷ path) h =
    (IsSorted-IsSplit (in_order l) v (in_order t) (IsSorted-zip (node c l v t) path h)).right

-- What a round puts in the place of the grandparent.
abbrev pub Keeps : Tree → Round → Type 0
Keeps old (recoloured t) = in_order t ≡ in_order old
Keeps old (single t) = in_order t ≡ in_order old
Keeps old (double t) = in_order t ≡ in_order old
Keeps old fault = Unit {0}

lr_round-Keeps :
    (gc pc : Color) (n pl : Tree) (pv gv : ℤ) (u : Tree)
    → Keeps (node gc (node pc pl pv n) gv u) (lr_round pl pv n gv u)
unfolding lr_round in_order
lr_round-Keeps gc pc leaf pl pv gv u = tt
lr_round-Keeps gc pc (node c nl nv nr) pl pv gv u = simp append_assoc

rl_round-Keeps :
    (gc pc : Color) (n : Tree) (pv : ℤ) (pr : Tree) (gv : ℤ) (u : Tree)
    → Keeps (node gc u gv (node pc n pv pr)) (rl_round u gv n pv pr)
unfolding rl_round in_order
rl_round-Keeps gc pc leaf pv pr gv u = tt
rl_round-Keeps gc pc (node c nl nv nr) pv pr gv u = simp append_assoc

pub fix_round-Keeps : (n : Tree) (f g : Frame) → Keeps (zip n (f ∷ g ∷ [])) (fix_round n f g)
unfolding fix_round zip in_order
fix_round-Keeps n (left_of pc pv pr) (left_of gc gv u) = elim (Bool-cases (is_red u)) [
  | inl e ↦ rw e (ground (arith, in_order-blacken u))
  | inr e ↦ rw e (ground (arith, append_assoc (in_order n) (pv ∷ in_order pr) (gv ∷ in_order u)))
]
fix_round-Keeps n (right_of pc pl pv) (left_of gc gv u) = elim (Bool-cases (is_red u)) [
  | inl e ↦ rw e (ground (arith, in_order-blacken u))
  | inr e ↦ rw e (lr_round-Keeps gc pc n pl pv gv u)
]
fix_round-Keeps n (right_of pc pl pv) (right_of gc u gv) = elim (Bool-cases (is_red u)) [
  | inl e ↦ rw e (ground (arith, in_order-blacken u))
  | inr e ↦ rw e (ground (arith, append_assoc (in_order u) (gv ∷ in_order pl) (pv ∷ in_order n)))
]
fix_round-Keeps n (left_of pc pv pr) (right_of gc u gv) = elim (Bool-cases (is_red u)) [
  | inl e ↦ rw e (ground (arith, in_order-blacken u))
  | inr e ↦ rw e (rl_round-Keeps gc pc n pv pr gv u)
]
