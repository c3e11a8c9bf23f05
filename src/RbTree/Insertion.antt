-- ===== src/RbTree/Insertion.antt =====
-- `AddFixUp` keeps the values, and reads no null pointer where the root is black.
use demo_code.Prelude.{
  ◌<ℤ◌, List, [], ◌∷◌, ◌≡◌, refl, ◌∙◌, arith, Option, some, false, inl, inr, Bool-cases, ◌>>=◌,
}
use demo_code.Prelude.Sorted.{IsSorted, IsSorted-IsSplit, All-append}
use demo_code.RbTree.{
  Tree, leaf, node, Frame, left_of, right_of, zip, is_red, is_red_frame, blacken, rebuild_con,
  Round, recoloured, single, double, fault, fix_round, after_round, add_fix_up,
}
use demo_code.RbTree.Contents.{
  in_order, in_order-blacken, in_order-zip, IsSorted-zip, Keeps, fix_round-Keeps,
}

abbrev pub IsNode : Tree → Type 0
IsNode leaf = ⊥
IsNode (node c l v r) = Unit

abbrev pub IsBlack : Tree → Type 0
IsBlack t = is_red t ≡ false

-- The root is black, seen from below.
abbrev pub IsBlackTop : List Frame → Type 0
IsBlackTop [] = Unit
IsBlackTop (f ∷ []) = is_red_frame f ≡ false
IsBlackTop (f ∷ g ∷ path) = IsBlackTop (g ∷ path)

-- In a sorted tree the values tell the side on which the child was.
pub rebuild_con-zip :
    (t : Tree) (path : List Frame)
    → IsNode t
    → IsSorted (in_order (zip t path))
    → rebuild_con t path ≡ some (zip t path)
unfolding rebuild_con zip in_order
rebuild_con-zip leaf path n h = elim n [ ]
rebuild_con-zip (node c l v r) [] n h = refl
rebuild_con-zip (node c l v r) (left_of d w s ∷ path) n h =
    let t = node c l v r in
    let split = IsSorted-IsSplit (in_order t) w (in_order s) (IsSorted-zip (node d t w s) path h) in
    ground (arith, ((All-append (λ x. x <ℤ w) (in_order l) (v ∷ in_order r)).0 split.below).1.0)
rebuild_con-zip (node c l v r) (right_of d s w ∷ path) n h =
    let t = node c l v r in
    let split = IsSorted-IsSplit (in_order s) w (in_order t) (IsSorted-zip (node d s w t) path h) in
    ground (arith, ((All-append (λ x. w <ℤ x) (in_order l) (v ∷ in_order r)).0 split.above).1.0)

abbrev HasNode : Round → Type 0
HasNode (recoloured t) = IsNode t
HasNode (single t) = IsNode t
HasNode (double t) = IsNode t
HasNode fault = ⊥

fix_round-HasNode : (n : Tree) (f g : Frame) → IsNode n → HasNode (fix_round n f g)
unfolding fix_round
fix_round-HasNode leaf f g h = elim h [ ]
fix_round-HasNode (node c l v r) (left_of pc pv pr) (left_of gc gv u) h = ground arith
fix_round-HasNode (node c l v r) (right_of pc pl pv) (left_of gc gv u) h = ground arith
fix_round-HasNode (node c l v r) (right_of pc pl pv) (right_of gc u gv) h = ground arith
fix_round-HasNode (node c l v r) (left_of pc pv pr) (right_of gc u gv) h = ground arith

-- A result with the values of `old` and a black root.
pub record Rebuilt (old : Tree) (result : Option Tree) : Type 0 where
  pub tree : Tree
  pub returned : result ≡ some tree
  pub same : in_order tree ≡ in_order old
  pub top : IsBlack tree

blacken-IsBlack : (t : Tree) → IsBlack (blacken t)
unfolding blacken is_red
blacken-IsBlack leaf = refl
blacken-IsBlack (node c l v r) = refl

blackened : (t old : Tree) → in_order t ≡ in_order old → Rebuilt old (some (blacken t))
blackened t old e = record {
  tree = blacken t;
  returned = refl;
  same = in_order-blacken t ∙ e;
  top = blacken-IsBlack t;
}

again-Rebuilt :
    (old t : Tree) (result : Option Tree)
    → in_order t ≡ in_order old
    → Rebuilt t result
    → Rebuilt old result
again-Rebuilt old t result e r = record {
  tree = r.tree;
  returned = r.returned;
  same = r.same ∙ e;
  top = r.top;
}

after_round-Rebuilt :
    (again : Tree → Option Tree) (path : List Frame) (old : Tree) (x : Round)
    → IsSorted (in_order (zip old path))
    → Keeps old x
    → HasNode x
    → ((t : Tree) → IsNode t → IsSorted (in_order (zip t path)) → Rebuilt (zip t path) (again t))
    → Rebuilt (zip old path) (after_round again path x)
unfolding after_round
after_round-Rebuilt again path old (recoloured t) s e n rec =
    let k = in_order-zip t old path e in
    again-Rebuilt (zip old path) (zip t path) (again t) k (rec t n (rw k s))
after_round-Rebuilt again path old (single t) s e n rec =
    let k = in_order-zip t old path e in
    rw (rebuild_con-zip t path n (rw k s), ◌>>=◌) (blackened (zip t path) (zip old path) k)
after_round-Rebuilt again path old (double t) s e n rec =
    let k = in_order-zip t old path e in
    rw (rebuild_con-zip t path n (rw k s), ◌>>=◌)
      (again-Rebuilt (zip old path) (zip t path) (again t) k (rec t n (rw k s)))
after_round-Rebuilt again path old fault s e n rec = elim n [ ]

pub zip-nil : (n : Tree) → zip n [] ≡ n
unfolding zip
zip-nil n = refl

zip-two :
    (n : Tree) (f g : Frame) (path : List Frame)
    → zip n (f ∷ g ∷ path) ≡ zip (zip n (f ∷ g ∷ [])) path
unfolding zip
zip-two n (left_of c v r) (left_of d w u) path = refl
zip-two n (left_of c v r) (right_of d u w) path = refl
zip-two n (right_of c l v) (left_of d w u) path = refl
zip-two n (right_of c l v) (right_of d u w) path = refl

rest_IsBlackTop : (f g : Frame) (path : List Frame) → IsBlackTop (f ∷ g ∷ path) → IsBlackTop path
rest_IsBlackTop f g [] h = tt
rest_IsBlackTop f g (x ∷ path) h = h

-- `AddFixUp` from a node below a black root returns a tree with the same values.
pub add_fix_up-Rebuilt :
    (path : List Frame) (n : Tree)
    → IsNode n
    → IsBlackTop path
    → IsSorted (in_order (zip n path))
    → Rebuilt (zip n path) (add_fix_up n path)
unfolding add_fix_up
add_fix_up-Rebuilt [] n h top s = rw (zip-nil n) (blackened n n refl)
add_fix_up-Rebuilt (f ∷ []) n h top s = rw top (blackened (zip n (f ∷ [])) (zip n (f ∷ [])) refl)
add_fix_up-Rebuilt (f ∷ g ∷ path) n h top s = elim (Bool-cases (is_red_frame f)) [
  | inr no_red ↦ rw no_red (blackened (zip n (f ∷ g ∷ path)) (zip n (f ∷ g ∷ path)) refl)
  | inl reddish ↦ rw reddish (
      rw (zip-two n f g path) (
        after_round-Rebuilt (λ t. add_fix_up t path) path (zip n (f ∷ g ∷ [])) (fix_round n f g)
          (rw (zip-two n f g path) at s) (fix_round-Keeps n f g) (fix_round-HasNode n f g h)
          (λ t k sorted. add_fix_up-Rebuilt path t k (rest_IsBlackTop f g path top) sorted)))
]
