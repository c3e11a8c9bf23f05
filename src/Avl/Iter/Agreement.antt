-- ===== src/Avl/Iter/Agreement.antt =====
-- algorithm_about/binary_tree/AVL_tree.cpp: `AddNode` against `AddNode_re`.
use demo_code.Prelude.{
  ◌+◌, ◌≤◌, ℤ, ltb_ℤ, ◌≡◌, ◌≢◌, refl, sym, ◌∙◌, inl, inr, Bool-cases, true, false, arith, Returns,
  none, some, ◌>>=◌, List, [], ◌∷◌, eq_of_parts, Option,
}
use demo_code.Avl.Tree.{Tree, leaf, node, height, add_fix_right, add_fix_left, add_node_re}
use demo_code.Avl.Balance.{IsBalanced, Grown, add_node_re-Grown}
use demo_code.Avl.Iter.{
  Frame, went_left, went_right, add_descend, add_rebalance, add_climb, add_finish, add_node,
}

-- No node of the tree has the value `val`.
abbrev pub Lacks : ℤ → Tree → Type 0
Lacks val leaf = Unit
Lacks val (node l v r) = Lacks val l × (v ≢ val) × Lacks val r

-- Where the other side is not the higher one, the loop does what the recursion does.
add_rebalance-left :
    (val : ℤ) (l : Tree) (v : ℤ) (r : Tree)
    → height r ≤ height l + 1
    → add_rebalance val l v r ≡ add_fix_left val l v r
unfolding add_rebalance add_fix_left
add_rebalance-left val l v r h = ground arith

add_rebalance-right :
    (val : ℤ) (l : Tree) (v : ℤ) (r : Tree)
    → height l ≤ height r + 1
    → add_rebalance val l v r ≡ add_fix_right val l v r
unfolding add_rebalance add_fix_right
add_rebalance-right val l v r h = ground arith

-- A chain may replace its second step where the first step's results allow.
>>=-congr {ℓ κ} :
    {A : Type ℓ} {B : Type κ} (m : Option A) (f g : A → Option B) (P : A → Type 0)
    → Returns m P
    → ((a : A) → P a → f a ≡ g a)
    → (m >>= f) ≡ (m >>= g)
>>=-congr none f g P h k = absurd h
>>=-congr (some a) f g P h k = k a h

>>=-assoc {ℓ} :
    {A B C : Type ℓ} (m : Option A) (f : A → Option B) (g : B → Option C)
    → ((m >>= f) >>= g) ≡ (m >>= (λ a. f a >>= g))
>>=-assoc none f g = refl
>>=-assoc (some a) f g = refl

leaf≢node : {l : Tree} {v : ℤ} {r : Tree} → node l v r ≢ leaf
leaf≢node e = cc

module _ (val : ℤ) where
  -- The round of the loop at the parent of a subtree that was rebuilt by the recursion.
  climb-left :
      (l : Tree) (v : ℤ) (r : Tree) (path : List Frame)
      → IsBalanced l
      → height r ≤ height l + 1
      → (add_node_re l val >>= λ u. add_climb val u (went_left v r ∷ path))
        ≡ ((do l' ← add_node_re l val; add_fix_left val l' v r) >>= λ u. add_climb val u path)
  unfolding add_climb
  climb-left l v r path b h =
      >>=-congr (add_node_re l val) (λ u. add_climb val u (went_left v r ∷ path))
        (λ u. add_fix_left val u v r >>= λ w. add_climb val w path) (Grown val (height l))
        (add_node_re-Grown l val b) (λ u g. rw (add_rebalance-left val u v r (ground arith)))
      ∙ sym
          (>>=-assoc (add_node_re l val) (λ u. add_fix_left val u v r) (λ w. add_climb val w path))

  climb-right :
      (l : Tree) (v : ℤ) (r : Tree) (path : List Frame)
      → IsBalanced r
      → height l ≤ height r + 1
      → (add_node_re r val >>= λ u. add_climb val u (went_right l v ∷ path))
        ≡ ((do r' ← add_node_re r val; add_fix_right val l v r') >>= λ u. add_climb val u path)
  unfolding add_climb
  climb-right l v r path b h =
      >>=-congr (add_node_re r val) (λ u. add_climb val u (went_right l v ∷ path))
        (λ u. add_fix_right val l v u >>= λ w. add_climb val w path) (Grown val (height r))
        (add_node_re-Grown r val b) (λ u g. rw (add_rebalance-right val l v u (ground arith)))
      ∙ sym
          (>>=-assoc (add_node_re r val) (λ u. add_fix_right val l v u) (λ w. add_climb val w path))

  -- What the walk down from `t` and the climb back to it do, for any stack below.
  abbrev Agrees : Tree → List Frame → Type 0
  Agrees t path =
      add_finish val (add_descend t val path) ≡ (add_node_re t val >>= λ u. add_climb val u path)

  step-left :
      (l : Tree) (v : ℤ) (r : Tree) (path : List Frame)
      → ltb_ℤ val v ≡ true
      → IsBalanced (node l v r)
      → (l ≢ leaf → Agrees l (went_left v r ∷ path))
      → add_finish val (add_descend l val (went_left v r ∷ path))
        ≡ ((do l' ← add_node_re l val; add_fix_left val l' v r) >>= λ u. add_climb val u path)
  unfolding add_descend add_node_re add_finish height
  step-left leaf v r path lt b ih = ground arith
  step-left (node a w c) v r path lt b ih = ih leaf≢node ∙ climb-left (node a w c) v r path b.0 b.3

  step-right :
      (l : Tree) (v : ℤ) (r : Tree) (path : List Frame)
      → ltb_ℤ v val ≡ true
      → IsBalanced (node l v r)
      → (r ≢ leaf → Agrees r (went_right l v ∷ path))
      → add_finish val (add_descend r val (went_right l v ∷ path))
        ≡ ((do r' ← add_node_re r val; add_fix_right val l v r') >>= λ u. add_climb val u path)
  unfolding add_descend add_node_re add_finish height
  step-right l v leaf path gt b ih = ground arith
  step-right l v (node a w c) path gt b ih =
      ih leaf≢node ∙ climb-right l v (node a w c) path b.1 b.2

  add_finish-add_descend :
      (t : Tree) (path : List Frame) → IsBalanced t → Lacks val t → t ≢ leaf → Agrees t path
  unfolding add_descend add_node_re
  add_finish-add_descend leaf path b h n = absurd (n refl)
  add_finish-add_descend (node l v r) path b h n = elim (Bool-cases (ltb_ℤ val v)) [
    | inl lt ↦
        let not_gt : ltb_ℤ v val ≡ false = ground arith in
        rw (lt, not_gt)
          (step-left l v r path lt b (add_finish-add_descend l (went_left v r ∷ path) b.0 h.0))
    | inr not_lt ↦
        let gt : ltb_ℤ v val ≡ true = ground (arith, eq_of_parts v val) in
        rw (not_lt, gt)
          (step-right l v r path gt b (add_finish-add_descend r (went_right l v ∷ path) b.1 h.2))
  ]

>>=-some {ℓ} : {A : Type ℓ} (m : Option A) → (m >>= λ a. some a) ≡ m
>>=-some none = refl
>>=-some (some a) = refl

-- On a balanced tree without `val`, `AddNode` does what `AddNode_re` does.
pub add_node-eq-add_node_re :
    (t : Tree) (val : ℤ) → IsBalanced t → Lacks val t → add_node t val ≡ add_node_re t val
unfolding add_node
add_node-eq-add_node_re leaf val b h = unfold add_node_re in refl
add_node-eq-add_node_re (node l v r) val b h =
    add_finish-add_descend val (node l v r) [] b h leaf≢node
    ∙ unfold add_climb in >>=-some (add_node_re (node l v r) val)

-- A second insertion of a key, at a node with no right child, loses the node's left subtree.
pub add_node-drops :
    (l : Tree) (v : ℤ) → add_node (node l v leaf) v ≡ some (node (node leaf v leaf) v leaf)
unfolding add_node
add_node-drops l v = ground arith
