-- ===== src/Avl/Balance.antt =====
-- algorithm_about/binary_tree/AVL_tree.cpp: `AddNode_re` keeps the heights balanced and never
-- reads through NULL; `DelNode_re` never reads through NULL on any tree.
use demo_code.Prelude.{
  ℕ, ◌+◌, ◌≤◌, ℤ, ltb_ℤ, ◌≡◌, refl, ◌⊎◌, inl, inr, Bool-cases, true, arith, Returns, Returns-bind,
  max,
}
use demo_code.Avl.Tree.{
  Tree, leaf, node, height, add_fix_right, add_fix_left, add_node_re, del_fix_left, del_fix_right,
  del_node_re,
}

-- The heights of two siblings differ by at most one.
abbrev pub IsBalanced : Tree → Type 0
IsBalanced leaf = Unit
IsBalanced (node l v r) =
    IsBalanced l × IsBalanced r × (height l ≤ height r + 1) × (height r ≤ height l + 1)

-- Where a subtree has grown by one level, the side of the new key is the higher one.
abbrev pub Leans : ℤ → Tree → Type 0
Leans val leaf = ⊥
Leans val (node l w r) =
    ((ltb_ℤ w val ≡ true) × (height r ≡ height l + 1))
    ⊎ ((ltb_ℤ val w ≡ true) × (height l ≡ height r + 1))
    ⊎ ((height l ≡ 0) × (height r ≡ 0))

-- A result of an insertion of `val` in a tree of height `h`.
abbrev pub Grown : ℤ → ℕ → Tree → Type 0
Grown val h t = IsBalanced t × ((height t ≡ h) ⊎ ((height t ≡ h + 1) × Leans val t))

add_fix_right-Grown :
    (val : ℤ) (l : Tree) (v : ℤ) (r : Tree) (h : ℕ)
    → ltb_ℤ v val ≡ true
    → IsBalanced l
    → Grown val h r
    → h ≤ height l + 1
    → height l ≤ h + 1
    → (d : ℕ) → d ≡ max (height l) h + 1
    → Returns (add_fix_right val l v r) (λ t. Grown val d t)
unfolding add_fix_right
add_fix_right-Grown val l v leaf h gt bl g a b d e = ground arith
add_fix_right-Grown val l v (node leaf w c) h gt bl g a b d e = ground arith
add_fix_right-Grown val l v (node (node x y z) w c) h gt bl g a b d e = ground arith

add_fix_left-Grown :
    (val : ℤ) (l : Tree) (v : ℤ) (r : Tree) (h : ℕ)
    → ltb_ℤ val v ≡ true
    → IsBalanced r
    → Grown val h l
    → h ≤ height r + 1
    → height r ≤ h + 1
    → (d : ℕ) → d ≡ max h (height r) + 1
    → Returns (add_fix_left val l v r) (λ t. Grown val d t)
unfolding add_fix_left
add_fix_left-Grown val leaf v r h lt br g a b d e = ground arith
add_fix_left-Grown val (node a w leaf) v r h lt br g p q d e = ground arith
add_fix_left-Grown val (node a w (node x y z)) v r h lt br g p q d e = ground arith

pub add_node_re-Grown :
    (t : Tree) (val : ℤ) → IsBalanced t → Returns (add_node_re t val) (λ u. Grown val (height t) u)
unfolding add_node_re height
add_node_re-Grown leaf val b = ground arith
add_node_re-Grown (node l v r) val b =
    let d = height (node l v r) in
    elim (Bool-cases (ltb_ℤ v val)) [
      | inl gt ↦ rw gt (
          Returns-bind (add_node_re r val) (λ r'. add_fix_right val l v r')
            (λ r'. Grown val (height r) r') (λ u. Grown val d u) (add_node_re-Grown r val b.1)
            (λ r' g.
              add_fix_right-Grown val l v r' (height r) gt b.0 g (omega arith) (omega arith) d
                (ground arith)))
      | inr not_gt ↦ elim (Bool-cases (ltb_ℤ val v)) [
        | inl lt ↦
            rw (not_gt, lt)
              (Returns-bind (add_node_re l val) (λ l'. add_fix_left val l' v r)
                (λ l'. Grown val (height l) l') (λ u. Grown val d u) (add_node_re-Grown l val b.0)
                (λ l' g.
                  add_fix_left-Grown val l' v r (height l) lt b.1 g (omega arith) (omega arith) d
                    (ground arith)))
        | inr not_lt ↦ rw (not_gt, not_lt) (b, inl refl)
      ]
    ]

-- The rotations of a deletion find the nodes that they read.
pub del_fix_left-total : (l : Tree) (v : ℤ) (r : Tree) → Returns (del_fix_left l v r) (λ u. Unit)
unfolding del_fix_left
del_fix_left-total leaf v r = ground arith
del_fix_left-total (node leaf w leaf) v r = ground arith
del_fix_left-total (node leaf w (node a x b)) v r = ground arith
del_fix_left-total (node (node a x b) w c) v r = ground arith

pub del_fix_right-total : (l : Tree) (v : ℤ) (r : Tree) → Returns (del_fix_right l v r) (λ u. Unit)
unfolding del_fix_right
del_fix_right-total l v leaf = ground arith
del_fix_right-total l v (node leaf w leaf) = ground arith
del_fix_right-total l v (node (node a x b) w leaf) = ground arith
del_fix_right-total l v (node a w (node b x c)) = ground arith

pub del_node_re-total : (t : Tree) (val : ℤ) → Returns (del_node_re t val) (λ u. Unit)
unfolding del_node_re
del_node_re-total leaf val = tt
del_node_re-total (node l v r) val = elim (Bool-cases (ltb_ℤ v val)) [
  | inl gt ↦ rw gt (
      Returns-bind (del_node_re r val) (λ r'. del_fix_left l v r') (λ _. Unit) (λ _. Unit)
        (del_node_re-total r val) (λ r' _. del_fix_left-total l v r'))
  | inr not_gt ↦ elim (Bool-cases (ltb_ℤ val v)) [
    | inl lt ↦
        rw (not_gt, lt)
          (Returns-bind (del_node_re l val) (λ l'. del_fix_right l' v r) (λ _. Unit) (λ _. Unit)
            (del_node_re-total l val) (λ l' _. del_fix_right-total l' v r))
    | inr not_lt ↦ rw (not_gt, not_lt) tt
  ]
]

-- After a deletion on the right, a left subtree that is higher by two, whose inner side is the higher one and
-- whose outer side is not empty, gets the single rotation all the same, and the result is not balanced.
pub del_fix_left-unbalanced :
    (a : Tree) (x : ℤ) (b : Tree) (w : ℤ) (c : Tree) (v : ℤ) (r : Tree)
    → height c ≡ height (node a x b) + 1
    → height (node (node a x b) w c) ≡ height r + 2
    → Returns (del_fix_left (node (node a x b) w c) v r) (λ u. ¬ (IsBalanced u))
unfolding del_fix_left
del_fix_left-unbalanced a x b w c v r p q = ground arith
