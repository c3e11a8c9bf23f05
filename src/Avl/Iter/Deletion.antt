-- ===== src/Avl/Iter/Deletion.antt =====
-- algorithm_about/binary_tree/AVL_tree.cpp: `DelNode` removes a key from a search tree.
use demo_code.Prelude.{
  ℤ, ltb_ℤ, ◌≡◌, refl, sym, ap, ◌∙◌, inl, inr, Bool-cases, arith, Returns, Returns-and,
  Returns-bind, none, some, >>=-eq-some, List, [], ◌∷◌, ◌++◌, eq_of_parts, Option,
}
use demo_code.Prelude.Sorted.{
  IsSorted, IsSorted-IsSplit, remove, remove-append_lt, remove-append_gt, remove-append_self,
  remove-IsSorted,
}
use demo_code.Avl.Tree.{
  Tree, leaf, node, inorder, unlink_max, replace_root, del_fix_left, del_fix_right,
}
use demo_code.Avl.Contents.{inorder-del_fix_left, inorder-del_fix_right, inorder-replace_root}
use demo_code.Avl.Balance.{del_fix_left-total, del_fix_right-total}
use demo_code.Avl.Iter.{
  Frame, went_left, went_right, Found, del_descend, del_rebalance, del_climb, del_splice, del_node,
}

-- The keys of the whole tree, from those of the subtree behind the top link.
abbrev pub around : List Frame → List ℤ → List ℤ
around [] xs = xs
around (went_left v r ∷ path) xs = around path (xs ++ v ∷ inorder r)
around (went_right l v ∷ path) xs = around path (inorder l ++ v ∷ xs)

-- One round is that of the recursion on one side or on the other.
inorder-del_rebalance :
    (l : Tree) (v : ℤ) (r u : Tree)
    → del_rebalance l v r ≡ some u
    → inorder u ≡ inorder (node l v r)
unfolding del_rebalance del_fix_left del_fix_right
inorder-del_rebalance l v r u h =
    ground (arith, inorder-del_fix_left l v r u, inorder-del_fix_right l v r u)

del_rebalance-total : (l : Tree) (v : ℤ) (r : Tree) → Returns (del_rebalance l v r) (λ u. Unit)
unfolding del_rebalance del_fix_left del_fix_right
del_rebalance-total l v r = ground (arith, del_fix_left-total l v r, del_fix_right-total l v r)

inorder-del_climb :
    (t : Tree) (path : List Frame) (u : Tree)
    → del_climb t path ≡ some u
    → inorder u ≡ around path (inorder t)
unfolding del_climb inorder
inorder-del_climb t [] u h = ground arith
inorder-del_climb t (went_left v r ∷ path) u h =
    let (t', e, f) = >>=-eq-some (del_rebalance t v r) (λ t'. del_climb t' path) h in
    inorder-del_climb t' path u f ∙ ap (around path) (inorder-del_rebalance t v r t' e)
inorder-del_climb t (went_right l v ∷ path) u h =
    let (t', e, f) = >>=-eq-some (del_rebalance l v t) (λ t'. del_climb t' path) h in
    inorder-del_climb t' path u f ∙ ap (around path) (inorder-del_rebalance l v t t' e)

del_climb-total : (t : Tree) (path : List Frame) → Returns (del_climb t path) (λ u. Unit)
unfolding del_climb
del_climb-total t [] = tt
del_climb-total t (went_left v r ∷ path) =
    Returns-bind (del_rebalance t v r) (λ t'. del_climb t' path) (λ _. Unit) (λ _. Unit)
      (del_rebalance-total t v r) (λ t' _. del_climb-total t' path)
del_climb-total t (went_right l v ∷ path) =
    Returns-bind (del_rebalance l v t) (λ t'. del_climb t' path) (λ _. Unit) (λ _. Unit)
      (del_rebalance-total l v t) (λ t' _. del_climb-total t' path)

-- The replacement of the deleted node, before the first round looks at it.
inorder-del_splice :
    (l r : Tree) (path : List Frame) (u : Tree)
    → del_splice l r path ≡ some u
    → inorder u ≡ around path (inorder (replace_root l r))
unfolding del_splice replace_root inorder
inorder-del_splice leaf r path u h = inorder-del_climb r path u h
inorder-del_splice (node a w b) leaf path u h = inorder-del_climb (node a w b) path u h
inorder-del_splice (node a w leaf) (node c y d) path u h =
    inorder-del_climb a (went_left w (node c y d) ∷ path) u (unfold del_climb in h)
inorder-del_splice (node a w (node b x e)) (node c y d) path u h =
    let m = (unlink_max a w (node b x e)).0 in
    let rest = (unlink_max a w (node b x e)).1 in
    inorder-del_climb rest (went_left m (node c y d) ∷ path) u (unfold del_climb in h)

del_splice-total : (l r : Tree) (path : List Frame) → Returns (del_splice l r path) (λ u. Unit)
unfolding del_splice
del_splice-total leaf r path = del_climb-total r path
del_splice-total (node a w b) leaf path = del_climb-total (node a w b) path
del_splice-total (node a w leaf) (node c y d) path =
    unfold del_climb in del_climb-total a (went_left w (node c y d) ∷ path)
del_splice-total (node a w (node b x e)) (node c y d) path =
    let m = (unlink_max a w (node b x e)).0 in
    let rest = (unlink_max a w (node b x e)).1 in
    unfold del_climb in del_climb-total rest (went_left m (node c y d) ∷ path)

-- The keys that are left when `del_descend` has found a node, and when it has found none.
abbrev Left : Tree → ℤ → List Frame → Option Found → Type 0
Left t val path none = remove val (inorder t) ≡ inorder t
Left t val path (some f) =
    around f.path (inorder f.l ++ inorder f.r) ≡ around path (remove val (inorder t))

Left-went_left :
    (l : Tree) (v : ℤ) (r : Tree) (val : ℤ) (path : List Frame)
    → remove val (inorder l ++ v ∷ inorder r) ≡ remove val (inorder l) ++ v ∷ inorder r
    → (found : Option Found) → Left l val (went_left v r ∷ path) found
    → Left (node l v r) val path found
unfolding inorder
Left-went_left l v r val path e none h = e ∙ ap (λ xs. xs ++ v ∷ inorder r) h
Left-went_left l v r val path e (some f) h = h ∙ ap (around path) (sym e)

Left-went_right :
    (l : Tree) (v : ℤ) (r : Tree) (val : ℤ) (path : List Frame)
    → remove val (inorder l ++ v ∷ inorder r) ≡ inorder l ++ v ∷ remove val (inorder r)
    → (found : Option Found) → Left r val (went_right l v ∷ path) found
    → Left (node l v r) val path found
unfolding inorder
Left-went_right l v r val path e none h = e ∙ ap (λ xs. inorder l ++ v ∷ xs) h
Left-went_right l v r val path e (some f) h = h ∙ ap (around path) (sym e)

del_descend-Left :
    (t : Tree) (val : ℤ) (path : List Frame)
    → IsSorted (inorder t)
    → Left t val path (del_descend t val path)
unfolding del_descend inorder remove
del_descend-Left leaf val path s = refl
del_descend-Left (node l v r) val path s =
    let split = IsSorted-IsSplit (inorder l) v (inorder r) s in
    elim (Bool-cases (ltb_ℤ val v)) [
      | inl lt ↦ rw lt (
          Left-went_left l v r val path
            (remove-append_lt val v (inorder l) (inorder r) (ground arith)) _
            (del_descend-Left l val (went_left v r ∷ path) split.left))
      | inr not_lt ↦ elim (Bool-cases (ltb_ℤ v val)) [
        | inl gt ↦
            rw (not_lt, gt)
              (Left-went_right l v r val path
                (remove-append_gt val v (inorder l) (inorder r) (ground arith) split.below) _
                (del_descend-Left r val (went_right l v ∷ path) split.right))
        | inr not_gt ↦
            let same : val ≡ v = ground (arith, eq_of_parts val v) in
            rw (not_lt, not_gt, same)
              (ap (around path) (sym (remove-append_self v (inorder l) (inorder r) split.below)))
      ]
    ]

-- Of the tree that `DelNode` returns.
abbrev Removed : Tree → ℤ → Tree → Type 0
Removed t val u = IsSorted (inorder u) × (inorder u ≡ remove val (inorder t))

del_node-Removed :
    (t : Tree) (val : ℤ)
    → IsSorted (inorder t)
    → (found : Option Found) → Left t val [] found
    → Returns (elim found [ none ↦ some t | some f ↦ del_splice f.l f.r f.path ]) (Removed t val)
del_node-Removed t val s none h = (s, sym h)
del_node-Removed t val s (some f) h =
    Returns-and (del_splice f.l f.r f.path) (del_splice-total f.l f.r f.path) λ u e _.
      let keys =
        inorder-del_splice f.l f.r f.path u e
        ∙ ap (around f.path) (inorder-replace_root f.l f.r)
        ∙ h in
      (rw keys (remove-IsSorted val (inorder t) s), keys)

-- On a search tree, balanced or not, `DelNode` returns, with no read through NULL, a search tree
-- that holds the old keys without `val`.
pub del_node-refines :
    (t : Tree) (val : ℤ)
    → IsSorted (inorder t)
    → Returns (del_node t val) (λ u. IsSorted (inorder u) × (inorder u ≡ remove val (inorder t)))
unfolding del_node
del_node-refines t val s =
    del_node-Removed t val s (del_descend t val []) (del_descend-Left t val [] s)
