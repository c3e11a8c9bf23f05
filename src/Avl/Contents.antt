-- ===== src/Avl/Contents.antt =====
-- algorithm_about/binary_tree/AVL_tree.cpp: the rotations keep the keys and their order, and the
-- recursive insertion and deletion are those of a sorted set.
use mathlib.Core.List.{append_assoc, append-nil}
use demo_code.Prelude.{
  ℤ, ltb_ℤ, ◌≡◌, refl, ap, sym, ◌∙◌, inl, inr, Bool-cases, some, arith, [], ◌∷◌, ◌++◌, >>=-eq-some,
}
use demo_code.Prelude.Sorted.{
  IsSorted, IsSorted-IsSplit, insert, remove, insert-append_lt, insert-append_gt,
  insert-append_self, remove-append_lt, remove-append_gt, remove-append_self,
}
use demo_code.Avl.Tree.{
  Tree, leaf, node, ll, rr, lr, rl, add_fix_right, add_fix_left, add_node_re, inorder, del_fix_left,
  del_fix_right, unlink_max, replace_root, del_node_re,
}

pub inorder-ll : (t u : Tree) → ll t ≡ some u → inorder u ≡ inorder t
unfolding ll inorder
inorder-ll leaf u h = ground arith
inorder-ll (node leaf y c) u h = ground arith
inorder-ll (node (node a x b) y c) u h =
    ground (arith, append_assoc (inorder a) (x ∷ inorder b) (y ∷ inorder c))

pub inorder-rr : (t u : Tree) → rr t ≡ some u → inorder u ≡ inorder t
unfolding rr inorder
inorder-rr leaf u h = ground arith
inorder-rr (node a x leaf) u h = ground arith
inorder-rr (node a x (node b y c)) u h =
    ground (arith, append_assoc (inorder a) (x ∷ inorder b) (y ∷ inorder c))

pub inorder-lr : (t u : Tree) → lr t ≡ some u → inorder u ≡ inorder t
unfolding lr inorder
inorder-lr leaf u h = ground arith
inorder-lr (node l v r) u h =
    let (l', e, f) = >>=-eq-some (rr l) (λ l'. ll (node l' v r)) h in
    inorder-ll (node l' v r) u f ∙ ap (λ xs. xs ++ v ∷ inorder r) (inorder-rr l l' e)

pub inorder-rl : (t u : Tree) → rl t ≡ some u → inorder u ≡ inorder t
unfolding rl inorder
inorder-rl leaf u h = ground arith
inorder-rl (node l v r) u h =
    let (r', e, f) = >>=-eq-some (ll r) (λ r'. rr (node l v r')) h in
    inorder-rr (node l v r') u f ∙ ap (λ xs. inorder l ++ v ∷ xs) (inorder-ll r r' e)

inorder-add_fix_right :
    (val : ℤ) (l : Tree) (v : ℤ) (r u : Tree)
    → add_fix_right val l v r ≡ some u
    → inorder u ≡ inorder (node l v r)
unfolding add_fix_right
inorder-add_fix_right val l v r u h =
    ground (arith, inorder-rr (node l v r) u, inorder-rl (node l v r) u)

inorder-add_fix_left :
    (val : ℤ) (l : Tree) (v : ℤ) (r u : Tree)
    → add_fix_left val l v r ≡ some u
    → inorder u ≡ inorder (node l v r)
unfolding add_fix_left
inorder-add_fix_left val l v r u h =
    ground (arith, inorder-ll (node l v r) u, inorder-lr (node l v r) u)

pub inorder-del_fix_left :
    (l : Tree) (v : ℤ) (r u : Tree) → del_fix_left l v r ≡ some u → inorder u ≡ inorder (node l v r)
unfolding del_fix_left
inorder-del_fix_left leaf v r u h = ground arith
inorder-del_fix_left (node leaf w b) v r u h =
    ground (arith, inorder-lr (node (node leaf w b) v r) u)
inorder-del_fix_left (node (node a x b) w c) v r u h =
    ground (arith, inorder-ll (node (node (node a x b) w c) v r) u)

pub inorder-del_fix_right :
    (l : Tree) (v : ℤ) (r u : Tree)
    → del_fix_right l v r ≡ some u
    → inorder u ≡ inorder (node l v r)
unfolding del_fix_right
inorder-del_fix_right l v leaf u h = ground arith
inorder-del_fix_right l v (node a w leaf) u h =
    ground (arith, inorder-rl (node l v (node a w leaf)) u)
inorder-del_fix_right l v (node a w (node b x c)) u h =
    ground (arith, inorder-rr (node l v (node a w (node b x c))) u)

inorder-unlink_max :
    (l : Tree) (v : ℤ) (r : Tree)
    → inorder (unlink_max l v r).1 ++ (unlink_max l v r).0 ∷ [] ≡ inorder (node l v r)
unfolding unlink_max inorder
inorder-unlink_max l v leaf = refl
inorder-unlink_max l v (node rl w rr) =
    let m = (unlink_max rl w rr).0 in
    let rest = (unlink_max rl w rr).1 in
    append_assoc (inorder l) (v ∷ inorder rest) (m ∷ [])
    ∙ ap (λ xs. inorder l ++ v ∷ xs) (inorder-unlink_max rl w rr)

pub inorder-replace_root : (l r : Tree) → inorder (replace_root l r) ≡ inorder l ++ inorder r
unfolding replace_root inorder
inorder-replace_root leaf r = refl
inorder-replace_root (node a w b) leaf = sym (append-nil (inorder (node a w b)))
inorder-replace_root (node a w leaf) (node c y d) =
    sym (append_assoc (inorder a) (w ∷ []) (inorder (node c y d)))
inorder-replace_root (node a w (node b x e)) (node c y d) =
    let m = (unlink_max a w (node b x e)).0 in
    let rest = (unlink_max a w (node b x e)).1 in
    let right = inorder (node c y d) in
    sym (append_assoc (inorder rest) (m ∷ []) right)
    ∙ ap (λ xs. xs ++ right) (inorder-unlink_max a w (node b x e))

-- On a search tree a result of `AddNode_re` holds the keys of the tree and the new one.
pub inorder-add_node_re :
    (t : Tree) (val : ℤ) (u : Tree)
    → IsSorted (inorder t)
    → add_node_re t val ≡ some u
    → inorder u ≡ insert val (inorder t)
unfolding add_node_re inorder insert
inorder-add_node_re leaf val u s h = ground arith
inorder-add_node_re (node l v r) val u s h =
    let split = IsSorted-IsSplit (inorder l) v (inorder r) s in
    elim (Bool-cases (ltb_ℤ v val)) [
      | inl gt ↦
          let (r', e, f) =
            >>=-eq-some (add_node_re r val) (λ r'. add_fix_right val l v r') (rw gt at h) in
          inorder-add_fix_right val l v r' u f
          ∙ ap (λ xs. inorder l ++ v ∷ xs) (inorder-add_node_re r val r' split.right e)
          ∙ sym (insert-append_gt val v (inorder l) (inorder r) (ground arith) split.below)
      | inr not_gt ↦ elim (Bool-cases (ltb_ℤ val v)) [
        | inl lt ↦
            let (l', e, f) =
              >>=-eq-some (add_node_re l val) (λ l'. add_fix_left val l' v r)
                (rw (not_gt, lt) at h) in
            inorder-add_fix_left val l' v r u f
            ∙ ap (λ xs. xs ++ v ∷ inorder r) (inorder-add_node_re l val l' split.left e)
            ∙ sym (insert-append_lt val v (inorder l) (inorder r) (ground arith))
        | inr not_lt ↦
            let same : val ≡ v = ground arith in
            ground (arith, insert-append_self v (inorder l) (inorder r) split.below)
      ]
    ]

-- On a search tree a result of `DelNode_re` holds the keys of the tree without `val`.
pub inorder-del_node_re :
    (t : Tree) (val : ℤ) (u : Tree)
    → IsSorted (inorder t)
    → del_node_re t val ≡ some u
    → inorder u ≡ remove val (inorder t)
unfolding del_node_re inorder remove
inorder-del_node_re leaf val u s h = ground arith
inorder-del_node_re (node l v r) val u s h =
    let split = IsSorted-IsSplit (inorder l) v (inorder r) s in
    elim (Bool-cases (ltb_ℤ v val)) [
      | inl gt ↦
          let (r', e, f) =
            >>=-eq-some (del_node_re r val) (λ r'. del_fix_left l v r') (rw gt at h) in
          inorder-del_fix_left l v r' u f
          ∙ ap (λ xs. inorder l ++ v ∷ xs) (inorder-del_node_re r val r' split.right e)
          ∙ sym (remove-append_gt val v (inorder l) (inorder r) (ground arith) split.below)
      | inr not_gt ↦ elim (Bool-cases (ltb_ℤ val v)) [
        | inl lt ↦
            let (l', e, f) =
              >>=-eq-some (del_node_re l val) (λ l'. del_fix_right l' v r) (rw (not_gt, lt) at h) in
            inorder-del_fix_right l' v r u f
            ∙ ap (λ xs. xs ++ v ∷ inorder r) (inorder-del_node_re l val l' split.left e)
            ∙ sym (remove-append_lt val v (inorder l) (inorder r) (ground arith))
        | inr not_lt ↦
            let same : val ≡ v = ground arith in
            ground (
              arith,
              inorder-replace_root l r,
              remove-append_self v (inorder l) (inorder r) split.below,
            )
      ]
    ]
