-- ===== src/Avl/Refines.antt =====
-- algorithm_about/binary_tree/AVL_tree.cpp: the recursive operations as operations of a sorted set.
use demo_code.Prelude.{◌+◌, ◌≤◌, ℤ, ◌≡◌, arith, Returns, Returns-and}
use demo_code.Prelude.Sorted.{IsSorted, insert, remove, insert-IsSorted, remove-IsSorted}
use demo_code.Avl.Tree.{Tree, height, add_node_re, del_node_re, inorder}
use demo_code.Avl.Contents.{inorder-add_node_re, inorder-del_node_re}
use demo_code.Avl.Balance.{IsBalanced, add_node_re-Grown, del_node_re-total}

-- A balanced search tree.
pub record IsAvl (t : Tree) : Type 0 where
  pub balanced : IsBalanced t
  pub ordered : IsSorted (inorder t)

-- On a balanced search tree `AddNode_re` returns, with no read through NULL, a balanced search tree
-- that holds the old keys and the new one, and its height grows by at most one.
pub add_node_re-refines :
    (t : Tree) (val : ℤ)
    → IsAvl t
    → Returns (add_node_re t val) (λ u.
      IsAvl u
      × (inorder u ≡ insert val (inorder t))
      × (height t ≤ height u)
      × (height u ≤ height t + 1))
add_node_re-refines t val h =
    Returns-and (add_node_re t val) (add_node_re-Grown t val h.balanced) λ u e g.
      let keys = inorder-add_node_re t val u h.ordered e in
      let sorted = insert-IsSorted val (inorder t) h.ordered in
      (record { balanced = g.0; ordered = rw keys sorted }, keys, ground arith, ground arith)

-- On a search tree, balanced or not, `DelNode_re` returns, with no read through NULL, a search tree
-- that holds the old keys without `val`.
pub del_node_re-refines :
    (t : Tree) (val : ℤ)
    → IsSorted (inorder t)
    → Returns (del_node_re t val) (λ u. IsSorted (inorder u) × (inorder u ≡ remove val (inorder t)))
del_node_re-refines t val h = Returns-and (del_node_re t val) (del_node_re-total t val) λ u e _.
    let keys = inorder-del_node_re t val u h e in
    (rw keys (remove-IsSorted val (inorder t) h), keys)
