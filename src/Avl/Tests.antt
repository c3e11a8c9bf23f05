-- ===== src/Avl/Tests.antt =====
-- The tree of `main` in algorithm_about/binary_tree/AVL_tree.cpp, and the theorems at concrete trees.
use demo_code.Prelude.{ℕ, ◌+◌, ◌≤◌, pos, ◌≡◌, refl, some, ◌>>=◌, arith, Returns}
use demo_code.Prelude.Sorted.{IsSorted, insert, remove}
use demo_code.Avl.Tree.{Tree, leaf, node, height, inorder, add_node_re, del_node_re, del_fix_left}
use demo_code.Avl.Balance.{IsBalanced, del_fix_left-unbalanced}
use demo_code.Avl.Refines.{IsAvl, add_node_re-refines, del_node_re-refines}
use demo_code.Avl.Iter.{add_node, del_node}
use demo_code.Avl.Iter.Agreement.{add_node-eq-add_node_re}
use demo_code.Avl.Iter.Deletion.{del_node-refines}

abbrev single : ℕ → Tree
single n = node leaf (pos n) leaf

-- 20, 10, 30, 40, 25, 9, 11, 8
abbrev sample : Tree
sample =
    node (node (node (single 8) (pos 9) leaf) (pos 10) (single 11)) (pos 20)
      (node (single 25) (pos 30) (single 40))

main_tree :
    (do
      a ← add_node_re leaf (pos 20)
      b ← add_node_re a (pos 10)
      c ← add_node_re b (pos 30)
      d ← add_node_re c (pos 40)
      e ← add_node_re d (pos 25)
      f ← add_node_re e (pos 9)
      g ← add_node_re f (pos 11)
      add_node_re g (pos 8))
    ≡ some sample
unfolding add_node_re
main_tree = refl

main_deletion :
    del_node sample (pos 30)
    ≡ some (
        node
          (node (node (single 8) (pos 9) leaf) (pos 10) (single 11))
          (pos 20)
          (node leaf (pos 25) (single 40)))
unfolding del_node
main_deletion = refl

sample-IsAvl : IsAvl sample
unfolding height inorder
sample-IsAvl = omega arith

add_node_re-refines_example : Returns (add_node_re sample (pos 7)) (λ u.
    IsAvl u
    × (inorder u ≡ insert (pos 7) (inorder sample))
    × (height sample ≤ height u)
    × (height u ≤ height sample + 1))
add_node_re-refines_example = add_node_re-refines sample (pos 7) sample-IsAvl

del_node_re-refines_example :
    Returns
      (del_node_re sample (pos 20))
      (λ u. IsSorted (inorder u) × (inorder u ≡ remove (pos 20) (inorder sample)))
del_node_re-refines_example = del_node_re-refines sample (pos 20) sample-IsAvl.ordered

del_node-refines_example :
    Returns
      (del_node sample (pos 10))
      (λ u. IsSorted (inorder u) × (inorder u ≡ remove (pos 10) (inorder sample)))
del_node-refines_example = del_node-refines sample (pos 10) sample-IsAvl.ordered

add_node-eq-add_node_re_example : add_node (single 3) (pos 5) ≡ add_node_re (single 3) (pos 5)
add_node-eq-add_node_re_example =
    add_node-eq-add_node_re (single 3) (pos 5) (unfold height in omega arith) (tt, (λ e. cc), tt)

del_fix_left-unbalanced_example :
    Returns
      (del_fix_left (node (single 1) (pos 2) (node (single 3) (pos 4) leaf)) (pos 6) (single 7))
      (λ u. ¬ (IsBalanced u))
unfolding height
del_fix_left-unbalanced_example =
    del_fix_left-unbalanced leaf (pos 1) leaf (pos 2) (node (single 3) (pos 4) leaf) (pos 6)
      (single 7) refl refl
