-- ===== src/RbTree/Delete/Tests.antt =====
-- Deletions from concrete trees.
use mathlib.Core.Path.{subst}
use demo_code.Prelude.{ℕ, pos, List, [], ◌≡◌, refl, arith, none, some, inr}
use demo_code.Prelude.Sorted.{remove}
use demo_code.RbTree.{Color, red, black, Tree, leaf, node, Frame, zip}
use demo_code.RbTree.Contents.{in_order}
use demo_code.RbTree.Delete.{
  running, ended, is_null, is_left_child, climb, childless, left_round, right_lr, right_black,
  right_round, fix_step, del_loop, del_fix_up, locate, rightmost, unlinked, splice, del_node,
}
use demo_code.RbTree.Delete.Endless.{del_node-endless}
use demo_code.RbTree.Delete.Taken.{IsPlain, del_node-removes}

abbrev lone : Color → ℕ → Tree
lone c n = node c leaf (pos n) leaf

-- 1 on the left, and a red brother with two black children: the tree of 1, 2, 3, 4, 5 and 6, less 6.
abbrev five : Tree
five = node black (lone black 1) (pos 2) (node red (lone black 3) (pos 4) (lone black 5))

del_node-endless_example : del_node 1000 five (pos 1) ≡ running
unfolding locate in_order
del_node-endless_example =
    del_node-endless 1000 five (pos 1) (pos 1) (pos 2) (pos 4) (pos 3) leaf leaf (lone black 5)
      black black [] (omega arith) refl

-- 40 has two children, and takes the value of 30, whose node is black and has a red child.
abbrev plain : Tree
plain =
    node black (lone black 10) (pos 20)
      (node red (node black (lone red 25) (pos 30) leaf) (pos 40) (lone black 50))

plain-IsPlain :
    (at : Tree × List Frame) → locate plain (pos 40) [] ≡ some at → IsPlain (unlinked at)
unfolding locate unlinked rightmost is_null
plain-IsPlain at h =
    subst (λ a. elim a as (λ _. Type 0) [ none ↦ Unit | some x ↦ IsPlain (unlinked x) ]) h
      (inr (inr (λ e. cc)))

del_node-removes_example :
    (t : Tree) × (del_node 0 plain (pos 40) ≡ ended (some t))
    × (in_order t ≡ remove (pos 40) (in_order plain))
unfolding in_order
del_node-removes_example = del_node-removes 0 plain (pos 40) (omega arith) plain-IsPlain

-- A black node on the right, whose black brother has a right child only: the left child of the brother,
-- which is NULL, is written to.
far_nephew :
    del_node 10 (node black (node black leaf (pos 1) (lone red 2)) (pos 3) (lone black 4)) (pos 4)
    ≡ ended none
unfolding del_node locate unlinked splice is_null del_fix_up zip del_loop fix_step is_left_child
    right_round right_black right_lr
far_nephew = refl

-- A brother with no children under a black parent is coloured red, and the loop climbs to the root.
childless_brother :
    del_node 10 (node black (lone black 1) (pos 2) (lone black 3)) (pos 1)
    ≡ ended (some (node black leaf (pos 2) (lone red 3)))
unfolding del_node locate unlinked splice is_null del_fix_up zip del_loop fix_step is_left_child
    left_round childless climb
childless_brother = refl
