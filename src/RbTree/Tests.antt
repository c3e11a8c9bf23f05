-- ===== src/RbTree/Tests.antt =====
-- Insertions into small red-black trees.
use demo_code.Prelude.{ℤ, pos, List, [], ◌∷◌, ◌≡◌, refl, arith, Option, some, ◌>>=◌}
use demo_code.Prelude.Sorted.{IsSorted}
use demo_code.RbTree.{
  Tree, leaf, node, red, black, add_node, descend, add_fix_up, fix_round, after_round, rebuild_con,
  is_red, is_red_frame, zip, blacken,
}
use demo_code.RbTree.Contents.{in_order}
use demo_code.RbTree.Insertion.{IsBlack}
use demo_code.RbTree.Laws.{Added, add_node-Added}
use demo_code.RbTree.Broken.{before, IsRedBlack, add_node-not-IsRedBlack}

add_all : List ℤ → Tree → Option Tree
add_all [] t = some t
add_all (x ∷ xs) t = do t' ← add_node t x; add_all xs t'

-- A single rotation, a recolouring and a double rotation.
added_four :
    add_all (pos 1 ∷ pos 2 ∷ pos 3 ∷ pos 5 ∷ pos 4 ∷ []) leaf
    ≡ some (
        node black
          (node black leaf (pos 1) leaf)
          (pos 2)
          (node black (node red leaf (pos 3) leaf) (pos 4) (node red leaf (pos 5) leaf)))
unfolding add_all add_node descend add_fix_up fix_round after_round rebuild_con is_red_frame zip
    blacken
added_four = refl

abbrev small : Tree
small = node black (node red leaf (pos 3) leaf) (pos 8) leaf

small-IsSorted : IsSorted (in_order small)
unfolding in_order
small-IsSorted = omega arith

small-IsBlack : IsBlack small
unfolding is_red
small-IsBlack = refl

add_node-Added_example : Added small (pos 5) (add_node small (pos 5))
add_node-Added_example = add_node-Added small (pos 5) small-IsSorted small-IsBlack

add_node-not-IsRedBlack_example :
    IsRedBlack (before (pos 25) (pos 50) (pos 60) (pos 75) (pos 100) (pos 150))
    × (after : Tree) × (add_node
          (before (pos 25) (pos 50) (pos 60) (pos 75) (pos 100) (pos 150))
          (pos 70)
        ≡ some after)
    × ¬ IsRedBlack after
add_node-not-IsRedBlack_example =
    add_node-not-IsRedBlack (pos 25) (pos 50) (pos 60) (pos 70) (pos 75) (pos 100) (pos 150)
      (omega arith) (omega arith) (omega arith) (omega arith) (omega arith) (omega arith)
