-- ===== src/Avl/Iter.antt =====
-- algorithm_about/binary_tree/AVL_tree.cpp: `AddNode` and `DelNode`, which walk down with a stack
-- of links (`std::stack<Node**> pathNode`) and climb back along it. A link is the frame of the node
-- that holds it: what the node has besides the subtree behind the link.
pub mod Agreement
pub mod Deletion
use demo_code.Prelude.{ℤ, ltb_ℤ, if◌then◌else◌, Option, none, some, ◌>>=◌, List, [], ◌∷◌}
use demo_code.Avl.Tree.{
  Tree, leaf, node, height, outgrows, ll, rr, lr, rl, value, del_rotate_left, del_rotate_right,
  unlink_max,
}

pub data Frame : Type 0 where
  went_left : ℤ → Tree → Frame
  went_right : Tree → ℤ → Frame

-- The first loop of `AddNode`: down to NULL, with equal keys to the right.
unfoldable pub add_descend : Tree → ℤ → List Frame → List Frame
add_descend leaf val path = path
add_descend (node l v r) val path =
    if ltb_ℤ val v
    then add_descend l val (went_left v r ∷ path)
    else add_descend r val (went_right l v ∷ path)

-- The new node becomes a child of the node on top, whose link that was followed holds NULL.
unfoldable pub add_attach : ℤ → Frame → Tree
add_attach val (went_left v r) =
    if ltb_ℤ v val then node leaf v (node leaf val leaf) else node (node leaf val leaf) v r
add_attach val (went_right l v) =
    if ltb_ℤ v val then node l v (node leaf val leaf) else node (node leaf val leaf) v leaf

-- One round of the second loop of `AddNode`.
unfoldable pub add_rebalance : ℤ → Tree → ℤ → Tree → Option Tree
unfolding value ll lr rr rl height
add_rebalance val l v r =
    if outgrows l r
    then (do w ← value l; if ltb_ℤ val w then ll (node l v r) else lr (node l v r))
    else if outgrows r l
    then (do w ← value r; if ltb_ℤ w val then rr (node l v r) else rl (node l v r))
    else some (node l v r)

unfoldable pub add_climb : ℤ → Tree → List Frame → Option Tree
unfolding add_rebalance
add_climb val t [] = some t
add_climb val t (went_left v r ∷ path) = do t' ← add_rebalance val t v r; add_climb val t' path
add_climb val t (went_right l v ∷ path) = do t' ← add_rebalance val l v t; add_climb val t' path

-- `pathNode.top()`, `pathNode.pop()`, and the second loop. An empty stack has no top.
unfoldable pub add_finish : ℤ → List Frame → Option Tree
unfolding add_attach add_climb
add_finish val [] = none
add_finish val (top ∷ path) = add_climb val (add_attach val top) path

-- `AddNode`
unfoldable pub add_node : Tree → ℤ → Option Tree
unfolding add_descend add_finish
add_node leaf val = some (node leaf val leaf)
add_node (node l v r) val = add_finish val (add_descend (node l v r) val [])

-- The node to delete: its children, and the stack below its own link.
pub record Found : Type 0 where
  pub l : Tree
  pub r : Tree
  pub path : List Frame

-- The first loop of `DelNode`.
unfoldable pub del_descend : Tree → ℤ → List Frame → Option Found
del_descend leaf val path = none
del_descend (node l v r) val path =
    if ltb_ℤ val v
    then del_descend l val (went_left v r ∷ path)
    else if ltb_ℤ v val
    then del_descend r val (went_right l v ∷ path)
    else some (record { l = l; r = r; path = path })

-- One round of the last loop of `DelNode`.
unfoldable pub del_rebalance : Tree → ℤ → Tree → Option Tree
unfolding del_rotate_left del_rotate_right height
del_rebalance l v r =
    if outgrows l r
    then del_rotate_left l v r
    else if outgrows r l
    then del_rotate_right l v r
    else some (node l v r)

unfoldable pub del_climb : Tree → List Frame → Option Tree
unfolding del_rebalance
del_climb t [] = some t
del_climb t (went_left v r ∷ path) = do t' ← del_rebalance t v r; del_climb t' path
del_climb t (went_right l v ∷ path) = do t' ← del_rebalance l v t; del_climb t' path

-- The node is unlinked. With two children its link stays on the stack, so its replacement is the
-- first node that the last loop looks at.
unfoldable pub del_splice : Tree → Tree → List Frame → Option Tree
unfolding unlink_max del_climb
del_splice leaf r path = del_climb r path
del_splice (node a w b) leaf path = del_climb (node a w b) path
del_splice (node a w leaf) (node c y d) path = (do
  t' ← del_rebalance a w (node c y d)
  del_climb t' path)
del_splice (node a w (node b x e)) (node c y d) path =
    let (m, rest) = unlink_max a w (node b x e) in
    (do t' ← del_rebalance rest m (node c y d); del_climb t' path)

-- `DelNode`
unfoldable pub del_node : Tree → ℤ → Option Tree
unfolding del_descend del_splice
del_node t val = elim (del_descend t val []) [ none ↦ some t | some f ↦ del_splice f.l f.r f.path ]
