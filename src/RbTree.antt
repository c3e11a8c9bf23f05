-- ===== src/RbTree.antt =====
-- algorithm_about/binary_tree/RB_tree.cpp. A node with the path of its ancestors is a tree with a
-- list of frames, from the parent up: the parent pointers are those of the path. `none` is a read
-- through a null pointer, or a link that would give a node two parents.
pub mod Contents
pub mod Insertion
pub mod Laws
pub mod Broken
pub mod Delete
mod Tests
use demo_code.Prelude.{
  ℤ, ltb_ℤ, if◌then◌else◌, Bool, true, false, List, [], ◌∷◌, Option, none, some, ◌>>=◌,
}

-- `COLOR`
pub data Color : Type 0 where
  red : Color
  black : Color

-- `Node`; `leaf` is NULL.
pub data Tree : Type 0 where
  leaf : Tree
  node : Color → Tree → ℤ → Tree → Tree

-- An ancestor, as seen from its left or from its right child.
pub data Frame : Type 0 where
  left_of : Color → ℤ → Tree → Frame
  right_of : Color → Tree → ℤ → Frame

unfoldable pub zip : Tree → List Frame → Tree
zip t [] = t
zip t (left_of c v r ∷ path) = zip (node c t v r) path
zip t (right_of c l v ∷ path) = zip (node c l v t) path

unfoldable pub is_red : Tree → Bool
is_red leaf = false
is_red (node red l v r) = true
is_red (node black l v r) = false

unfoldable pub blacken : Tree → Tree
blacken leaf = leaf
blacken (node c l v r) = node black l v r

unfoldable pub is_red_frame : Frame → Bool
is_red_frame (left_of red v r) = true
is_red_frame (left_of black v r) = false
is_red_frame (right_of red l v) = true
is_red_frame (right_of black l v) = false

-- `RebuildCon`, at the parent of `son`, which links it on the side that the values tell.
unfoldable pub rebuild_con : Tree → List Frame → Option Tree
unfolding zip
rebuild_con t [] = some t
rebuild_con leaf (f ∷ path) = none
rebuild_con (node c l v r) (left_of d w s ∷ path) =
    if ltb_ℤ v w then some (zip (node c l v r) (left_of d w s ∷ path)) else none
rebuild_con (node c l v r) (right_of d s w ∷ path) =
    if ltb_ℤ v w then none else some (zip (node c l v r) (right_of d s w ∷ path))

-- What a round of `AddFixUp` does with the new node, its parent and its grandparent: colours, or a
-- single or a double rotation. The tree is what stands in the place of the grandparent.
pub data Round : Type 0 where
  recoloured : Tree → Round
  single : Tree → Round
  double : Tree → Round
  fault : Round

-- `LL` and `RR` of the grandparent, with the colours that `AddFixUp` has set before: the parent is
-- black, the grandparent red.
unfoldable pub ll_round : Tree → ℤ → Tree → ℤ → Tree → Round
ll_round n pv pr gv u = single (node black n pv (node red pr gv u))

unfoldable pub rr_round : Tree → ℤ → Tree → ℤ → Tree → Round
rr_round u gv pl pv n = single (node black (node red u gv pl) pv n)

-- `LR` and `RL` of the grandparent: the new node is black, the grandparent red.
unfoldable pub lr_round : Tree → ℤ → Tree → ℤ → Tree → Round
lr_round pl pv leaf gv u = fault
lr_round pl pv (node c nl nv nr) gv u =
    double (node black (node red pl pv nl) nv (node red nr gv u))

unfoldable pub rl_round : Tree → ℤ → Tree → ℤ → Tree → Round
rl_round u gv leaf pv pr = fault
rl_round u gv (node c nl nv nr) pv pr =
    double (node black (node red u gv nl) nv (node red nr pv pr))

-- A round with a red parent: the colour of the parent and of the grandparent is not read again.
unfoldable pub fix_round : Tree → Frame → Frame → Round
unfolding is_red blacken ll_round rr_round lr_round rl_round
fix_round n (left_of pc pv pr) (left_of gc gv u) =
    if is_red u
    then recoloured (node red (node black n pv pr) gv (blacken u))
    else ll_round n pv pr gv u
fix_round n (right_of pc pl pv) (left_of gc gv u) =
    if is_red u
    then recoloured (node red (node black pl pv n) gv (blacken u))
    else lr_round pl pv n gv u
fix_round n (right_of pc pl pv) (right_of gc u gv) =
    if is_red u
    then recoloured (node red (blacken u) gv (node black pl pv n))
    else rr_round u gv pl pv n
fix_round n (left_of pc pv pr) (right_of gc u gv) =
    if is_red u
    then recoloured (node red (blacken u) gv (node black n pv pr))
    else rl_round u gv n pv pr

-- How `AddFixUp` goes on: after a double rotation the new node has the place of its grandparent, and
-- the loop, `again`, goes on from there; after a single one its parent is black, and the loop ends.
unfoldable pub after_round : (Tree → Option Tree) → List Frame → Round → Option Tree
after_round again path (recoloured t) = again t
after_round again path (single t) = do root ← rebuild_con t path; some (blacken root)
after_round again path (double t) = do root ← rebuild_con t path; again t
after_round again path fault = none

-- `AddFixUp`
unfoldable pub add_fix_up : Tree → List Frame → Option Tree
add_fix_up n [] = some (blacken n)
add_fix_up n (f ∷ []) = if is_red_frame f then none else some (blacken (zip n (f ∷ [])))
add_fix_up n (f ∷ g ∷ path) =
    let fixed = after_round (λ t. add_fix_up t path) path (fix_round n f g) in
    if is_red_frame f then fixed else some (blacken (zip n (f ∷ g ∷ path)))

-- The search of `AddNode`: the path of the new node, or `none` where the value is there.
unfoldable pub descend : Tree → ℤ → List Frame → Option (List Frame)
descend leaf val path = some path
descend (node c l v r) val path =
    let right = descend r val (right_of c l v ∷ path) in
    let left = descend l val (left_of c v r ∷ path) in
    if ltb_ℤ v val then right else if ltb_ℤ val v then left else none

-- `AddNode`
unfoldable pub add_node : Tree → ℤ → Option Tree
add_node t val = elim (descend t val []) [
  | none ↦ some t
  | some path ↦ add_fix_up (node red leaf val leaf) path
]
