-- ===== src/RbTree/Delete.antt =====
-- algorithm_about/binary_tree/RB_tree.cpp: `DelNode` and `DelFixUp`. The loop of `DelFixUp` stands at
-- `parent`, a node with the path of its ancestors; `replace` is NULL or a node below it.
pub mod Endless
pub mod Taken
mod Tests
use demo_code.Prelude.{
  ℕ, zero, suc, ℤ, ltb_ℤ, if◌then◌else◌, Bool, true, false, ◌&&◌, List, [], ◌∷◌, Option, none, some,
  ◌>>=◌,
}
use demo_code.RbTree.{
  Color, red, black, Tree, leaf, node, Frame, left_of, right_of, zip, blacken, rebuild_con,
}

pub data Side : Type 0 where
  on_left : Side
  on_right : Side

-- `replace`: `none` is NULL, and otherwise the sides lead to it from `parent`.
abbrev pub Spot : Type 0
Spot = Option (List Side)

unfoldable pub is_null : Tree → Bool
is_null leaf = true
is_null (node c l v r) = false

-- `parent->l == replace`, for a parent with this left child.
unfoldable pub is_left_child : Spot → Tree → Bool
unfolding is_null
is_left_child none l = is_null l
is_left_child (some (on_left ∷ [])) l = true
is_left_child (some _) l = false

-- Where `replace` is after `RR` of `parent`, which is called where it is on the left, and after `LL`.
unfoldable pub rr_spot : Spot → Spot
rr_spot (some (on_left ∷ s)) = some (on_left ∷ on_left ∷ s)
rr_spot spot = spot

unfoldable pub ll_spot : Spot → Spot
ll_spot (some (on_right ∷ s)) = some (on_right ∷ on_right ∷ s)
ll_spot (some (on_left ∷ on_left ∷ s)) = some (on_left ∷ s)
ll_spot (some (on_left ∷ on_right ∷ s)) = some (on_right ∷ on_left ∷ s)
ll_spot spot = spot

-- A round of the loop ends it, with the root or with a fault, or goes on at a new `parent`.
pub data Step : Type 0 where
  finished : Option Tree → Step
  again : Tree → List Frame → Spot → Step

-- `parent` becomes `replace`.
unfoldable pub climb : Tree → List Frame → Step
climb t [] = finished (some t)
climb t (left_of c v r ∷ path) = again (node c t v r) path (some (on_left ∷ []))
climb t (right_of c l v ∷ path) = again (node c l v t) path (some (on_right ∷ []))

-- `RebuildCon` of the new `parent`, and the next round.
unfoldable pub relink : Tree → List Frame → Spot → Step
relink t path spot = elim (rebuild_con t path) [ none ↦ finished none | some _ ↦ again t path spot ]

-- With no nephew: a red parent `p` takes the colour from the brother, under a black one the loop climbs.
unfoldable pub childless : Color → Tree → List Frame → Step
unfolding climb
childless red p path = finished (some (zip p path))
childless black p path = climb p path

-- `replace` is the left child, and the brother is black: `RL` where it has a left child, or else `RR`.
unfoldable pub left_black : Color → Tree → ℤ → Color → Tree → ℤ → Tree → List Frame → Option Tree
left_black c l v bc (node nc nl nv nr) bv br path =
    rebuild_con (node black (node black l v nl) nv (node bc nr bv br)) path
left_black c l v bc leaf bv br path =
    rebuild_con (node c (node black l v leaf) bv (blacken br)) path

-- `replace` is the left child of the parent, with the brother on the right.
unfoldable pub left_round : Color → Tree → ℤ → Tree → List Frame → Spot → Step
unfolding childless left_black relink rr_spot is_null
left_round c l v leaf path spot = finished none
left_round c l v (node bc bl bv br) path spot =
    if is_null bl && is_null br
    then childless c (node black l v (node red bl bv br)) path
    else elim bc [
      | red ↦ relink (node black (node red l v bl) bv br) path (rr_spot spot)
      | black ↦ finished (left_black c l v black bl bv br path)
    ]

-- The same on the other side. Where the brother has a right child, its left child is written to as well.
unfoldable pub right_lr :
    Color → Color → Tree → ℤ → Tree → ℤ → Tree → ℤ → Tree → List Frame → Option Tree
right_lr c bc leaf bv nl nv nr v r path = none
right_lr c bc (node ac a x b) bv nl nv nr v r path =
    rebuild_con (node black (node bc (node c a x b) bv nl) nv (node black nr v r)) path

unfoldable pub right_black : Color → Color → Tree → ℤ → Tree → ℤ → Tree → List Frame → Option Tree
unfolding right_lr
right_black c bc bl bv (node nc nl nv nr) v r path = right_lr c bc bl bv nl nv nr v r path
right_black c bc bl bv leaf v r path =
    rebuild_con (node c (blacken bl) bv (node black leaf v r)) path

unfoldable pub right_round : Color → Tree → ℤ → Tree → List Frame → Spot → Step
unfolding childless right_black relink ll_spot is_null
right_round c leaf v r path spot = finished none
right_round c (node bc bl bv br) v r path spot =
    if is_null bl && is_null br
    then childless c (node black (node red bl bv br) v r) path
    else elim bc [
      | red ↦ relink (node black bl bv (node red br v r)) path (ll_spot spot)
      | black ↦ finished (right_black c black bl bv br v r path)
    ]

unfoldable pub fix_step : Tree → List Frame → Spot → Step
unfolding is_left_child left_round right_round
fix_step leaf path spot = finished none
fix_step (node c l v r) path spot =
    if is_left_child spot l then left_round c l v r path spot else right_round c l v r path spot

-- What a call comes to: it still runs when the fuel is used up, or it has ended, with the root or with a
-- fault.
pub data Outcome : Type 0 where
  running : Outcome
  ended : Option Tree → Outcome

-- The loop of `DelFixUp`, on fuel.
unfoldable pub del_loop : ℕ → Tree → List Frame → Spot → Outcome
del_loop zero t path spot = running
del_loop (suc fuel) t path spot = elim (fix_step t path spot) [
  | finished root ↦ ended root
  | again t' path' spot' ↦ del_loop fuel t' path' spot'
]

-- `DelFixUp`, for the child of the black node that was unlinked, with its ancestors.
unfoldable pub del_fix_up : ℕ → Tree → List Frame → Outcome
del_fix_up fuel (node c l v r) path = ended (some (zip (node black l v r) path))
del_fix_up fuel leaf [] = ended none
del_fix_up fuel leaf (f ∷ path) = del_loop fuel (zip leaf (f ∷ [])) path none

-- The search of `DelNode`: the node with its ancestors.
unfoldable pub locate : Tree → ℤ → List Frame → Option (Tree × List Frame)
locate leaf val path = none
locate (node c l v r) val path =
    let right = locate r val (right_of c l v ∷ path) in
    let left = locate l val (left_of c v r ∷ path) in
    if ltb_ℤ v val then right else if ltb_ℤ val v then left else some (node c l v r, path)

-- `hj`: the last node to the right, with its ancestors, and its value.
unfoldable pub rightmost : Color → Tree → ℤ → Tree → List Frame → Tree × List Frame
rightmost c l v leaf path = (node c l v leaf, path)
rightmost c l v (node d rl w rr) path = rightmost d rl w rr (right_of c l v ∷ path)

unfoldable pub last_value : ℤ → Tree → ℤ
last_value v leaf = v
last_value v (node c l w r) = last_value w r

-- The node that is unlinked: the one that was found or, where that has two children, the last one in its
-- left subtree, whose value it takes.
unfoldable pub unlinked : Tree × List Frame → Tree × List Frame
unfolding rightmost last_value
unlinked (node c (node d ll w lr) v (node e rl x rr), path) =
    rightmost d ll w lr (left_of c (last_value w lr) (node e rl x rr) ∷ path)
unlinked at = at

-- The rest of `DelNode`: the child of the node takes its place.
unfoldable pub splice : ℕ → Tree × List Frame → Outcome
unfolding is_null del_fix_up
splice fuel (leaf, path) = ended none
splice fuel (node c l v r, []) = ended (some (blacken (if is_null l then r else l)))
splice fuel (node red l v r, f ∷ path) = ended (some (zip (if is_null l then r else l) (f ∷ path)))
splice fuel (node black l v r, f ∷ path) = del_fix_up fuel (if is_null l then r else l) (f ∷ path)

-- `DelNode`
unfoldable pub del_node : ℕ → Tree → ℤ → Outcome
del_node fuel t val = elim (locate t val []) [
  | none ↦ ended (some t)
  | some target ↦ splice fuel (unlinked target)
]
