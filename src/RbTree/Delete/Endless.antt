-- ===== src/RbTree/Delete/Endless.antt =====
-- algorithm_about/binary_tree/RB_tree.cpp: a loop of `DelFixUp` that does not end.
use demo_code.Prelude.{ℕ, zero, suc, ℤ, ◌≡◌, refl, sym, List, [], ◌∷◌, none, some}
use demo_code.Prelude.Sorted.{IsSorted}
use demo_code.RbTree.{Color, red, black, Tree, leaf, node, Frame, left_of, zip, rebuild_con}
use demo_code.RbTree.Contents.{in_order, in_order-zip}
use demo_code.RbTree.Insertion.{rebuild_con-zip}
use demo_code.RbTree.Delete.{
  Spot, running, is_null, is_left_child, rr_spot, ll_spot, relink, left_round, right_round,
  fix_step, del_loop, del_fix_up, locate, unlinked, splice, del_node,
}
use demo_code.RbTree.Delete.Taken.{locate-zip, IsSorted-unlinked}

-- A round that only relinks the parent, with no fault: the loop runs on if it does from there.
loop_relink :
    (fuel : ℕ) (t u w : Tree) (path : List Frame) (s s' : Spot)
    → fix_step t path s ≡ relink u path s'
    → rebuild_con u path ≡ some w
    → del_loop fuel u path s' ≡ running
    → del_loop (suc fuel) t path s ≡ running
unfolding relink del_loop
loop_relink fuel t u w path s s' e n h = rw (e, del_loop) (rw (n) h)

module _ (v bv nv : ℤ) (nl nr br : Tree) (nc : Color) (path : List Frame) where
  -- The red brother on the right, with a left child, and the tree after `RR`.
  abbrev before : Color → Tree
  before c = node c leaf v (node red (node nc nl nv nr) bv br)

  abbrev after : Tree
  after = node black (node red leaf v (node nc nl nv nr)) bv br

  forth : (c : Color) → fix_step (before c) path none ≡ relink after path none
  unfolding fix_step is_left_child left_round is_null rr_spot
  forth c = refl

  back : fix_step after path none ≡ relink (before black) path none
  unfolding fix_step is_left_child right_round is_null ll_spot
  back = refl

  same_values : (c : Color) → in_order (zip after path) ≡ in_order (zip (before c) path)
  same_values c = in_order-zip after (before c) path (unfold in_order in refl)

  endless :
      (fuel : ℕ)
      → IsSorted (in_order (zip after path))
      → ((c : Color) → del_loop fuel (before c) path none ≡ running)
        × (del_loop fuel after path none ≡ running)
  endless zero h = (λ c. unfold del_loop in refl, unfold del_loop in refl)
  endless (suc fuel) h =
      let rest = endless fuel h in
      (
        (λ c.
            loop_relink fuel (before c) after _ path none none (forth c)
              (rebuild_con-zip after path tt h) rest.1),
        loop_relink fuel after (before black) _ path none none back
            (rebuild_con-zip (before black) path tt (rw (sym (same_values black)) h))
            (rest.0 black),
      )

-- `DelNode` of a value in a sorted tree, whose node is a black leaf and the left child of its parent, with a
-- red brother that has a left child: however many rounds the loop of `DelFixUp` is given, it has neither ended
-- nor come to a fault.
pub del_node-endless :
    (fuel : ℕ) (t : Tree) (val w v bv nv : ℤ) (nl nr br : Tree) (c nc : Color) (path : List Frame)
    → IsSorted (in_order t)
    → locate t val []
      ≡ some (node black leaf w leaf, left_of c v (node red (node nc nl nv nr) bv br) ∷ path)
    → del_node fuel t val ≡ running
unfolding del_node unlinked splice del_fix_up zip is_null
del_node-endless fuel t val w v bv nv nl nr br c nc path s h =
    let at = left_of c v (node red (node nc nl nv nr) bv br) ∷ path in
    let whole = locate-zip t val (node black leaf w leaf) at s h in
    let left : IsSorted (in_order (zip (before v bv nv nl nr br nc path c) path)) =
      IsSorted-unlinked black w at (rw (whole) s) in
    rw (h, del_node)
      ((endless v bv nv nl nr br nc path fuel (rw (same_values v bv nv nl nr br nc path c) left)).0
        c)
