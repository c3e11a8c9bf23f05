-- ===== src/RbTree/Delete/Taken.antt =====
-- algorithm_about/binary_tree/RB_tree.cpp: what `DelNode` takes out where it does not come to the loop of
-- `DelFixUp`.
use mathlib.Core.Path.{subst}
use mathlib.Core.List.{append_assoc, append-nil}
use demo_code.Prelude.{
  ℕ, ℤ, ◌<ℤ◌, ltb_ℤ, eq_of_parts, List, [], ◌∷◌, ◌++◌, ◌≡◌, ◌≢◌, refl, sym, ap, ◌∙◌, arith, Option,
  none, some, ◌⊎◌, inl, inr, Bool-cases, ◌||◌, true, false, if◌then◌else◌,
}
use demo_code.Prelude.Sorted.{
  IsSorted, IsSorted-IsSplit, remove, remove-IsSorted, remove-append_lt, remove-append_gt,
  remove-append_self,
}
use demo_code.RbTree.{Color, red, black, Tree, leaf, node, Frame, left_of, right_of, zip}
use demo_code.RbTree.Insertion.{zip-nil}
use demo_code.RbTree.Contents.{in_order, in_order-zip, in_order-blacken}
use demo_code.RbTree.Delete.{
  Outcome, ended, is_null, locate, rightmost, last_value, unlinked, splice, del_fix_up, del_node,
}

-- What stands before and after a place in the whole tree.
front : List Frame → List ℤ
front [] = []
front (left_of c v r ∷ path) = front path
front (right_of c l v ∷ path) = front path ++ (in_order l ++ v ∷ [])

behind : List Frame → List ℤ
behind [] = []
behind (left_of c v r ∷ path) = v ∷ in_order r ++ behind path
behind (right_of c l v ∷ path) = behind path

in_order-zip_around :
    (t : Tree) (path : List Frame)
    → in_order (zip t path) ≡ front path ++ (in_order t ++ behind path)
unfolding in_order zip front behind
in_order-zip_around t [] = simp append-nil
in_order-zip_around t (left_of c v r ∷ path) =
    in_order-zip_around (node c t v r) path ∙ simp append_assoc
in_order-zip_around t (right_of c l v ∷ path) =
    in_order-zip_around (node c l v t) path ∙ simp append_assoc

-- The search finds the value in its place, or it is not there.
data Located (t : Tree) (val : ℤ) (path : List Frame) : Option (Tree × List Frame) → Type 0 where
  absent : remove val (in_order t) ≡ in_order t → Located t val path none
  found :
      (c : Color) (l r : Tree) (below : List Frame)
      → zip (node c l val r) below ≡ zip t path
      → Located t val path (some (node c l val r, below))

same_value : (val v : ℤ) → ltb_ℤ v val ≡ false → ltb_ℤ val v ≡ false → v ≡ val
same_value val v g h = eq_of_parts v val (ground arith)

module _ (c : Color) (l : Tree) (v : ℤ) (r : Tree) (val : ℤ) (path : List Frame)
    (s : IsSorted (in_order (node c l v r))) where
  located_right :
      (x : Option (Tree × List Frame))
      → v <ℤ val
      → Located r val (right_of c l v ∷ path) x
      → Located (node c l v r) val path x
  unfolding zip in_order
  located_right x h (absent e) =
      let p = IsSorted-IsSplit (in_order l) v (in_order r) s in
      absent (
        remove-append_gt val v (in_order l) (in_order r) h p.below
        ∙ ap (λ xs. in_order l ++ v ∷ xs) e)
  located_right x h (found d a b below e) = found d a b below e

  located_left :
      (x : Option (Tree × List Frame))
      → val <ℤ v
      → Located l val (left_of c v r ∷ path) x
      → Located (node c l v r) val path x
  unfolding zip in_order
  located_left x h (absent e) =
      absent
        (remove-append_lt val v (in_order l) (in_order r) h ∙ ap (λ xs. xs ++ v ∷ in_order r) e)
  located_left x h (found d a b below e) = found d a b below e

located_here :
    (c : Color) (l : Tree) (v : ℤ) (r : Tree) (val : ℤ) (path : List Frame)
    → v ≡ val
    → Located (node c l v r) val path (some (node c l v r, path))
located_here c l v r val path e =
    subst (λ x. Located (node c l v r) x path (some (node c l v r, path))) e (found c l r path refl)

locate-Located :
    (t : Tree) (val : ℤ) (path : List Frame)
    → IsSorted (in_order t)
    → Located t val path (locate t val path)
unfolding locate
locate-Located leaf val path s = absent (unfold remove in unfold in_order in refl)
locate-Located (node c l v r) val path s =
    let p = IsSorted-IsSplit (in_order l) v (in_order r) (unfold in_order in s) in
    elim (Bool-cases (ltb_ℤ v val)) [
      | inl e ↦ rw (e) (
          located_right c l v r val path s _ (ground arith)
            (locate-Located r val (right_of c l v ∷ path) p.right))
      | inr e ↦ elim (Bool-cases (ltb_ℤ val v)) [
        | inl f ↦ rw (e) (
            rw (f) (
              located_left c l v r val path s _ (ground arith)
                (locate-Located l val (left_of c v r ∷ path) p.left)))
        | inr f ↦ rw (e) (rw (f) (located_here c l v r val path (same_value val v e f)))
      ]
    ]

-- What is left without the value of a node.
removed :
    (c : Color) (l : Tree) (val : ℤ) (r : Tree) (path : List Frame)
    → IsSorted (in_order (zip (node c l val r) path))
    → remove val (in_order (zip (node c l val r) path))
      ≡ front path ++ ((in_order l ++ in_order r) ++ behind path)
removed c l val r path s =
    let flat : in_order (zip (node c l val r) path)
        ≡ (front path ++ in_order l) ++ val ∷ (in_order r ++ behind path) =
      in_order-zip_around (node c l val r) path ∙ unfold in_order in simp append_assoc in
    let split =
      IsSorted-IsSplit (front path ++ in_order l) val (in_order r ++ behind path)
        (rw (sym flat) s) in
    ap (remove val) flat
    ∙ remove-append_self val (front path ++ in_order l) (in_order r ++ behind path) split.below
    ∙ simp append_assoc

-- The place that is found is in the tree.
pub locate-zip :
    (t : Tree) (val : ℤ) (x : Tree) (path : List Frame)
    → IsSorted (in_order t)
    → locate t val [] ≡ some (x, path)
    → zip x path ≡ t
locate-zip t val x path s h = go (locate t val []) (locate-Located t val [] s) h
  where
    go : (y : Option (Tree × List Frame)) → Located t val [] y → y ≡ some (x, path) → zip x path ≡ t
    go none at e = cc
    go (some at) (found c l r below k) e =
        ap
          (λ (o : Option (Tree × List Frame)). elim o as (λ _. Tree) [
            | none ↦ t
            | some p ↦ zip p.0 p.1
          ])
          (sym e)
        ∙ k
        ∙ zip-nil t

-- A tree without a leaf of it is sorted too.
pub IsSorted-unlinked :
    (c : Color) (w : ℤ) (path : List Frame)
    → IsSorted (in_order (zip (node c leaf w leaf) path))
    → IsSorted (in_order (zip leaf path))
unfolding in_order
IsSorted-unlinked c w path s =
    subst (λ xs. IsSorted xs) (removed c leaf w leaf path s ∙ sym (in_order-zip_around leaf path))
      (remove-IsSorted w (in_order (zip (node c leaf w leaf) path)) s)

-- The last node to the right, and what its left child stands for in its place.
data Last (c : Color) (l : Tree) (v : ℤ) (r : Tree) (path : List Frame)
    : Tree × List Frame → Type 0 where
  last :
      (d : Color) (below : Tree) (to : List Frame) (init : List ℤ)
      → in_order (node c l v r) ≡ init ++ last_value v r ∷ []
      → in_order (zip below to) ≡ front path ++ (init ++ behind path)
      → Last c l v r path (node d below (last_value v r) leaf, to)

in_order-node :
    (c : Color) (l : Tree) (v : ℤ) (r : Tree)
    → in_order (node c l v r) ≡ in_order l ++ v ∷ in_order r
unfolding in_order
in_order-node c l v r = refl

Last-below :
    (c : Color) (l : Tree) (v : ℤ) (d : Color) (rl : Tree) (w : ℤ) (rr : Tree) (path : List Frame)
    (x : Tree × List Frame)
    → Last d rl w rr (right_of c l v ∷ path) x
    → Last c l v (node d rl w rr) path x
unfolding last_value front behind
Last-below c l v d rl w rr path x (last e below to init f g) =
    last e below to (in_order l ++ v ∷ init)
      (in_order-node c l v (node d rl w rr)
        ∙ ap (λ xs. in_order l ++ v ∷ xs) f
        ∙ simp append_assoc refl)
      (g ∙ simp append_assoc refl)

rightmost-Last :
    (c : Color) (l : Tree) (v : ℤ) (r : Tree) (path : List Frame)
    → Last c l v r path (rightmost c l v r path)
unfolding rightmost last_value
rightmost-Last c l v leaf path =
    last c l path (in_order l) (unfold in_order in refl) (in_order-zip_around l path)
rightmost-Last c l v (node d rl w rr) path =
    Last-below c l v d rl w rr path _ (rightmost-Last d rl w rr (right_of c l v ∷ path))

-- The child that takes the place of a node.
abbrev child : Tree → Tree → Tree
child l r = if is_null l then r else l

child-in_order :
    (l r : Tree) → (is_null l || is_null r) ≡ true → in_order (child l r) ≡ in_order l ++ in_order r
unfolding is_null in_order
child-in_order leaf r h = refl
child-in_order (node c l v r) leaf h = simp append-nil refl
child-in_order (node c l v r) (node d a w b) h = absurd (ground (arith, h))

-- `DelNode` does not come to the loop of `DelFixUp`: the node that is unlinked is red, is the root, or has
-- a child.
abbrev pub IsPlain : Tree × List Frame → Type 0
IsPlain (leaf, path) = ⊥
IsPlain (node c l v r, path) = (c ≡ red) ⊎ ((path ≡ []) ⊎ (child l r ≢ leaf))

-- What the unlinking of the node should leave.
abbrev Leaves : List ℤ → Tree × List Frame → Type 0
Leaves xs (leaf, path) = ⊥
Leaves xs (node c l v r, path) = in_order (zip (child l r) path) ≡ xs

-- `DelFixUp` of a child that is there.
fix_child :
    (fuel : ℕ) (x : Tree) (f : Frame) (path : List Frame)
    → x ≢ leaf
    → (t : Tree) × (del_fix_up fuel x (f ∷ path) ≡ ended (some t))
      × (in_order t ≡ in_order (zip x (f ∷ path)))
unfolding del_fix_up
fix_child fuel leaf f path h = absurd (h refl)
fix_child fuel (node c l v r) f path h = (
  _,
  refl,
  in_order-zip (node black l v r) (node c l v r) (f ∷ path)
      (in_order-node black l v r ∙ sym (in_order-node c l v r)),
)

splice-plain :
    (fuel : ℕ) (xs : List ℤ) (at : Tree × List Frame)
    → IsPlain at
    → Leaves xs at
    → (t : Tree) × (splice fuel at ≡ ended (some t)) × (in_order t ≡ xs)
unfolding splice
splice-plain fuel xs (leaf, path) h g = absurd h
splice-plain fuel xs (node c l v r, []) h g =
    (_, refl, in_order-blacken (child l r) ∙ (unfold zip in g))
splice-plain fuel xs (node red l v r, f ∷ path) h g = (_, refl, g)
splice-plain fuel xs (node black l v r, f ∷ path) (inl e) g = cc
splice-plain fuel xs (node black l v r, f ∷ path) (inr (inl e)) g = cc
splice-plain fuel xs (node black l v r, f ∷ path) (inr (inr h)) g =
    let (t, e, k) = fix_child fuel (child l r) f path h in (t, e, k ∙ g)

zip-child :
    (l r : Tree) (path : List Frame)
    → (is_null l || is_null r) ≡ true
    → in_order (zip (child l r) path) ≡ front path ++ ((in_order l ++ in_order r) ++ behind path)
zip-child l r path h =
    in_order-zip_around (child l r) path
    ∙ ap (λ xs. front path ++ (xs ++ behind path)) (child-in_order l r h)

child_left : (l : Tree) → child l leaf ≡ l
unfolding is_null
child_left leaf = refl
child_left (node c l v r) = refl

Last-Leaves :
    (c : Color) (r : Tree) (path : List Frame) (d : Color) (a : Tree) (w : ℤ) (b : Tree)
    (x : Tree × List Frame)
    → Last d a w b (left_of c (last_value w b) r ∷ path) x
    → Leaves (front path ++ ((in_order (node d a w b) ++ in_order r) ++ behind path)) x
unfolding front behind
Last-Leaves c r path d a w b x (last e below to init f g) =
    ap (λ k. in_order (zip k to)) (child_left below) ∙ g ∙ rw (f) (simp append_assoc refl)

unlinked-Leaves :
    (c : Color) (l : Tree) (val : ℤ) (r : Tree) (path : List Frame)
    → Leaves
        (front path ++ ((in_order l ++ in_order r) ++ behind path))
        (unlinked (node c l val r, path))
unfolding unlinked
unlinked-Leaves c leaf val r path = zip-child leaf r path (unfold is_null in refl)
unlinked-Leaves c (node d a w b) val leaf path =
    zip-child (node d a w b) leaf path (unfold is_null in refl)
unlinked-Leaves c (node d a w b) val (node e rl x rr) path =
    Last-Leaves c (node e rl x rr) path d a w b _
      (rightmost-Last d a w b (left_of c (last_value w b) (node e rl x rr) ∷ path))

-- Where the node that is unlinked is red, is the root, or has a child, `DelNode` of a value in a sorted
-- tree returns, and takes the value alone out of the tree. Where the value is not in the tree, it
-- returns a tree with the same values.
pub del_node-removes :
    (fuel : ℕ) (t : Tree) (val : ℤ)
    → IsSorted (in_order t)
    → ((at : Tree × List Frame) → locate t val [] ≡ some at → IsPlain (unlinked at))
    → (t' : Tree) × (del_node fuel t val ≡ ended (some t'))
      × (in_order t' ≡ remove val (in_order t))
unfolding del_node
del_node-removes fuel t val s h = go (locate t val []) (locate-Located t val [] s) h
  where
    go :
        (x : Option (Tree × List Frame))
        → Located t val [] x
        → ((at : Tree × List Frame) → x ≡ some at → IsPlain (unlinked at))
        → (t' : Tree) × ((elim x as (λ _. Outcome) [
          | none ↦ ended (some t)
          | some target ↦ splice fuel (unlinked target)
        ])
            ≡ ended (some t'))
          × (in_order t' ≡ remove val (in_order t))
    go none (absent e) k = (t, refl, sym e)
    go (some at) (found c l r below e) k =
        let whole : zip (node c l val r) below ≡ t = e ∙ zip-nil t in
        let xs = front below ++ ((in_order l ++ in_order r) ++ behind below) in
        let (t', f, g) =
          splice-plain fuel xs (unlinked (node c l val r, below)) (k _ refl)
            (unlinked-Leaves c l val r below) in
        let left = removed c l val r below (rw (whole) s) in
        (t', f, g ∙ sym left ∙ ap (λ u. remove val (in_order u)) whole)
