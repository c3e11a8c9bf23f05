-- ===== src/RbTree/Laws.antt =====
-- `AddNode` is the insertion into a sorted set; the tree it returns may be no red-black tree.
use demo_code.Prelude.{
  ℤ, ◌<ℤ◌, ltb_ℤ, List, [], ◌∷◌, ◌++◌, ◌≡◌, refl, ap, sym, ◌∙◌, arith, Option, none, some, inl, inr,
  Bool-cases,
}
use demo_code.Prelude.Sorted.{
  All, IsSorted, IsSorted-IsSplit, insert, insert-append_lt, insert-append_gt, insert-append_self,
  insert-IsSorted,
}
use demo_code.RbTree.{
  Color, red, black, Tree, leaf, node, Frame, left_of, right_of, zip, is_red, is_red_frame,
  add_fix_up, descend, add_node,
}
use demo_code.RbTree.Contents.{in_order}
use demo_code.RbTree.Insertion.{zip-nil, IsBlack, IsBlackTop, add_fix_up-Rebuilt}

abbrev lone : ℤ → Tree
lone val = node red leaf val leaf

lone_lem : (val : ℤ) → in_order (lone val) ≡ insert val []
unfolding in_order insert
lone_lem val = refl

-- The root of the whole tree is black.
abbrev IsRooted : Tree → List Frame → Type 0
IsRooted t [] = IsBlack t
IsRooted t (f ∷ path) = IsBlackTop (f ∷ path)

left_IsBlackTop :
    (c : Color) (l : Tree) (v : ℤ) (r : Tree) (path : List Frame)
    → IsRooted (node c l v r) path
    → IsBlackTop (left_of c v r ∷ path)
unfolding is_red is_red_frame
left_IsBlackTop red l v r [] h = h
left_IsBlackTop black l v r [] h = h
left_IsBlackTop c l v r (f ∷ path) h = h

right_IsBlackTop :
    (c : Color) (l : Tree) (v : ℤ) (r : Tree) (path : List Frame)
    → IsRooted (node c l v r) path
    → IsBlackTop (right_of c l v ∷ path)
unfolding is_red is_red_frame
right_IsBlackTop red l v r [] h = h
right_IsBlackTop black l v r [] h = h
right_IsBlackTop c l v r (f ∷ path) h = h

-- What the search of `AddNode` finds.
abbrev Found : Tree → ℤ → List Frame → Option (List Frame) → Type 0
Found t val path none = insert val (in_order t) ≡ in_order t
Found t val path (some below) =
    (new : Tree) × (in_order new ≡ insert val (in_order t))
    × (zip (lone val) below ≡ zip new path)
    × (IsRooted t path → IsBlackTop below)

module _ (c : Color) (l : Tree) (v : ℤ) (r : Tree) (val : ℤ) (path : List Frame) where
  found_left :
      (x : Option (List Frame))
      → val <ℤ v
      → Found l val (left_of c v r ∷ path) x
      → Found (node c l v r) val path x
  unfolding in_order zip
  found_left none lt h =
      insert-append_lt val v (in_order l) (in_order r) lt ∙ ap (λ xs. xs ++ v ∷ in_order r) h
  found_left (some below) lt (new, e, z, top) = (
    node c new v r,
    ap (λ xs. xs ++ v ∷ in_order r) e ∙ sym (insert-append_lt val v (in_order l) (in_order r) lt),
    z,
    λ h. top (left_IsBlackTop c l v r path h),
  )

  found_right :
      (x : Option (List Frame))
      → v <ℤ val
      → All (λ y. y <ℤ v) (in_order l)
      → Found r val (right_of c l v ∷ path) x
      → Found (node c l v r) val path x
  unfolding in_order zip
  found_right none lt b h =
      insert-append_gt val v (in_order l) (in_order r) lt b ∙ ap (λ xs. in_order l ++ v ∷ xs) h
  found_right (some below) lt b (new, e, z, top) = (
    node c l v new,
    ap (λ xs. in_order l ++ v ∷ xs) e ∙ sym (insert-append_gt val v (in_order l) (in_order r) lt b),
    z,
    λ h. top (right_IsBlackTop c l v r path h),
  )

descend-Found :
    (t : Tree) (val : ℤ) (path : List Frame)
    → IsSorted (in_order t)
    → Found t val path (descend t val path)
unfolding descend in_order
descend-Found leaf val [] s = (lone val, lone_lem val, refl, λ h. tt)
descend-Found leaf val (f ∷ path) s = (lone val, lone_lem val, refl, λ h. h)
descend-Found (node c l v r) val path s =
    let split = IsSorted-IsSplit (in_order l) v (in_order r) s in
    elim (Bool-cases (ltb_ℤ v val)) [
      | inl gt ↦ rw gt (
          found_right c l v r val path (descend r val (right_of c l v ∷ path)) (ground arith)
            split.below (descend-Found r val (right_of c l v ∷ path) split.right))
      | inr le ↦ elim (Bool-cases (ltb_ℤ val v)) [
        | inl lt ↦ rw le (
            rw lt (
              found_left c l v r val path (descend l val (left_of c v r ∷ path)) (ground arith)
                (descend-Found l val (left_of c v r ∷ path) split.left)))
        | inr ge ↦
            let e : val ≡ v = ground arith in
            rw le (rw ge (rw e (insert-append_self v (in_order l) (in_order r) split.below)))
      ]
    ]

-- What `AddNode` returns.
pub record Added (t : Tree) (val : ℤ) (result : Option Tree) : Type 0 where
  pub tree : Tree
  pub returned : result ≡ some tree
  pub contents : in_order tree ≡ insert val (in_order t)
  pub sorted : IsSorted (in_order tree)
  pub root : IsBlack tree

added :
    (t : Tree) (val : ℤ) (x : Option (List Frame))
    → IsSorted (in_order t)
    → IsBlack t
    → Found t val [] x
    → Added t val (elim x [ none ↦ some t | some path ↦ add_fix_up (lone val) path ])
added t val none s b e = record {
  tree = t;
  returned = refl;
  contents = sym e;
  sorted = s;
  root = b;
}
added t val (some path) s b (new, e, z, top) =
    let whole : in_order (zip (lone val) path) ≡ insert val (in_order t) =
      ap in_order (z ∙ zip-nil new) ∙ e in
    let sorted : IsSorted (insert val (in_order t)) = insert-IsSorted val (in_order t) s in
    let r = add_fix_up-Rebuilt path (lone val) tt (top b) (rw whole sorted) in
    let e' : in_order r.tree ≡ insert val (in_order t) = r.same ∙ whole in
    record {
      tree = r.tree;
      returned = r.returned;
      contents = e';
      sorted = rw e' sorted;
      root = r.top;
    }

-- `AddNode` to a sorted tree with a black root, or to an empty one, returns a tree with a black
-- root that holds the value besides the old ones, each once and in order.
pub add_node-Added :
    (t : Tree) (val : ℤ) → IsSorted (in_order t) → IsBlack t → Added t val (add_node t val)
unfolding add_node
add_node-Added t val s b = added t val (descend t val []) s b (descend-Found t val [] s)
