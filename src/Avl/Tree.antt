-- ===== src/Avl/Tree.antt =====
-- algorithm_about/binary_tree/AVL_tree.cpp: the node type, `GetHeight`, the rotations, and the
-- recursive `AddNode_re` and `DelNode_re`. A `Node*` is a tree and NULL is `leaf`; a function that
-- changes a tree through a pointer returns the new tree; `none` is a read through NULL. An `int`
-- key is an integer, since only the order of the keys matters.
use demo_code.Prelude.{
  ℕ, ◌+◌, ℤ, ltb_ℤ, ltb, if◌then◌else◌, Bool, Option, none, some, ◌>>=◌, List, [], ◌∷◌, ◌++◌,
}

pub data Tree : Type 0 where
  leaf : Tree
  node : Tree → ℤ → Tree → Tree

-- `GetHeight`
unfoldable pub height : Tree → ℕ
height leaf = 0
height (node l v r) =
    let l_height = height l in
    let r_height = height r in if ltb r_height l_height then l_height + 1 else r_height + 1

-- `GetHeight(a) - GetHeight(b) > 1`, with no subtraction
abbrev pub outgrows : Tree → Tree → Bool
outgrows a b = ltb (height b + 1) (height a)

-- `LL`, `RR`, `LR` and `RL`
unfoldable pub ll : Tree → Option Tree
ll (node (node a x b) y c) = some (node a x (node b y c))
ll _ = none

unfoldable pub rr : Tree → Option Tree
rr (node a x (node b y c)) = some (node (node a x b) y c)
rr _ = none

unfoldable pub lr : Tree → Option Tree
unfolding ll rr
lr leaf = none
lr (node l v r) = do l' ← rr l; ll (node l' v r)

unfoldable pub rl : Tree → Option Tree
unfolding ll rr
rl leaf = none
rl (node l v r) = do r' ← ll r; rr (node l v r')

-- `root->val`, `root->l` and `root->r`
unfoldable pub value : Tree → Option ℤ
value leaf = none
value (node l v r) = some v

-- The rotation that follows an insertion of `val` to the right, or to the left.
unfoldable pub add_fix_right : ℤ → Tree → ℤ → Tree → Option Tree
unfolding value rr rl height
add_fix_right val l v r =
    if outgrows r l
    then (do w ← value r; if ltb_ℤ w val then rr (node l v r) else rl (node l v r))
    else some (node l v r)

unfoldable pub add_fix_left : ℤ → Tree → ℤ → Tree → Option Tree
unfolding value ll lr height
add_fix_left val l v r =
    if outgrows l r
    then (do w ← value l; if ltb_ℤ val w then ll (node l v r) else lr (node l v r))
    else some (node l v r)

-- `AddNode_re`
unfoldable pub add_node_re : Tree → ℤ → Option Tree
unfolding add_fix_right add_fix_left
add_node_re leaf val = some (node leaf val leaf)
add_node_re (node l v r) val =
    let right = (do r' ← add_node_re r val; add_fix_right val l v r') in
    let left = (do l' ← add_node_re l val; add_fix_left val l' v r) in
    if ltb_ℤ v val then right else if ltb_ℤ val v then left else some (node l v r)

-- The rotation that follows a deletion on the right, or on the left: `tmp->l != NULL` and
-- `tmp->r != NULL` choose between the single and the double one.
unfoldable pub del_rotate_left : Tree → ℤ → Tree → Option Tree
unfolding ll lr
del_rotate_left leaf v r = none
del_rotate_left (node leaf w b) v r = lr (node (node leaf w b) v r)
del_rotate_left (node (node a x b) w c) v r = ll (node (node (node a x b) w c) v r)

unfoldable pub del_rotate_right : Tree → ℤ → Tree → Option Tree
unfolding rr rl
del_rotate_right l v leaf = none
del_rotate_right l v (node a w leaf) = rl (node l v (node a w leaf))
del_rotate_right l v (node a w (node b x c)) = rr (node l v (node a w (node b x c)))

unfoldable pub del_fix_left : Tree → ℤ → Tree → Option Tree
unfolding del_rotate_left height
del_fix_left l v r = if outgrows l r then del_rotate_left l v r else some (node l v r)

unfoldable pub del_fix_right : Tree → ℤ → Tree → Option Tree
unfolding del_rotate_right height
del_fix_right l v r = if outgrows r l then del_rotate_right l v r else some (node l v r)

-- The loop that walks to the rightmost node `p` of a subtree and unlinks it: its value, and the
-- subtree without it.
unfoldable pub unlink_max : Tree → ℤ → Tree → ℤ × Tree
unlink_max l v leaf = (v, l)
unlink_max l v (node rl w rr) = let (m, rest) = unlink_max rl w rr in (m, node l v rest)

-- The node with value `val` is found: its replacement.
unfoldable pub replace_root : Tree → Tree → Tree
unfolding unlink_max
replace_root leaf r = r
replace_root l leaf = l
replace_root (node a w leaf) r = node a w r
replace_root (node a w b) r = let (m, rest) = unlink_max a w b in node rest m r

-- `DelNode_re`
unfoldable pub del_node_re : Tree → ℤ → Option Tree
unfolding del_fix_left del_fix_right replace_root
del_node_re leaf val = some leaf
del_node_re (node l v r) val =
    let right = (do r' ← del_node_re r val; del_fix_left l v r') in
    let left = (do l' ← del_node_re l val; del_fix_right l' v r) in
    if ltb_ℤ v val then right else if ltb_ℤ val v then left else some (replace_root l r)

-- The keys from left to right.
unfoldable pub inorder : Tree → List ℤ
inorder leaf = []
inorder (node l v r) = inorder l ++ v ∷ inorder r
