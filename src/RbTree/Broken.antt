-- ===== src/RbTree/Broken.antt =====
-- A red-black tree that `AddNode` breaks.
use Prim.Native.Nat.{ℕ, suc}
use demo_code.Prelude.{
  ℤ, ◌<ℤ◌, ltb_ℤ, if◌then◌else◌, ◌==◌, Bool, ◌&&◌, not, ◌||◌, ◌≡◌, refl, arith, Option, none, some,
  true, false, ◌>>=◌,
}
use demo_code.RbTree.{
  red, black, Tree, leaf, node, is_red, add_node, add_fix_up, after_round, rebuild_con, descend,
  fix_round, is_red_frame, zip, blacken,
}

-- The number of black nodes on each way down, where it is one number.
pub black_height : Tree → Option ℕ
black_height leaf = some 0
black_height (node c l v r) = do
  hl ← black_height l
  hr ← black_height r
  if hl == hr then some (if is_red (node c l v r) then hl else suc hl) else none

-- No red node has a red child.
pub reds_apart : Tree → Bool
reds_apart leaf = true
reds_apart (node c l v r) =
    not (is_red (node c l v r) && (is_red l || is_red r)) && (reds_apart l && reds_apart r)

pub record IsRedBlack (t : Tree) : Type 0 where
  pub root : is_red t ≡ false
  pub apart : reds_apart t ≡ true
  pub height : (h : ℕ) × (black_height t ≡ some h)

ltb_ℤ-true : (a b : ℤ) → a <ℤ b → ltb_ℤ a b ≡ true
ltb_ℤ-true a b h = ground arith

ltb_ℤ-false : (a b : ℤ) → b <ℤ a → ltb_ℤ a b ≡ false
ltb_ℤ-false a b h = ground arith

-- A red-black tree with a red node between two black ones.
abbrev pub before : ℤ → ℤ → ℤ → ℤ → ℤ → ℤ → Tree
before a b c d e f =
    node black (node red (node black leaf a leaf) b (node black (node red leaf c leaf) d leaf)) e
      (node black leaf f leaf)

-- For any seven ascending values there is a red-black tree of all but `x` to which `AddNode` adds `x`
-- with a result that is no red-black tree: after a double rotation the loop goes on from a black node,
-- and below a red one it rotates once more.
pub add_node-not-IsRedBlack :
    (a b c x d e f : ℤ)
    → a <ℤ b
    → b <ℤ c
    → c <ℤ x
    → x <ℤ d
    → d <ℤ e
    → e <ℤ f
    → IsRedBlack (before a b c d e f)
      × (after : Tree) × (add_node (before a b c d e f) x ≡ some after)
      × ¬ IsRedBlack after
unfolding add_node descend add_fix_up fix_round after_round rebuild_con is_red_frame zip blacken
    black_height reds_apart is_red
add_node-not-IsRedBlack a b c x d e f p q r s t u = (
  record { root = refl; apart = refl; height = (2, refl) },
  node black (node red (node black leaf a leaf) b (node red leaf c leaf)) x
      (node red (node red leaf d leaf) e (node black leaf f leaf)),
  ground (
    arith,
    ltb_ℤ-false e x,
    ltb_ℤ-true x e,
    ltb_ℤ-true b x,
    ltb_ℤ-false d x,
    ltb_ℤ-true x d,
    ltb_ℤ-true c x,
    ltb_ℤ-false x b,
  ),
  λ w. absurd (cc (w.apart)),
)
