-- ===== src/EvLoop/Counts.antt =====
-- project_about/feedproxy/levservice/ev_loop.cpp: the counts after `Increment` and `Decrement`.
use demo_code.Prelude.{
  ℕ, ◌≡◌, arith, ◌==◌, if◌then◌else◌, List, [], ◌∷◌, some, sub_u32, Bool-cases, inl, inr,
}
use demo_code.EvLoop.{EvLoop, find_count, change, decrement}
use demo_code.EvLoop.Balance.{AllCounted}

pub find_count-change :
    (f : ℕ → ℕ) (a b n : ℕ) (m : List (ℕ × ℕ))
    → find_count a m ≡ some n
    → find_count a (change f b m) ≡ some (if b == a then f n else n)
unfolding find_count change
find_count-change f a b n [] h = ground arith
find_count-change f a b n ((c, k) ∷ m) h = ground (arith, find_count-change f a b n m)

pub change-AllCounted :
    (f : ℕ → ℕ) (b : ℕ) (m : List (ℕ × ℕ)) (bs : List ℕ)
    → AllCounted m bs
    → AllCounted (change f b m) bs
change-AllCounted f b m [] v = tt
change-AllCounted f b m (a ∷ bs) v =
    ((_, find_count-change f a b v.0.0 m v.0.1), change-AllCounted f b m bs v.1)

pub decrement-AllCounted :
    (b : ℕ) (l : EvLoop)
    → AllCounted l.counts l.bases
    → AllCounted (decrement b l).counts (decrement b l).bases
unfolding decrement
decrement-AllCounted b l v = elim (Bool-cases (b == 0)) [
  | inl h ↦ rw h v
  | inr h ↦ rw h (change-AllCounted (λ n. sub_u32 n 1) b l.counts l.bases v)
]

pub decrement-bases : (b : ℕ) (l : EvLoop) → (decrement b l).bases ≡ l.bases
unfolding decrement
decrement-bases b l = ground arith
