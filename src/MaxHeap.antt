-- ===== src/MaxHeap.antt =====
-- algorithm_about/binary_tree/max_heap.cpp: the class `MaxHeap`, whose state `m_vec` is the list of
-- its items behind a sentinel. `none` is a read or a write outside the vector, or that the fuel ran
-- out.
pub mod Insert
pub mod Sift
pub mod Delete
mod Tests
use demo_code.Prelude.{
  ℕ, zero, suc, ◌+◌, ◌-◌, ◌*◌, ◌/◌, ltb, ℤ, negsuc, ltb_ℤ, if◌then◌else◌, ◌||◌, List, [], ◌∷◌, ◌++◌,
  get_elem?, set?, length, take, Option, none, some, ◌>>=◌,
}
use demo_code.Prelude.Arrays.{swap}

-- `MaxHeap::MaxHeap`
abbrev pub empty : List ℤ
empty = negsuc 0 ∷ []

-- The loop of `InsertFix`, on fuel: the last `i`.
unfoldable pub climb : ℕ → List ℤ → ℤ → ℕ → Option ℕ
climb zero m_vec tmp i = none
climb (suc fuel) m_vec tmp i =
    let compared = (do
      parent ← get_elem? m_vec (i / 2)
      let higher = climb fuel m_vec tmp (i / 2)
      if ltb_ℤ parent tmp then higher else some i) in
    if ltb 1 i then compared else some i

-- `InsertFix`: the two last assignments exchange the last item and that at `i`.
unfoldable pub insert_fix : List ℤ → Option (List ℤ)
unfolding climb
insert_fix m_vec =
    let fixed = (do
      tmp ← get_elem? m_vec (length m_vec - 1)
      i ← climb (length m_vec) m_vec tmp (length m_vec - 1)
      swap m_vec (length m_vec - 1) i) in
    if ltb (length m_vec) 3 then some m_vec else fixed

-- `Insert`
unfoldable pub insert : List ℤ → ℤ → Option (List ℤ)
insert m_vec val = insert_fix (m_vec ++ val ∷ [])

-- The loop of `DeleteFix` and the assignment behind it, on fuel.
unfoldable pub sift : ℕ → List ℤ → ℤ → ℕ → Option (List ℤ)
sift zero m_vec tmp i = none
sift (suc fuel) m_vec tmp i =
    let stop = (if ltb i (length m_vec) then set? m_vec i tmp else some m_vec) in
    let round = (do
      left ← get_elem? m_vec (2 * i)
      right ← get_elem? m_vec (2 * i + 1)
      let take_right = (do m_vec' ← set? m_vec i right; sift fuel m_vec' tmp (2 * i + 1))
      let take_left = (do m_vec' ← set? m_vec i left; sift fuel m_vec' tmp (2 * i))
      let larger = (if ltb_ℤ left right then take_right else take_left)
      if ltb_ℤ tmp left || ltb_ℤ tmp right then larger else stop) in
    if ltb (2 * i + 1) (length m_vec) then round else stop

-- `DeleteFix`
unfoldable pub delete_fix : List ℤ → Option (List ℤ)
delete_fix m_vec =
    let fixed = (do tmp ← get_elem? m_vec 1; sift (length m_vec) m_vec tmp 1) in
    if ltb (length m_vec) 3 then some m_vec else fixed

-- `Delete`
unfoldable pub delete : List ℤ → Option (List ℤ)
delete m_vec =
    let deleted = (do
      back ← get_elem? m_vec (length m_vec - 1)
      m_vec' ← set? m_vec 1 back
      delete_fix (take (length m_vec' - 1) m_vec')) in
    if ltb (length m_vec) 1 then some m_vec else deleted

-- `Top`
unfoldable pub top : List ℤ → Option ℤ
top m_vec = if ltb 1 (length m_vec) then get_elem? m_vec 1 else get_elem? m_vec 0
