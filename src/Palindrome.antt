-- ===== src/Palindrome.antt =====
-- algorithm_about/classic_problem/longest_palindrome.cpp. A string is the list of its bytes. Each
-- read is at an index that the loop's test has put in range, so it gives an item.
pub mod Spec
pub mod Expand
pub mod Direct
pub mod Radius
pub mod Manacher
pub mod Linear
mod Tests
use demo_code.Prelude.{
  ℕ, zero, suc, ◌+◌, ◌-◌, ◌*◌, ◌/◌, ◌%◌, ltb, leb, ◌==◌, if◌then◌else◌, List, [], ◌∷◌, get_or, set,
  length, take, drop, replicate, min,
}

-- `s.substr(pos, count)`
abbrev pub substr : List ℕ → ℕ → ℕ → List ℕ
substr s pos count = take count (drop pos s)

-- The lambda `CompareLR`, with `front` as the number of the places up to it: `front` may be -1. The
-- results are those of `front` and `tmpSize`.
unfoldable pub compare_lr : List ℕ → ℕ → ℕ → ℕ → ℕ × ℕ
compare_lr s zero behind tmp_size = (0, tmp_size)
compare_lr s (suc front) behind tmp_size =
    let further = compare_lr s front (behind + 1) (tmp_size + 1) in
    if ltb behind (length s)
    then (if get_or s front 0 == get_or s behind 0 then further else (suc front, tmp_size))
    else (suc front, tmp_size)

pub record Best : Type 0 where
  pub start_pos : ℕ
  pub max_size : ℕ

-- `if(size >= maxSize) { maxSize = size; startPos = f + 1; }`
unfoldable pub keep : Best → ℕ → ℕ → Best
keep best size start =
    if leb best.max_size size then record { start_pos = start; max_size = size } else best

-- One round of the loop of `longestPalindrome1`.
unfoldable pub center : List ℕ → ℕ → Best → Best
center s i best =
    let even = compare_lr s i i 0 in
    let best' = keep best (even.1 * 2) even.0 in
    let odd = compare_lr s i (i + 1) 0 in keep best' (odd.1 * 2 + 1) odd.0

-- The rounds that are left, from `i`.
unfoldable pub centers : ℕ → List ℕ → ℕ → Best → Best
centers zero s i best = best
centers (suc n) s i best = centers n s (i + 1) (center s i best)

-- `longestPalindrome1`
unfoldable pub longest_palindrome1 : List ℕ → List ℕ
longest_palindrome1 s =
    let best = centers (length s - 1) s 1 (record { start_pos = 0; max_size = 0 }) in
    substr s best.start_pos best.max_size

-- `ss`, the rest of it from the place `i`, of `n` places.
unfoldable pub spread : ℕ → List ℕ → ℕ → List ℕ
spread zero s i = []
spread (suc n) s i = (if i % 2 == 0 then b'#' else get_or s (i / 2) 0) ∷ spread n s (i + 1)

-- The `while` loop, with the room that is left on the right.
unfoldable pub extend : ℕ → List ℕ → ℕ → ℕ → ℕ
extend zero ss i r = r
extend (suc n) ss i r =
    let further = extend n ss i (r + 1) in
    if leb r i then (if get_or ss (i - r) 0 == get_or ss (i + r) 0 then further else r) else r

pub record Radii : Type 0 where
  pub mx : ℕ
  pub pos : ℕ
  pub r : List ℕ
  pub max_pos : ℕ
  pub max_val : ℕ

-- `mx > i ? std::min(r[2 * pos - i], mx - i) : 1`
unfoldable pub known_radius : ℕ → Radii → ℕ
known_radius i st = if ltb i st.mx then min (get_or st.r (2 * st.pos - i) 0) (st.mx - i) else 1

-- What a round stores for the radius `r` at `i`.
unfoldable pub store_radius : ℕ → ℕ → Radii → Radii
store_radius i r st = record {
  mx = if ltb st.mx (i + r) then i + r else st.mx;
  pos = if ltb st.mx (i + r) then i else st.pos;
  r = set st.r i r;
  max_pos = if ltb st.max_val r then i else st.max_pos;
  max_val = if ltb st.max_val r then r else st.max_val;
}

-- One round of the loop of `longestPalindrome2`.
unfoldable pub radius : List ℕ → ℕ → Radii → Radii
radius ss i st =
    let known = known_radius i st in store_radius i (extend (length ss - (i + known)) ss i known) st

unfoldable pub radii : ℕ → List ℕ → ℕ → Radii → Radii
radii zero ss i st = st
radii (suc n) ss i st = radii n ss (i + 1) (radius ss i st)

-- `longestPalindrome2`
unfoldable pub longest_palindrome2 : List ℕ → List ℕ
longest_palindrome2 s =
    let n = length s * 2 + 1 in
    let ss = spread n s 0 in
    let st =
      radii n ss 0 (record { mx = 0; pos = 0; r = replicate n 0; max_pos = 0; max_val = 0 }) in
    substr s ((st.max_pos + 1 - st.max_val) / 2) (st.max_val - 1)
