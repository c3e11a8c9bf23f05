-- ===== src/FileCrop/Columns/Selected.antt =====
-- project_about/fileCrop/col_task.cpp: what is copied of a line for one condition.
use mathlib.Core.List.{append_assoc}
use demo_code.Prelude.{
  ℕ, zero, suc, ◌+◌, ◌-◌, ◌<◌, ltb, leb, ◌==◌, if◌then◌else◌, Bool, ◌&&◌, List, [], ◌∷◌, ◌++◌,
  length, length-append, take, drop, get_elem?, some, ◌≡◌, refl, sym, ap, ◌∙◌, arith,
}
use demo_code.FileCrop.{newline}
use demo_code.FileCrop.Columns.{selection, end_line}
use demo_code.FileCrop.Columns.Split.{row, ranges}

-- The bytes of fields, each with the delimiter that ends it.
unfoldable pub width : List (List ℕ) → ℕ
width [] = 0
width (f ∷ fs) = length f + 1 + width fs

unfoldable pub cells : ℕ → List (List ℕ) → List ℕ
cells d [] = []
cells d (f ∷ fs) = f ++ d ∷ cells d fs

pub length-ranges : (s : ℕ) (fs : List (List ℕ)) → length (ranges s fs) ≡ length fs
unfolding ranges
length-ranges s [] = refl
length-ranges s (f ∷ fs) = ap suc (length-ranges (s + length f + 1) fs)

ranges_at :
    (i s : ℕ) (fs : List (List ℕ))
    → i < length fs
    → get_elem? (ranges s fs) i ≡ some (s + width (take i fs), s + width (take (suc i) fs))
unfolding ranges width
ranges_at i s [] h = absurd (omega arith)
ranges_at zero s (f ∷ fs) h = ground arith
ranges_at (suc i) s (f ∷ fs) h = ground (arith, ranges_at i (s + length f + 1) fs)

pub width-take :
    (m n : ℕ) (fs : List (List ℕ))
    → width (take (m + n) fs) ≡ width (take m fs) + width (take n (drop m fs))
unfolding width
width-take zero n fs = let e : 0 + n ≡ n = omega arith in rw (e) (omega arith)
width-take (suc m) zero [] = let e : suc m + 0 ≡ suc m = omega arith in rw (e) (omega arith)
width-take (suc m) (suc n) [] =
    let e : suc m + suc n ≡ suc (m + suc n) = omega arith in rw (e) (omega arith)
width-take (suc m) n (f ∷ fs) =
    let e : suc m + n ≡ suc (m + n) = omega arith in rw (e) (omega (arith, width-take m n fs))

take_field :
    (f : List ℕ) (n x : ℕ) (xs : List ℕ)
    → take (length f + 1 + n) (f ++ x ∷ xs) ≡ f ++ x ∷ take n xs
take_field [] n x xs = let e : 0 + 1 + n ≡ suc n = omega arith in rw (e) refl
take_field (b ∷ f) n x xs =
    let e : suc (length f) + 1 + n ≡ suc (length f + 1 + n) = omega arith in
    rw (e) (ap (λ ys. b ∷ ys) (take_field f n x xs))

drop_field :
    (f : List ℕ) (n x : ℕ) (xs : List ℕ) → drop (length f + 1 + n) (f ++ x ∷ xs) ≡ drop n xs
drop_field [] n x xs = let e : 0 + 1 + n ≡ suc n = omega arith in rw (e) refl
drop_field (b ∷ f) n x xs =
    let e : suc (length f) + 1 + n ≡ suc (length f + 1 + n) = omega arith in
    rw (e) (drop_field f n x xs)

-- The first fields of a row that has more of them.
take-cells :
    (d n : ℕ) (fs : List (List ℕ)) (more : List ℕ)
    → n < length fs
    → take (width (take n fs)) (row d fs ++ more) ≡ cells d (take n fs)
unfolding width cells row
take-cells d zero fs more h = refl
take-cells d (suc n) [] more h = absurd (omega arith)
take-cells d (suc n) (f ∷ []) more h = absurd (omega arith)
take-cells d (suc n) (f ∷ g ∷ fs) more h = rw (append_assoc f (d ∷ row d (g ∷ fs)) more) (
    take_field f (width (take n (g ∷ fs))) d (row d (g ∷ fs) ++ more)
    ∙ ap (λ xs. f ++ d ∷ xs) (take-cells d n (g ∷ fs) more (omega arith)))

-- The same, m fields further.
pub cells_at :
    (d m n : ℕ) (fs : List (List ℕ)) (more : List ℕ)
    → m + n < length fs
    → take (width (take n (drop m fs))) (drop (width (take m fs)) (row d fs ++ more))
      ≡ cells d (take n (drop m fs))
unfolding width row
cells_at d zero n fs more h = take-cells d n fs more (omega arith)
cells_at d (suc m) n [] more h = absurd (omega arith)
cells_at d (suc m) n (f ∷ []) more h = absurd (omega arith)
cells_at d (suc m) n (f ∷ g ∷ fs) more h =
    rw
      (
        append_assoc f (d ∷ row d (g ∷ fs)) more,
        drop_field f (width (take m (g ∷ fs))) d (row d (g ∷ fs) ++ more),
      )
      (cells_at d m n (g ∷ fs) more (omega arith))

selection_found :
    (res : List (ℕ × ℕ)) (first second : ℕ) (from last before : ℕ × ℕ)
    → get_elem? res (first - 1) ≡ some from
    → get_elem? res (second - 1) ≡ some last
    → (if first == 1 then some (0, 0) else get_elem? res (first - 2)) ≡ some before
    → selection res (first, second) ≡ some (from.0, last.1 - before.1)
unfolding selection
selection_found res first second from last before e f g = rw (e) (rw (f) (rw (g) refl))

pub selection_at :
    (m n : ℕ) (fs : List (List ℕ))
    → m + suc n < length fs
    → selection (ranges 0 fs) (suc m, m + suc n)
      ≡ some (width (take m fs), width (take (suc n) (drop m fs)))
selection_at zero n fs h =
    let i : 0 + suc n - 1 ≡ n = omega arith in
    let last_at : get_elem? (ranges 0 fs) (0 + suc n - 1)
        ≡ some (0 + width (take n fs), 0 + width (take (suc n) fs)) =
      rw (i) (ranges_at n 0 fs (omega arith)) in
    selection_found (ranges 0 fs) 1 (0 + suc n) _ _ (0, 0) (ranges_at 0 0 fs (omega arith)) last_at
      refl
    ∙ ap some (ground arith)
selection_at (suc m) n fs h =
    let i : suc m + suc n - 1 ≡ suc (m + n) = omega arith in
    let i' : suc (suc m) - 1 ≡ suc m = omega arith in
    let first_at : get_elem? (ranges 0 fs) (suc (suc m) - 1)
        ≡ some (0 + width (take (suc m) fs), 0 + width (take (suc (suc m)) fs)) =
      rw (i') (ranges_at (suc m) 0 fs (omega arith)) in
    let j : suc m + suc n ≡ suc (suc (m + n)) = omega arith in
    let last_at : get_elem? (ranges 0 fs) (suc m + suc n - 1)
        ≡ some (0 + width (take (suc (m + n)) fs), 0 + width (take (suc (suc (m + n))) fs)) =
      rw (i) (ranges_at (suc (m + n)) 0 fs (omega arith)) in
    let before_at : (if suc (suc m) == 1
          then some (0, 0)
          else get_elem? (ranges 0 fs) (suc (suc m) - 2))
        ≡ some (0 + width (take m fs), 0 + width (take (suc m) fs)) =
      let k : suc (suc m) - 2 ≡ m = omega arith in rw (k) (ground (arith, ranges_at m 0 fs)) in
    let sum : width (take (suc (suc (m + n))) fs)
        ≡ width (take (suc m) fs) + width (take (suc n) (drop (suc m) fs)) =
      rw (sym j) (width-take (suc m) (suc n) fs) in
    selection_found (ranges 0 fs) (suc (suc m)) (suc m + suc n) _ _ _ first_at last_at before_at
    ∙ ap some (ground (arith, sum))

-- A condition that the fields of a line satisfy: the first and the last field count from 1, and the last
-- one of the line is not among them.
unfoldable pub has_columns : ℕ → ℕ → List (List ℕ) → Bool
has_columns a b fs = ltb a (length fs) && (ltb b (length fs) && (leb 1 a && leb a b))

-- What a line becomes.
unfoldable pub cropped : ℕ → ℕ → List (List ℕ) → List (List ℕ)
unfolding has_columns
cropped a b fs = if has_columns a b fs then take (b + 1 - a) (drop (a - 1) fs) else fs

pub row-cells :
    (d : ℕ) (f : List ℕ) (fs : List (List ℕ))
    → (init : List ℕ) × (cells d (f ∷ fs) ≡ init ++ d ∷ [])
      × (row d (f ∷ fs) ≡ init ++ newline ∷ [])
unfolding cells row
row-cells d f [] = (f, refl, refl)
row-cells d f (g ∷ fs) =
    let (init, e, h) = row-cells d g fs in
    (
      f ++ d ∷ init,
      ap (λ xs. f ++ d ∷ xs) e ∙ sym (append_assoc f (d ∷ init) (d ∷ [])),
      ap (λ xs. f ++ d ∷ xs) h ∙ sym (append_assoc f (d ∷ init) (newline ∷ [])),
    )

pub end_line_last : (xs : List ℕ) (b : ℕ) → end_line (xs ++ b ∷ []) ≡ some (xs ++ newline ∷ [])
unfolding end_line
end_line_last [] b = refl
end_line_last (x ∷ []) b = refl
end_line_last (x ∷ y ∷ xs) b = rw (end_line_last (y ∷ xs) b) refl

-- The newline at the end of the columns that were copied.
pub end_line-cells :
    (d : ℕ) (out : List ℕ) (f : List ℕ) (fs : List (List ℕ))
    → end_line (out ++ cells d (f ∷ fs)) ≡ some (out ++ row d (f ∷ fs))
end_line-cells d out f fs =
    let (init, e, h) = row-cells d f fs in
    ap (λ xs. end_line (out ++ xs)) e
    ∙ ap end_line (sym (append_assoc out init (d ∷ [])))
    ∙ end_line_last (out ++ init) d
    ∙ ap some (append_assoc out init (newline ∷ []) ∙ ap (λ xs. out ++ xs) (sym h))

pub length-cells : (d : ℕ) (fs : List (List ℕ)) → length (cells d fs) ≡ width fs
unfolding cells width
length-cells d [] = refl
length-cells d (f ∷ fs) = omega (arith, length-append f (d ∷ cells d fs), length-cells d fs)

pub length-row :
    (d : ℕ) (f : List ℕ) (fs : List (List ℕ)) → length (row d (f ∷ fs)) ≡ width (f ∷ fs)
unfolding row width
length-row d f [] = omega (arith, length-append f (newline ∷ []))
length-row d f (g ∷ fs) = omega (arith, length-append f (d ∷ row d (g ∷ fs)), length-row d g fs)
