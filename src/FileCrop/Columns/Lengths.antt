-- ===== src/FileCrop/Columns/Lengths.antt =====
-- project_about/fileCrop/col_task.cpp: a line as the row of its fields, and how long its columns are.
use demo_code.Prelude.{
  ℕ, zero, suc, ◌+◌, ◌-◌, ◌<◌, ◌≤◌, ◌==◌, ==_iff, true, false, List, [], ◌∷◌, ◌++◌, length,
  length-append, take, drop, ◌≡◌, refl, sym, ap, ◌∙◌, arith, inl, inr, Bool-cases,
}
use demo_code.FileCrop.{newline}
use demo_code.FileCrop.Columns.Split.{split, join_first, row}
use demo_code.FileCrop.Columns.Selected.{width, has_columns, cropped, width-take, length-row}

split_some : (d : ℕ) (l : List ℕ) → (f : List ℕ) × (fs : List (List ℕ)) × (split d l ≡ f ∷ fs)
unfolding split join_first
split_some d [] = ([], [], refl)
split_some d (b ∷ l) = elim (Bool-cases (b == d)) [
  | inl e ↦ ([], split d l, rw (e) refl)
  | inr e ↦ let (f, fs, h) = split_some d l in (b ∷ f, fs, rw (e) (rw (h) refl))
]

row-join_first :
    (d b : ℕ) (f : List ℕ) (fs : List (List ℕ)) → row d (join_first b (f ∷ fs)) ≡ b ∷ row d (f ∷ fs)
unfolding row join_first
row-join_first d b f [] = refl
row-join_first d b f (g ∷ fs) = refl

-- A line is the row of its fields.
pub row-split : (d : ℕ) (l : List ℕ) → row d (split d l) ≡ l ++ newline ∷ []
unfolding split row
row-split d [] = refl
row-split d (b ∷ l) =
    let (f, fs, h) = split_some d l in
    let before : row d (f ∷ fs) ≡ l ++ newline ∷ [] = rw (sym h) (row-split d l) in
    elim (Bool-cases (b == d)) [
      | inl e ↦ rw (e) (
          rw (h) (ap (λ x. x ∷ row d (f ∷ fs)) (sym ((==_iff b d).0 e)) ∙ ap (λ xs. b ∷ xs) before))
      | inr e ↦ rw (e) (rw (h) (row-join_first d b f fs ∙ ap (λ xs. b ∷ xs) before))
    ]

pub cropped_sound :
    (m n : ℕ) (fs : List (List ℕ))
    → has_columns (suc m) (m + suc n) fs ≡ true
    → cropped (suc m) (m + suc n) fs ≡ take (suc n) (drop m fs)
unfolding cropped
cropped_sound m n fs e =
    let size : m + suc n + 1 - suc m ≡ suc n = omega arith in
    let from : suc m - 1 ≡ m = omega arith in rw (e) (rw (size, from) refl)

pub drop_some :
    (m : ℕ) (fs : List (List ℕ))
    → m < length fs
    → (f : List ℕ) × (rest : List (List ℕ)) × (drop m fs ≡ f ∷ rest)
drop_some m [] h = absurd (omega arith)
drop_some zero (f ∷ fs) h = (f, fs, refl)
drop_some (suc m) (f ∷ fs) h = drop_some m fs (omega arith)

width_first : (n : ℕ) (fs : List (List ℕ)) → width (take n fs) ≤ width fs
unfolding width
width_first zero fs = omega arith
width_first (suc n) [] = omega arith
width_first (suc n) (f ∷ fs) = omega (arith, width_first n fs)

pub width-split : (d : ℕ) (l : List ℕ) → width (split d l) ≡ length l + 1
width-split d l =
    let (f, fs, h) = split_some d l in
    ap width h
    ∙ sym (length-row d f fs)
    ∙ ap (λ x. length (row d x)) (sym h)
    ∙ ap length (row-split d l)
    ∙ length-append l (newline ∷ [])

pub width_selected : (m n : ℕ) (fs : List (List ℕ)) → width (take n (drop m fs)) ≤ width fs
width_selected m n fs = omega (arith, width-take m n fs, width_first (m + n) fs)

-- A condition that holds has a place before its first column and as many columns as there are up to its last.
pub has_columns_form :
    (a b : ℕ) (fs : List (List ℕ))
    → has_columns a b fs ≡ true
    → (m : ℕ) × (n : ℕ) × (a ≡ suc m) × (b ≡ m + suc n) × (b < length fs)
unfolding has_columns
has_columns_form a b fs e =
    let first : 1 ≤ a = ground (arith, e) in
    let order : a ≤ b = ground (arith, e) in
    let last : b < length fs = ground (arith, e) in (a - 1, b - a, omega arith, omega arith, last)

-- A line never grows.
length-row_selected :
    (d m n : ℕ) (fs : List (List ℕ))
    → m < length fs
    → length (row d (take (suc n) (drop m fs))) ≡ width (take (suc n) (drop m fs))
length-row_selected d m n fs lt =
    let (f, rest, h) = drop_some m fs lt in rw (h) (length-row d f (take n rest))

length-cropped_at :
    (d a b m n : ℕ) (l : List ℕ)
    → has_columns a b (split d l) ≡ true
    → a ≡ suc m
    → b ≡ m + suc n
    → b < length (split d l)
    → length (row d (cropped a b (split d l))) ≤ length l + 1
length-cropped_at d a b m n l e first last lt =
    let same : cropped a b (split d l) ≡ take (suc n) (drop m (split d l)) =
      rw (first, last)
        (cropped_sound m n (split d l) (
          ap (λ x. has_columns x (m + suc n) (split d l)) (sym first)
          ∙ ap (λ x. has_columns a x (split d l)) (sym last)
          ∙ e)) in
    rw (same) (
      omega (
        arith,
        length-row_selected d m n (split d l) (omega arith),
        width_selected m (suc n) (split d l),
        width-split d l,
      ))

cropped_all : (a b : ℕ) (fs : List (List ℕ)) → has_columns a b fs ≡ false → cropped a b fs ≡ fs
unfolding cropped
cropped_all a b fs e = rw (e) refl

pub length-cropped :
    (d a b : ℕ) (l : List ℕ) → length (row d (cropped a b (split d l))) ≤ length l + 1
length-cropped d a b l = elim (Bool-cases (has_columns a b (split d l))) [
  | inr e ↦
      rw (cropped_all a b (split d l) e)
        (omega (arith, ap length (row-split d l), length-append l (newline ∷ [])))
  | inl e ↦
      let (m, n, first, last, lt) = has_columns_form a b (split d l) e in
      length-cropped_at d a b m n l e first last lt
]
