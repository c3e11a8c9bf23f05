-- ===== src/FileCrop/Columns/Line.antt =====
-- project_about/fileCrop/col_task.cpp: `ColTask::Run`, one line for one condition.
use mathlib.Core.List.{append_assoc}
use demo_code.Prelude.{
  ℕ, suc, ◌+◌, ◌<◌, ◌≤◌, le→leb, true, false, List, [], ◌∷◌, ◌++◌, length, length-append, take,
  drop, some, ◌≡◌, refl, sym, ap, ◌∙◌, arith, inl, inr, Bool-cases,
}
use demo_code.FileCrop.{newline}
use demo_code.FileCrop.Filter.{take_line}
use demo_code.FileCrop.Columns.{selection, is_valid, copy, copy_conditions, end_line}
use demo_code.FileCrop.Columns.Split.{split, row, ranges}
use demo_code.FileCrop.Columns.Selected.{
  width, cells, has_columns, cropped, length-ranges, cells_at, selection_at, end_line_last,
  end_line-cells, length-cells,
}
use demo_code.FileCrop.Columns.Lengths.{
  row-split, cropped_sound, drop_some, width-split, width_selected, has_columns_form,
}

is_valid-has_columns :
    (a b : ℕ) (fs : List (List ℕ)) → is_valid (ranges 0 fs) (a, b) ≡ has_columns a b fs
unfolding is_valid has_columns
is_valid-has_columns a b fs = rw (length-ranges 0 fs) refl

copy_fits :
    (file_size : ℕ) (bytes out : List ℕ)
    → length out + length bytes ≤ file_size
    → copy file_size bytes out ≡ some (out ++ bytes)
unfolding copy
copy_fits file_size bytes out h = rw (le→leb (length out + length bytes) file_size h) refl

copy_conditions_none :
    (res : List (ℕ × ℕ)) (c : ℕ × ℕ) (conditions : List (ℕ × ℕ)) (file_size line_size : ℕ)
    (line out : List ℕ)
    → is_valid res c ≡ false
    → copy_conditions file_size res line_size line (c ∷ conditions) out
      ≡ copy file_size (take line_size line) out
unfolding copy_conditions
copy_conditions_none res c conditions file_size line_size line out e = rw (e) refl

copy_conditions_one :
    (res : List (ℕ × ℕ)) (c part : ℕ × ℕ) (file_size line_size : ℕ) (line out copied : List ℕ)
    → is_valid res c ≡ true
    → selection res c ≡ some part
    → copy file_size (take part.1 (drop part.0 line)) out ≡ some copied
    → copy_conditions file_size res line_size line (c ∷ []) out ≡ some copied
unfolding copy_conditions
copy_conditions_one res c part file_size line_size line out copied e f g =
    rw (e) (rw (f) (rw (g) refl))

-- Copying and ending one line, for a condition that it does not have.
line_kept :
    (d a b file_size : ℕ) (l more out : List ℕ)
    → length out + (length l + 1) ≤ file_size
    → has_columns a b (split d l) ≡ false
    → (copied : List ℕ) × (copy_conditions file_size
          (ranges 0 (split d l))
          (length l + 1)
          (l ++ newline ∷ more)
          ((a, b) ∷ [])
          out
        ≡ some copied)
      × (end_line copied ≡ some (out ++ row d (cropped a b (split d l))))
unfolding cropped
line_kept d a b file_size l more out h e =
    let one : length l + 1 ≡ suc (length l) = omega arith in
    let taken : take (length l + 1) (l ++ newline ∷ more) ≡ l ++ newline ∷ [] =
      rw (one) (take_line l more) in
    (
      out ++ (l ++ newline ∷ []),
      copy_conditions_none (ranges 0 (split d l)) (a, b) [] file_size (length l + 1)
            (l ++ newline ∷ more) out (is_valid-has_columns a b (split d l) ∙ e)
          ∙ rw (taken) (
              copy_fits file_size (l ++ newline ∷ []) out
                (omega (arith, length-append l (newline ∷ [])))),
      ap end_line (sym (append_assoc out l (newline ∷ [])))
          ∙ end_line_last (out ++ l) newline
          ∙ ap some (
              append_assoc out l (newline ∷ [])
              ∙ rw (e) (ap (λ xs. out ++ xs) (sym (row-split d l)))),
    )

end_line_selected :
    (d m n : ℕ) (fs : List (List ℕ)) (out : List ℕ)
    → m < length fs
    → end_line (out ++ cells d (take (suc n) (drop m fs)))
      ≡ some (out ++ row d (take (suc n) (drop m fs)))
end_line_selected d m n fs out lt =
    let (f, rest, h) = drop_some m fs lt in rw (h) (end_line-cells d out f (take n rest))

-- Copying and ending one line, for a condition that it has.
line_selected :
    (d m n file_size : ℕ) (l more out : List ℕ)
    → length out + (length l + 1) ≤ file_size
    → has_columns (suc m) (m + suc n) (split d l) ≡ true
    → m + suc n < length (split d l)
    → (copied : List ℕ) × (copy_conditions file_size
          (ranges 0 (split d l))
          (length l + 1)
          (l ++ newline ∷ more)
          ((suc m, m + suc n) ∷ [])
          out
        ≡ some copied)
      × (end_line copied ≡ some (out ++ row d (cropped (suc m) (m + suc n) (split d l))))
line_selected d m n file_size l more out h e lt =
    let fs = split d l in
    let selected = take (suc n) (drop m fs) in
    let line : row d fs ++ more ≡ l ++ newline ∷ more =
      ap (λ xs. xs ++ more) (row-split d l) ∙ append_assoc l (newline ∷ []) more in
    let bytes : take (width selected) (drop (width (take m fs)) (l ++ newline ∷ more))
        ≡ cells d selected =
      rw (sym line) (cells_at d m (suc n) fs more lt) in
    let fits : length out + length (cells d selected) ≤ file_size =
      omega (arith, length-cells d selected, width_selected m (suc n) fs, width-split d l) in
    (
      out ++ cells d selected,
      copy_conditions_one (ranges 0 fs) (suc m, m + suc n) (width (take m fs), width selected)
          file_size (length l + 1) (l ++ newline ∷ more) out (out ++ cells d selected)
          (is_valid-has_columns (suc m) (m + suc n) fs ∙ e) (selection_at m n fs lt)
          (ap (λ xs. copy file_size xs out) bytes
            ∙ copy_fits file_size (cells d selected) out fits),
      end_line_selected d m n fs out (omega arith)
          ∙ ap (λ xs. some (out ++ row d xs)) (sym (cropped_sound m n fs e)),
    )

line_copied_at :
    (d a b m n file_size : ℕ) (l more out : List ℕ)
    → length out + (length l + 1) ≤ file_size
    → has_columns a b (split d l) ≡ true
    → a ≡ suc m
    → b ≡ m + suc n
    → b < length (split d l)
    → (copied : List ℕ) × (copy_conditions file_size
          (ranges 0 (split d l))
          (length l + 1)
          (l ++ newline ∷ more)
          ((a, b) ∷ [])
          out
        ≡ some copied)
      × (end_line copied ≡ some (out ++ row d (cropped a b (split d l))))
line_copied_at d a b m n file_size l more out h e first last lt =
    rw (first, last)
      (line_selected d m n file_size l more out h
        (ap (λ x. has_columns x (m + suc n) (split d l)) (sym first)
          ∙ ap (λ x. has_columns a x (split d l)) (sym last)
          ∙ e)
        (rw (sym last) lt))

-- Copying and ending one line.
pub line_copied :
    (d a b file_size : ℕ) (l more out : List ℕ)
    → length out + (length l + 1) ≤ file_size
    → (copied : List ℕ) × (copy_conditions file_size
          (ranges 0 (split d l))
          (length l + 1)
          (l ++ newline ∷ more)
          ((a, b) ∷ [])
          out
        ≡ some copied)
      × (end_line copied ≡ some (out ++ row d (cropped a b (split d l))))
line_copied d a b file_size l more out h = elim (Bool-cases (has_columns a b (split d l))) [
  | inr e ↦ line_kept d a b file_size l more out h e
  | inl e ↦
      let (m, n, first, last, lt) = has_columns_form a b (split d l) e in
      line_copied_at d a b m n file_size l more out h e first last lt
]
