-- ===== src/FileCrop/Columns/Cropping.antt =====
-- project_about/fileCrop/col_task.cpp: `ColTask::Run` of a file of lines, for one condition.
use mathlib.Core.List.{append_assoc, append-nil}
use demo_code.Prelude.{
  ℕ, zero, suc, ◌+◌, ◌<◌, ◌≤◌, lt→ltb, ltb-false, List, [], ◌∷◌, ◌++◌, length, length-append, some,
  ◌>>=◌, ◌≡◌, ◌≢◌, refl, ap, ◌∙◌, arith,
}
use demo_code.Prelude.Sorted.{All}
use demo_code.FileCrop.{newline}
use demo_code.FileCrop.Fields.{IsLine, text, strchr-newline}
use demo_code.FileCrop.Filter.{lines_le, drop_line}
use demo_code.FileCrop.Columns.{copy_conditions, end_line, crop_lines, col_conditions, run_col}
use demo_code.FileCrop.Columns.Split.{split, row, ranges, columns-ranges}
use demo_code.FileCrop.Columns.Selected.{cropped}
use demo_code.FileCrop.Columns.Line.{line_copied}
use demo_code.FileCrop.Columns.Lengths.{length-cropped}

-- What the file becomes.
unfoldable pub rows : ℕ → ℕ → ℕ → List (List ℕ) → List ℕ
rows d a b [] = []
rows d a b (l ∷ ls) = row d (cropped a b (split d l)) ++ rows d a b ls

crop_lines_step :
    (c : ℕ × ℕ) (d fuel file_size done : ℕ) (l more out copied ended : List ℕ)
    → done < file_size
    → d ≢ newline
    → IsLine l
    → copy_conditions file_size
        (ranges 0 (split d l))
        (length l + 1)
        (l ++ newline ∷ more)
        (c ∷ [])
        out
      ≡ some copied
    → end_line copied ≡ some ended
    → crop_lines (c ∷ []) d (suc fuel) file_size done (l ++ newline ∷ more) out
      ≡ crop_lines (c ∷ []) d fuel file_size (done + (length l + 1)) more ended
unfolding crop_lines
crop_lines_step c d fuel file_size done l more out copied ended lt nd line e f =
    let one : length l + 1 ≡ suc (length l) = omega arith in
    let found =
      columns-ranges d nd (suc (length (l ++ newline ∷ more))) (length l + 1) 0 l more
        (omega (arith, length-append l (newline ∷ more))) (omega arith) line in
    rw (lt→ltb done file_size lt) (
      rw (strchr-newline l more line, crop_lines)
        (rw (found, ◌>>=◌) (rw (e, ◌>>=◌) (rw (f, ◌>>=◌) (rw (one, drop_line l more) refl)))))

-- The new buffer has place for each line.
crop_lines-rows :
    (d a b : ℕ)
    → d ≢ newline
    → (ls : List (List ℕ)) (fuel file_size done : ℕ) (tail out : List ℕ) → length ls < fuel
    → length out ≤ done
    → file_size ≡ done + length (text ls)
    → All IsLine ls
    → crop_lines ((a, b) ∷ []) d fuel file_size done (text ls ++ tail) out
      ≡ some (out ++ rows d a b ls)
unfolding crop_lines text rows
crop_lines-rows d a b nd ls zero file_size done tail out f o e h = absurd (omega arith)
crop_lines-rows d a b nd [] (suc fuel) file_size done tail out f o e h =
    rw (ltb-false done file_size (omega arith)) (rw (append-nil out) refl)
crop_lines-rows d a b nd (l ∷ ls) (suc fuel) file_size done tail out f o e h =
    let more : List ℕ = text ls ++ tail in
    let size : file_size ≡ done + (length l + 1) + length (text ls) =
      omega (arith, e, length-append l (newline ∷ text ls)) in
    let (copied, e₁, e₂) = line_copied d a b file_size l more out (omega arith) in
    let one = row d (cropped a b (split d l)) in
    ap (λ xs. crop_lines ((a, b) ∷ []) d (suc fuel) file_size done xs out)
      (append_assoc l (newline ∷ text ls) tail)
    ∙ crop_lines_step (a, b) d fuel file_size done l more out copied (out ++ one) (omega arith) nd
        h.0 e₁ e₂
    ∙ crop_lines-rows d a b nd ls fuel file_size (done + (length l + 1)) tail (out ++ one)
        (omega arith) (omega (arith, length-append out one, length-cropped d a b l)) size h.1
    ∙ ap some (append_assoc out one (rows d a b ls))

-- `ColTask::Run` with one range of columns, on a part of a file that consists of whole lines, writes for
-- each line, in their order, a line of the fields of the range, whatever follows the part; or the line as
-- it is when the range is empty, starts before 1 or does not end before the last field. Nothing is written
-- past the end of the new buffer.
pub run_col-rows :
    (ls : List (List ℕ)) (tail condition : List ℕ) (d a b : ℕ)
    → d ≢ newline
    → All IsLine ls
    → col_conditions condition ≡ (a, b) ∷ []
    → run_col (text ls ++ tail) (length (text ls)) condition d ≡ some (rows d a b ls)
unfolding run_col
run_col-rows ls tail condition d a b nd h e = rw (e) (
    crop_lines-rows d a b nd ls (suc (length (text ls))) (length (text ls)) 0 tail []
      (omega (arith, lines_le ls)) (omega arith) (omega arith) h)
