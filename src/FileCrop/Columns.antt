-- ===== src/FileCrop/Columns.antt =====
-- project_about/fileCrop/col_task.cpp: `ColTask::Run`, which copies some columns of each line. `none` is a
-- write past the end of the new buffer, which has the size of the file, or that the fuel ran out.
pub mod Split
pub mod Selected
pub mod Lengths
pub mod Line
pub mod Cropping
use demo_code.Prelude.{
  ℕ, zero, suc, ◌+◌, ◌-◌, ◌%◌, ◌^◌, u32, ltb, leb, ◌==◌, if◌then◌else◌, Bool, true, false, ◌&&◌, ℤ,
  pos, negsuc, List, [], ◌∷◌, ◌++◌, length, take, drop, map, get_elem?, Option, none, some, ◌>>=◌,
}
use demo_code.FileCrop.{strchr, newline, code_conditions, date_range}

-- An `int` as an `unsigned int`.
unfoldable pub to_unsigned : ℤ → ℕ
to_unsigned (pos n) = u32 n
to_unsigned (negsuc n) = 2 ^ 32 - 1 - u32 n

-- `conditionVec`: the conditions are cut at the commas as those of `CodeTask`, and each one is read as a
-- range is by `DateTask`.
unfoldable pub col_range : List ℕ → ℕ × ℕ
unfolding to_unsigned date_range
col_range part = let r = date_range part in (to_unsigned r.0, to_unsigned r.1)

unfoldable pub col_conditions : List ℕ → List (ℕ × ℕ)
unfolding col_range code_conditions
col_conditions condition = map col_range (code_conditions (length condition) condition)

-- The inner loop: `res`, the columns of a line, each with the place of its start and of its end. `searched`
-- is the place of `pre` in the line.
unfoldable pub columns : ℕ → ℕ → ℕ → ℕ → List ℕ → Option (List (ℕ × ℕ))
columns delimiter zero line_size searched pre = none
columns delimiter (suc fuel) line_size searched pre = elim (strchr pre delimiter) [
  | none ↦ some ((searched, line_size) ∷ [])
  | some k ↦
      let rest = columns delimiter fuel line_size (searched + k + 1) (drop (k + 1) pre) in
      if leb line_size (searched + k + 1)
      then some ((searched, line_size) ∷ [])
      else (rest >>= λ (res : List (ℕ × ℕ)). some ((searched, searched + k + 1) ∷ res))
]

-- `memcpy` to the end of the new buffer.
unfoldable pub copy : ℕ → List ℕ → List ℕ → Option (List ℕ)
copy file_size bytes new_file =
    if leb (length new_file + length bytes) file_size then some (new_file ++ bytes) else none

-- The columns of a condition that a line has: the start and the size of what is copied.
unfoldable pub selection : List (ℕ × ℕ) → ℕ × ℕ → Option (ℕ × ℕ)
selection res (first, second) = do
  from ← get_elem? res (first - 1)
  last ← get_elem? res (second - 1)
  before ← if first == 1 then some (0, 0) else get_elem? res (first - 2)
  some (from.0, last.1 - before.1)

unfoldable pub is_valid : List (ℕ × ℕ) → ℕ × ℕ → Bool
is_valid res (first, second) =
    ltb first (length res) && (ltb second (length res) && (leb 1 first && leb first second))

-- The loop over the conditions. A condition that the line does not have copies the line and ends the loop.
unfoldable pub copy_conditions :
    ℕ → List (ℕ × ℕ) → ℕ → List ℕ → List (ℕ × ℕ) → List ℕ → Option (List ℕ)
copy_conditions file_size res line_size line [] new_file = some new_file
copy_conditions file_size res line_size line (c ∷ conditions) new_file =
    let selected : Option (List ℕ) = (do
      part ← selection res c
      out ← copy file_size (take part.1 (drop part.0 line)) new_file
      copy_conditions file_size res line_size line conditions out) in
    if is_valid res c then selected else copy file_size (take line_size line) new_file

-- The last byte becomes a newline.
unfoldable pub end_line : List ℕ → Option (List ℕ)
end_line [] = none
end_line (b ∷ []) = some (newline ∷ [])
end_line (b ∷ c ∷ bs) = end_line (c ∷ bs) >>= λ (out : List ℕ). some (b ∷ out)

-- The outer loop, on fuel: `done` bytes of `file_size` are done, and `line_start` is left.
unfoldable pub crop_lines : List (ℕ × ℕ) → ℕ → ℕ → ℕ → ℕ → List ℕ → List ℕ → Option (List ℕ)
crop_lines conditions delimiter zero file_size done line_start new_file = none
crop_lines conditions delimiter (suc fuel) file_size done line_start new_file =
    let round : Option (List ℕ) = elim (strchr line_start newline) [
      | none ↦ some new_file
      | some n ↦ (do
        res ← columns delimiter (suc (length line_start)) (n + 1) 0 line_start
        copied ← copy_conditions file_size res (n + 1) line_start conditions new_file
        ended ← end_line copied
        crop_lines conditions delimiter fuel file_size (done + (n + 1)) (drop (n + 1) line_start)
            ended)
    ] in
    if ltb done file_size then round else some new_file

-- `ColTask::Run`
unfoldable pub run_col : List ℕ → ℕ → List ℕ → ℕ → Option (List ℕ)
run_col file_map file_size condition delimiter =
    crop_lines (col_conditions condition) delimiter (suc file_size) file_size 0 file_map []
