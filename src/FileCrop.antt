-- ===== src/FileCrop.antt =====
-- project_about/fileCrop: what the tasks keep of a file. The file is the list of its bytes; a pointer
-- into the mapping is the list from there on, which ends where the mapping does. `none` is that the
-- fuel ran out.
pub mod Fields
pub mod Filter
pub mod Codes
pub mod Parts
pub mod Columns
mod Tests
use demo_code.Prelude.{
  ℕ, zero, suc, ◌+◌, ◌*◌, ◌-◌, ◌/◌, ltb, leb, ◌==◌, if◌then◌else◌, Bool, true, false, ◌&&◌, ◌||◌, ℤ,
  pos, ◌-ℤ◌, leb_ℤ, List, [], ◌∷◌, ◌++◌, length, take, drop, Option, none, some, ◌>>=◌,
}

abbrev pub newline : ℕ
newline = 10

-- `strchr`, from the place on: how far the character is, if it comes before a zero byte.
unfoldable pub strchr : List ℕ → ℕ → Option ℕ
strchr [] c = none
strchr (b ∷ bs) c =
    let later = (do k ← strchr bs c; some (suc k)) in
    if b == c then some 0 else if b == 0 then none else later

-- `std::string::find` of a character
unfoldable pub find : List ℕ → ℕ → Option ℕ
find [] c = none
find (b ∷ bs) c = let later = (do k ← find bs c; some (suc k)) in if b == c then some 0 else later

unfoldable pub same_bytes : List ℕ → List ℕ → Bool
same_bytes [] [] = true
same_bytes [] (y ∷ ys) = false
same_bytes (x ∷ xs) [] = false
same_bytes (x ∷ xs) (y ∷ ys) = x == y && same_bytes xs ys

-- `conditionMap.find(…) != conditionMap.end()`
unfoldable pub member : List ℕ → List (List ℕ) → Bool
unfolding same_bytes
member x [] = false
member x (y ∷ ys) = same_bytes x y || member x ys

-- The conditions of `CodeTask::Run`: the parts between the commas that are not empty, and the last.
unfoldable pub code_conditions : ℕ → List ℕ → List (List ℕ)
unfolding find
code_conditions zero condition = condition ∷ []
code_conditions (suc fuel) condition = elim (find condition b',') [
  | none ↦ condition ∷ []
  | some k ↦
      let rest = code_conditions fuel (drop (k + 1) condition) in
      if k == 0 then rest else take k condition ∷ rest
]

-- The inner loop of `CodeTask::Run` and of `DateTask::Run`, on fuel: `searched` is how far `pre` is
-- from the start of the line. The test is on the field and on what `preSearchPos` points to.
unfoldable pub search : (List ℕ → List ℕ → Bool) → ℕ → ℕ → ℕ → ℕ → List ℕ → Option Bool
search test delimiter zero line_size searched pre = none
search test delimiter (suc fuel) line_size searched pre = elim (strchr pre delimiter) [
  | none ↦ some false
  | some k ↦
      let further = search test delimiter fuel line_size (searched + k + 1) (drop (k + 1) pre) in
      if leb line_size (searched + k + 1)
      then some false
      else if test (take k pre) pre
      then some true
      else further
]

-- The outer loop, on fuel: `done` bytes of `file_size` are done, and `line_start` is left.
unfoldable pub keep_lines :
    (List ℕ → List ℕ → Bool) → ℕ → ℕ → ℕ → ℕ → List ℕ → List ℕ → Option (List ℕ)
keep_lines test delimiter zero file_size done line_start new_file = none
keep_lines test delimiter (suc fuel) file_size done line_start new_file =
    let round : Option (List ℕ) = elim (strchr line_start newline) [
      | none ↦ some new_file
      | some n ↦ (do
        is_find ← search test delimiter (suc (length line_start)) (n + 1) 0 line_start
        keep_lines test delimiter fuel file_size (done + (n + 1)) (drop (n + 1) line_start)
            (if is_find then new_file ++ take (n + 1) line_start else new_file))
    ] in
    if ltb done file_size then round else some new_file

-- `CodeTask::Run`
unfoldable pub run_code : List ℕ → ℕ → List ℕ → ℕ → Option (List ℕ)
run_code file_map file_size condition delimiter =
    let conditions = code_conditions (length condition) condition in
    keep_lines (λ field pre. member field conditions) delimiter (suc file_size) file_size 0 file_map
      []

is_digit : ℕ → Bool
is_digit b = leb b'0' b && leb b b'9'

unfoldable pub digits : ℕ → List ℕ → ℕ
unfolding is_digit
digits acc [] = acc
digits acc (b ∷ bs) =
    let more = digits (acc * 10 + (b - b'0')) bs in if is_digit b then more else acc

-- `std::atoi`: blanks, a sign, digits. A value that does not fit in an `int` is undefined in C++.
unfoldable pub atoi : List ℕ → ℤ
unfolding digits
atoi [] = pos 0
atoi (b ∷ bs) =
    let blank = b == 32 || leb 9 b && leb b 13 in
    let rest = atoi bs in
    let negative = pos 0 -ℤ pos (digits 0 bs) in
    if blank
    then rest
    else if b == b'-'
    then negative
    else if b == b'+'
    then pos (digits 0 bs)
    else pos (digits 0 (b ∷ bs))

-- The dates of `DateTask::Run`. Where there is no `-`, `pos` is -1, and both are the whole condition.
unfoldable pub date_range : List ℕ → ℤ × ℤ
unfolding find atoi
date_range condition = elim (find condition b'-') [
  | none ↦ (atoi condition, atoi condition)
  | some k ↦ (atoi (take k condition), atoi (drop (k + 1) condition))
]

-- The test of a field in `DateTask::Run`.
unfoldable pub in_range : ℤ × ℤ → List ℕ → List ℕ → Bool
unfolding atoi
in_range range field pre =
    length field == 8 && (leb_ℤ range.0 (atoi pre) && leb_ℤ (atoi pre) range.1)

-- `DateTask::Run`
unfoldable pub run_date : List ℕ → ℕ → List ℕ → ℕ → Option (List ℕ)
run_date file_map file_size condition delimiter =
    keep_lines (in_range (date_range condition)) delimiter (suc file_size) file_size 0 file_map []

-- A part of the file: what its pointer points to, and its size.
abbrev pub Part : Type 0
Part = List ℕ × ℕ

-- The loop of `SeparateFile`, on fuel, with what follows it. Without a newline the loop prints and
-- does not end.
unfoldable pub separate_loop : ℕ → ℕ → ℕ → ℕ → List ℕ → List Part → Option (List Part)
separate_loop zero step_size file_size finished p_start res = none
separate_loop (suc fuel) step_size file_size finished p_start res =
    let round : Option (List Part) = elim (strchr (drop step_size p_start) newline) [
      | none ↦ separate_loop fuel step_size file_size finished p_start res
      | some n ↦
          separate_loop fuel step_size file_size (finished + (step_size + n + 1))
            (drop (step_size + n + 1) p_start) (res ++ (p_start, step_size + n + 1) ∷ [])
    ] in
    let rest = res ++ (p_start, file_size - finished) ∷ [] in
    if ltb (finished + step_size) file_size
    then round
    else some (if ltb finished file_size then rest else res)

-- `SeparateFile`, for the tasks of `TASKCOUNTS` threads
unfoldable pub separate_file : List ℕ → ℕ → Option (List Part)
separate_file file_map file_size =
    separate_loop (suc file_size) (file_size / 4) file_size 0 file_map []

-- `main`: a task on each part, with the results written one behind the other, for the case that the
-- tasks end in the order of the parts.
unfoldable pub run_parts : (List ℕ → ℕ → Option (List ℕ)) → List Part → Option (List ℕ)
run_parts run [] = some []
run_parts run ((p, n) ∷ parts) = do
  first ← run p n
  rest ← run_parts run parts
  some (first ++ rest)
