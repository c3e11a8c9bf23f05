-- ===== src/FileCrop/Tests.antt =====
-- A small file of trades.
use demo_code.Prelude.{ℕ, ◌-ℤ◌, List, [], ◌∷◌, ◌++◌, length, drop, none, some, ◌≡◌, refl, arith}
use demo_code.FileCrop.{
  Part, run_code, run_date, run_parts, separate_file, keep_lines, search, strchr, member,
  code_conditions, date_range, in_range,
}
use demo_code.FileCrop.Columns.{
  run_col, columns, copy_conditions, copy, selection, is_valid, end_line, crop_lines,
  col_conditions,
}
use demo_code.FileCrop.Columns.Cropping.{rows, run_col-rows}
use demo_code.FileCrop.Fields.{text, hits}
use demo_code.FileCrop.Filter.{kept}
use demo_code.FileCrop.Codes.{joined, member-IsOneOf, run_code-joined}
use demo_code.FileCrop.Parts.{separate_file-run_col}

abbrev comma : ℕ
comma = b','

-- 17,20180702,5 and 29,20180911,6 and 17,20181101,7
abbrev lines : List (List ℕ)
lines =
    (b'1' ∷ b'7' ∷ comma ∷ b'2' ∷ b'0' ∷ b'1' ∷ b'8' ∷ b'0' ∷ b'7' ∷ b'0' ∷ b'2' ∷ comma ∷ b'5'
      ∷ [])
    ∷ (b'2' ∷ b'9' ∷ comma ∷ b'2' ∷ b'0' ∷ b'1' ∷ b'8' ∷ b'0' ∷ b'9' ∷ b'1' ∷ b'1' ∷ comma ∷ b'6'
        ∷ [])
    ∷ (b'1' ∷ b'7' ∷ comma ∷ b'2' ∷ b'0' ∷ b'1' ∷ b'8' ∷ b'1' ∷ b'1' ∷ b'0' ∷ b'1' ∷ comma ∷ b'7'
        ∷ [])
    ∷ []

-- 20180801-20181231
abbrev dates : List ℕ
dates =
    b'2' ∷ b'0' ∷ b'1' ∷ b'8' ∷ b'0' ∷ b'8' ∷ b'0' ∷ b'1' ∷ b'-' ∷ b'2' ∷ b'0' ∷ b'1' ∷ b'8' ∷ b'1'
    ∷ b'2' ∷ b'3' ∷ b'1' ∷ []

abbrev code : List ℕ
code = b'1' ∷ b'7' ∷ []

code_17 :
    run_code (text lines) (length (text lines)) code comma
    ≡ some (text (kept (λ field. member field (code ∷ [])) comma lines))
unfolding run_code keep_lines search strchr member code_conditions text kept hits
code_17 = refl

august_on : run_date (text lines) (length (text lines)) dates comma ≡ some (drop 14 (text lines))
unfolding run_date keep_lines search strchr in_range date_range text ◌-ℤ◌
august_on = refl

-- 17 and 29, and a test of a field for these codes.
abbrev other_code : List ℕ
other_code = b'2' ∷ b'9' ∷ []

run_code-joined_example :
    run_code
      (text lines ++ code)
      (length (text lines))
      (b'1' ∷ b'7' ∷ comma ∷ b'2' ∷ b'9' ∷ [])
      comma
    ≡ some (text (kept (λ field. member field (code ∷ other_code ∷ [])) comma lines))
unfolding joined
run_code-joined_example =
    run_code-joined lines code code (other_code ∷ []) comma
      (λ field. member field (code ∷ other_code ∷ [])) (λ e. absurd (omega arith)) (omega arith)
      (omega arith) (λ field. member-IsOneOf field (code ∷ other_code ∷ []))

abbrev first_two : List ℕ
first_two = b'1' ∷ b'-' ∷ b'2' ∷ []

abbrev to_last : List ℕ
to_last = b'2' ∷ b'-' ∷ b'3' ∷ []

abbrev cut_lines : List (List ℕ)
cut_lines =
    (b'1' ∷ b'7' ∷ comma ∷ b'2' ∷ b'0' ∷ b'1' ∷ b'8' ∷ b'0' ∷ b'7' ∷ b'0' ∷ b'2' ∷ [])
    ∷ (b'2' ∷ b'9' ∷ comma ∷ b'2' ∷ b'0' ∷ b'1' ∷ b'8' ∷ b'0' ∷ b'9' ∷ b'1' ∷ b'1' ∷ [])
    ∷ (b'1' ∷ b'7' ∷ comma ∷ b'2' ∷ b'0' ∷ b'1' ∷ b'8' ∷ b'1' ∷ b'1' ∷ b'0' ∷ b'1' ∷ [])
    ∷ []

range_1_2 : col_conditions first_two ≡ (1, 2) ∷ []
unfolding col_conditions
range_1_2 = refl

columns_1_2 : run_col (text lines) (length (text lines)) first_two comma ≡ some (text cut_lines)
unfolding run_col col_conditions crop_lines columns strchr copy_conditions copy selection is_valid
    end_line text
columns_1_2 = refl

-- The last column of a line cannot be asked for: the lines stay as they are.
columns_2_3 : run_col (text lines) (length (text lines)) to_last comma ≡ some (text lines)
unfolding run_col col_conditions crop_lines columns strchr copy_conditions copy selection is_valid
    end_line text
columns_2_3 = refl

-- Two conditions that overlap need more place than the file has.
columns_twice :
    run_col (text lines) (length (text lines)) (first_two ++ comma ∷ first_two) comma ≡ none
unfolding run_col col_conditions crop_lines columns strchr copy_conditions copy selection is_valid
    end_line text
columns_twice = refl

run_col-rows_example :
    run_col (text lines ++ code) (length (text lines)) first_two comma ≡ some (rows comma 1 2 lines)
run_col-rows_example =
    run_col-rows lines code first_two comma 1 2 (λ e. absurd (omega arith)) (omega arith) range_1_2

separate_file-run_col_example :
    (parts : List Part) × (out : List ℕ) × (separate_file (text lines) (length (text lines))
      ≡ some parts)
    × (run_parts (λ p n. run_col p n first_two comma) parts ≡ some out)
    × (run_col (text lines) (length (text lines)) first_two comma ≡ some out)
separate_file-run_col_example =
    separate_file-run_col lines first_two comma 1 2 (λ e. absurd (omega arith)) (omega arith)
      range_1_2
