-- ===== src/FileCrop/Parts.antt =====
-- `SeparateFile` cuts a file behind lines, and the tasks on the parts do what one task would do.
use mathlib.Core.List.{append_assoc, append-nil}
use demo_code.Prelude.{
  ℕ, zero, suc, ◌+◌, ◌-◌, ◌/◌, ◌≤◌, ◌<◌, ltb, leb, if◌then◌else◌, true, false, List, [], ◌∷◌, ◌++◌,
  length, length-append, length-drop, drop, some, ◌>>=◌, ◌≡◌, ◌≢◌, refl, sym, ap, ◌∙◌, arith, inl,
  inr, Bool-cases, ltb→lt, leb→le, leb-false,
}
use demo_code.Prelude.Sorted.{All, All-append}
use demo_code.FileCrop.{strchr, newline, Part, separate_loop, separate_file, run_parts}
use demo_code.FileCrop.Fields.{IsLine, text, strchr-newline}
use demo_code.FileCrop.Filter.{lines_le}
use demo_code.FileCrop.Columns.{col_conditions, run_col}
use demo_code.FileCrop.Columns.Split.{split, row}
use demo_code.FileCrop.Columns.Selected.{cropped}
use demo_code.FileCrop.Columns.Cropping.{rows, run_col-rows}

text-append : (gs ls : List (List ℕ)) → text (gs ++ ls) ≡ text gs ++ text ls
unfolding text
text-append [] ls = refl
text-append (g ∷ gs) ls =
    ap (λ xs. g ++ newline ∷ xs) (text-append gs ls)
    ∙ sym (append_assoc g (newline ∷ text gs) (text ls))

rows-append :
    (d a b : ℕ) (gs ls : List (List ℕ)) → rows d a b (gs ++ ls) ≡ rows d a b gs ++ rows d a b ls
unfolding rows
rows-append d a b [] ls = refl
rows-append d a b (g ∷ gs) ls =
    let first = row d (cropped a b (split d g)) in
    ap (λ xs. first ++ xs) (rows-append d a b gs ls)
    ∙ sym (append_assoc first (rows d a b gs) (rows d a b ls))

-- The parts are groups of lines, one behind the other, and all the lines are in them.
abbrev pub Covers : List (List ℕ) → List Part → Type 0
Covers ls [] = ls ≡ []
Covers ls ((p, n) ∷ parts) =
    (g : List (List ℕ)) × (rest : List (List ℕ)) × (ls ≡ g ++ rest)
    × (p ≡ text ls)
    × (n ≡ length (text g))
    × Covers rest parts

drop_le : (l more : List ℕ) (n : ℕ) → n ≤ length l → drop n (l ++ more) ≡ drop n l ++ more
drop_le l more zero h = refl
drop_le [] more (suc n) h = absurd (omega arith)
drop_le (b ∷ l) more (suc n) h = drop_le l more n (omega arith)

drop_past :
    (l more : List ℕ) (n k : ℕ) → n ≡ length l + 1 + k → drop n (l ++ newline ∷ more) ≡ drop k more
drop_past l more zero k e = absurd (omega arith)
drop_past [] more (suc n) k e = ap (λ j. drop j more) (omega arith)
drop_past (b ∷ l) more (suc n) k e = drop_past l more n k (omega arith)

drop-IsLine : (l : List ℕ) (n : ℕ) → IsLine l → IsLine (drop n l)
drop-IsLine l zero h = h
drop-IsLine [] (suc n) h = h
drop-IsLine (b ∷ l) (suc n) h = drop-IsLine l n h.1

-- The next newline from the place `step` on ends a line.
record Cut (ls : List (List ℕ)) (step : ℕ) : Type 0 where
  far : ℕ
  found : strchr (drop step (text ls)) newline ≡ some far
  lines : List (List ℕ)
  rest : List (List ℕ)
  whole : ls ≡ lines ++ rest
  size : length (text lines) ≡ step + far + 1
  after : drop (step + far + 1) (text ls) ≡ text rest
  some_line : length rest < length ls
  rest_lines : All IsLine rest

cut : (ls : List (List ℕ)) (step : ℕ) → All IsLine ls → step < length (text ls) → Cut ls step
unfolding text
cut [] step h lt = absurd (omega arith)
cut (l ∷ ls) step h lt = elim (Bool-cases (leb step (length l))) [
  | inl here ↦
      let far : length (drop step l) ≡ length l - step = length-drop step l in
      let le : step ≤ length l = leb→le step (length l) here in
      record {
        far = length (drop step l);
        found =
            rw (drop_le l (newline ∷ text ls) step le)
              (strchr-newline (drop step l) (text ls) (drop-IsLine l step h.0));
        lines = l ∷ [];
        rest = ls;
        whole = refl;
        size = omega (arith, far, length-append l (newline ∷ []));
        after = drop_past l (text ls) (step + length (drop step l) + 1) 0 (omega (arith, far));
        some_line = omega arith;
        rest_lines = h.1;
      }
  | inr later ↦
      let lt' : length l < step = leb-false step (length l) later in
      let k = step - (length l + 1) in
      let c = cut ls k h.1 (omega (arith, length-append l (newline ∷ text ls))) in
      record {
        far = c.far;
        found = rw (drop_past l (text ls) step k (omega arith)) c.found;
        lines = l ∷ c.lines;
        rest = c.rest;
        whole = ap (λ xs. l ∷ xs) c.whole;
        size = omega (arith, c.size, length-append l (newline ∷ text c.lines));
        after = drop_past l (text ls) (step + c.far + 1) (k + c.far + 1) (omega arith) ∙ c.after;
        some_line = omega (arith, c.some_line);
        rest_lines = c.rest_lines;
      }
]

separate_loop_step :
    (fuel step file_size finished : ℕ) (p : List ℕ) (res : List Part) (n : ℕ)
    → ltb (finished + step) file_size ≡ true
    → strchr (drop step p) newline ≡ some n
    → separate_loop (suc fuel) step file_size finished p res
      ≡ separate_loop fuel step file_size
          (finished + (step + n + 1))
          (drop (step + n + 1) p)
          (res ++ (p, step + n + 1) ∷ [])
unfolding separate_loop
separate_loop_step fuel step file_size finished p res n more found =
    rw more (rw (found, separate_loop) refl)

separate_loop_end :
    (fuel step file_size finished : ℕ) (p : List ℕ) (res : List Part)
    → ltb (finished + step) file_size ≡ false
    → separate_loop (suc fuel) step file_size finished p res
      ≡ some (if ltb finished file_size then res ++ (p, file_size - finished) ∷ [] else res)
unfolding separate_loop
separate_loop_end fuel step file_size finished p res last = rw last refl

no_lines : (ls : List (List ℕ)) → length (text ls) ≡ 0 → ls ≡ []
no_lines [] e = refl
no_lines (l ∷ ls) e = absurd (omega (arith, e, lines_le (l ∷ ls)))

separate_loop-Covers :
    (fuel step file_size finished : ℕ) (ls : List (List ℕ)) (res : List Part)
    → All IsLine ls
    → file_size ≡ finished + length (text ls)
    → length ls < fuel
    → (parts : List Part) × (separate_loop fuel step file_size finished (text ls) res
        ≡ some (res ++ parts))
      × Covers ls parts
separate_loop-Covers zero step file_size finished ls res h e f = absurd (omega arith)
separate_loop-Covers (suc fuel) step file_size finished ls res h e f =
    elim (Bool-cases (ltb (finished + step) file_size)) [
      | inl more ↦
          let c = cut ls step h (omega (arith, ltb→lt (finished + step) file_size more)) in
          let n = step + c.far + 1 in
          let total : length (text ls) ≡ length (text c.lines) + length (text c.rest) =
            ap (λ xs. length (text xs)) c.whole
            ∙ ap (λ xs. length xs) (text-append c.lines c.rest)
            ∙ length-append (text c.lines) (text c.rest) in
          let (parts, r, covers) =
            separate_loop-Covers fuel step file_size (finished + n) c.rest
              (res ++ (text ls, n) ∷ []) c.rest_lines (omega (arith, total, c.size))
              (omega (arith, c.some_line)) in
          (
            (text ls, n) ∷ parts,
            separate_loop_step fuel step file_size finished (text ls) res c.far more c.found
                ∙ rw (c.after)
                    (r ∙ ap (λ xs. some xs) (append_assoc res ((text ls, n) ∷ []) parts)),
            (c.lines, c.rest, c.whole, refl, sym c.size, covers),
          )
      | inr last ↦ elim (Bool-cases (ltb finished file_size)) [
        | inl left ↦ (
          (text ls, file_size - finished) ∷ [],
          separate_loop_end fuel step file_size finished (text ls) res last ∙ rw left refl,
          (ls, [], sym (append-nil ls), refl, omega arith, refl),
        )
        | inr none_left ↦ (
          [],
          separate_loop_end fuel step file_size finished (text ls) res last
              ∙ rw (none_left, append-nil res) refl,
          no_lines ls (ground arith),
        )
      ]
    ]

no_rows : (d a b : ℕ) → some [] ≡ some (rows d a b [])
unfolding rows
no_rows d a b = refl

-- The results of the tasks on the parts, one behind the other.
run_parts-rows :
    (condition : List ℕ) (d a b : ℕ) (ls : List (List ℕ)) (parts : List Part)
    → d ≢ newline
    → All IsLine ls
    → col_conditions condition ≡ (a, b) ∷ []
    → Covers ls parts
    → run_parts (λ p n. run_col p n condition d) parts ≡ some (rows d a b ls)
unfolding run_parts
run_parts-rows condition d a b ls [] nd h one e = rw e (no_rows d a b)
run_parts-rows condition d a b ls ((p, n) ∷ parts) nd h one (g, rest, whole, at, size, more) =
    let both = (All-append IsLine g rest).0 (rw whole at h) in
    let pointer : p ≡ text g ++ text rest = at ∙ ap (λ xs. text xs) whole ∙ text-append g rest in
    let first = run_col-rows g (text rest) condition d a b nd both.0 one in
    let others = run_parts-rows condition d a b rest parts nd both.1 one more in
    rw (pointer, size)
      (rw (first, ◌>>=◌)
        (rw (others, ◌>>=◌)
          (ap (λ xs. some xs) (sym (ap (λ xs. rows d a b xs) whole ∙ rows-append d a b g rest)))))

-- A file of whole lines, and a condition that is one range of columns: `SeparateFile` ends and cuts the file in
-- parts so that the column tasks on the parts, ended in their order, write together what one column task on
-- the whole file writes, and none of them writes past the end of its buffer.
pub separate_file-run_col :
    (ls : List (List ℕ)) (condition : List ℕ) (d a b : ℕ)
    → d ≢ newline
    → All IsLine ls
    → col_conditions condition ≡ (a, b) ∷ []
    → (parts : List Part) × (out : List ℕ) × (separate_file (text ls) (length (text ls))
        ≡ some parts)
      × (run_parts (λ p n. run_col p n condition d) parts ≡ some out)
      × (run_col (text ls) (length (text ls)) condition d ≡ some out)
unfolding separate_file
separate_file-run_col ls condition d a b nd h one =
    let (parts, r, covers) =
      separate_loop-Covers (suc (length (text ls))) (length (text ls) / 4) (length (text ls)) 0 ls
        [] h (omega arith) (omega (arith, lines_le ls)) in
    let whole = rw (append-nil (text ls)) at (run_col-rows ls [] condition d a b nd h one) in
    (parts, rows d a b ls, r, run_parts-rows condition d a b ls parts nd h one covers, whole)
