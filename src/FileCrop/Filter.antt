-- ===== src/FileCrop/Filter.antt =====
-- `CodeTask::Run` keeps the lines that have one of the codes.
use mathlib.Core.List.{append_assoc, append-nil}
use demo_code.Prelude.{
  ℕ, zero, suc, ◌+◌, ◌≤◌, ◌<◌, if◌then◌else◌, Bool, true, false, List, [], ◌∷◌, ◌++◌, length,
  length-append, take, drop, some, ◌>>=◌, ◌≡◌, ◌≢◌, refl, ap, sym, ◌∙◌, arith, lt→ltb, ltb-false,
}
use demo_code.Prelude.Sorted.{All}
use demo_code.FileCrop.{search, keep_lines, run_code, code_conditions, member, newline}
use demo_code.FileCrop.Fields.{IsLine, text, hits, strchr-newline, search-hits}

-- The lines with a field that passes the test.
unfoldable pub kept : (List ℕ → Bool) → ℕ → List (List ℕ) → List (List ℕ)
kept test d [] = []
kept test d (l ∷ ls) = if hits test d [] l then l ∷ kept test d ls else kept test d ls

pub take_line : (l more : List ℕ) → take (suc (length l)) (l ++ newline ∷ more) ≡ l ++ newline ∷ []
take_line [] more = refl
take_line (b ∷ l) more = ap (λ xs. b ∷ xs) (take_line l more)

pub drop_line : (l more : List ℕ) → drop (suc (length l)) (l ++ newline ∷ more) ≡ more
drop_line [] more = refl
drop_line (b ∷ l) more = drop_line l more

keep_lines_step :
    (both : List ℕ → List ℕ → Bool) (d fuel file_size done : ℕ) (l more out : List ℕ) (found : Bool)
    → done < file_size
    → IsLine l
    → search both d (suc (length (l ++ newline ∷ more))) (length l + 1) 0 (l ++ newline ∷ more)
      ≡ some found
    → keep_lines both d (suc fuel) file_size done (l ++ newline ∷ more) out
      ≡ keep_lines both d fuel file_size
          (done + (length l + 1))
          more
          (if found then out ++ (l ++ newline ∷ []) else out)
unfolding keep_lines
keep_lines_step both d fuel file_size done l more out found lt line e =
    let one : length l + 1 ≡ suc (length l) = omega arith in
    rw (lt→ltb done file_size lt) (
      rw (strchr-newline l more line, keep_lines)
        (rw (e, ◌>>=◌) (rw (one, take_line l more, drop_line l more) refl)))

pub lines_le : (ls : List (List ℕ)) → length ls ≤ length (text ls)
unfolding text
lines_le [] = omega arith
lines_le (l ∷ ls) = omega (arith, lines_le ls, length-append l (newline ∷ text ls))

keep_lines_done :
    (both : List ℕ → List ℕ → Bool) (d fuel file_size done : ℕ) (start out : List ℕ)
    → file_size ≤ done
    → keep_lines both d (suc fuel) file_size done start out ≡ some out
unfolding keep_lines
keep_lines_done both d fuel file_size done start out h = rw (ltb-false done file_size h) refl

joined :
    (out l rest : List ℕ) (ls : List (List ℕ)) (found : Bool)
    → text ls ≡ rest
    → (if found then out ++ (l ++ newline ∷ []) else out) ++ rest
      ≡ out ++ text (if found then l ∷ ls else ls)
unfolding text
joined out l rest ls true e =
    append_assoc out (l ++ newline ∷ []) rest
    ∙ ap (λ xs. out ++ xs) (append_assoc l (newline ∷ []) rest)
    ∙ ap (λ xs. out ++ (l ++ newline ∷ xs)) (sym e)
joined out l rest ls false e = ap (λ xs. out ++ xs) (sym e)

keep_lines-kept :
    (test : List ℕ → Bool) (both : List ℕ → List ℕ → Bool) (d : ℕ)
    → ((field pre : List ℕ) → both field pre ≡ test field)
    → d ≢ newline
    → (ls : List (List ℕ)) (fuel file_size done : ℕ) (tail out : List ℕ) → length ls < fuel
    → file_size ≡ done + length (text ls)
    → All IsLine ls
    → keep_lines both d fuel file_size done (text ls ++ tail) out
      ≡ some (out ++ text (kept test d ls))
unfolding text kept
keep_lines-kept test both d same nd ls zero file_size done tail out f e h = absurd (omega arith)
keep_lines-kept test both d same nd [] (suc fuel) file_size done tail out f e h =
    keep_lines_done both d fuel file_size done tail out (omega arith) ∙ rw (append-nil out) refl
keep_lines-kept test both d same nd (l ∷ ls) (suc fuel) file_size done tail out f e h =
    let more : List ℕ = text ls ++ tail in
    let start = append_assoc l (newline ∷ text ls) tail in
    let found = hits test d [] l in
    let looked =
      search-hits test both d same nd (suc (length (l ++ newline ∷ more))) (length l + 1) 0 l more
        (omega (arith, length-append l (newline ∷ more))) (omega arith) h.0 in
    let size : file_size ≡ done + (length l + 1) + length (text ls) =
      omega (arith, e, length-append l (newline ∷ text ls)) in
    ap (λ xs. keep_lines both d (suc fuel) file_size done xs out) start
    ∙ (keep_lines_step both d fuel file_size done l more out found (omega arith) h.0 looked)
    ∙ keep_lines-kept test both d same nd ls fuel file_size (done + (length l + 1)) tail
        (if found then out ++ (l ++ newline ∷ []) else out) (omega arith) size h.1
    ∙ ap (λ xs. some xs) (joined out l (text (kept test d ls)) (kept test d ls) found refl)

-- `CodeTask::Run` on a part of a file that consists of whole lines returns those of them with a field
-- that is one of the codes and that a delimiter ends, in their order, whatever follows the part.
pub run_code-kept :
    (ls : List (List ℕ)) (tail condition : List ℕ) (delimiter : ℕ)
    → delimiter ≢ newline
    → All IsLine ls
    → run_code (text ls ++ tail) (length (text ls)) condition delimiter
      ≡ some (
          text (
            kept
              (λ field. member field (code_conditions (length condition) condition))
              delimiter
              ls))
unfolding run_code
run_code-kept ls tail condition d nd h =
    let test = λ (field : List ℕ). member field (code_conditions (length condition) condition) in
    keep_lines-kept test (λ field pre. test field) d (λ field pre. refl) nd ls
      (suc (length (text ls))) (length (text ls)) 0 tail [] (omega (arith, lines_le ls))
      (omega arith) h
