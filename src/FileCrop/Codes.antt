-- ===== src/FileCrop/Codes.antt =====
-- `CodeTask::Run` for a list of codes.
use mathlib.Core.Path.{fun_ext}
use demo_code.Prelude.{
  ℕ, zero, suc, ◌+◌, ◌≤◌, ◌==◌, Bool, true, false, Bool-cases, List, [], ◌∷◌, ◌++◌, length,
  length-append, drop, take-append, none, some, ◌≡◌, ◌≢◌, refl, ap, sym, ◌∙◌, arith, ◌⊎◌, ◌↔◌, inl,
  inr,
}
use demo_code.Prelude.Sorted.{All}
use demo_code.FileCrop.{find, same_bytes, run_code, code_conditions, member, newline}
use demo_code.FileCrop.Fields.{IsLine, text}
use demo_code.FileCrop.Filter.{kept, run_code-kept}

-- A code is not empty and has no comma.
abbrev pub IsCode : List ℕ → Type 0
IsCode [] = ⊥
IsCode (b ∷ bs) = All (λ x. x ≢ b',') (b ∷ bs)

-- The codes with commas between them.
unfoldable pub joined : List ℕ → List (List ℕ) → List ℕ
joined code [] = code
joined code (next ∷ codes) = code ++ b',' ∷ joined next codes

abbrev pub IsOneOf : List ℕ → List (List ℕ) → Type 0
IsOneOf field [] = ⊥
IsOneOf field (code ∷ codes) = (field ≡ code) ⊎ IsOneOf field codes

find-none : (c : List ℕ) → All (λ x. x ≢ b',') c → find c b',' ≡ none
unfolding find
find-none [] h = refl
find-none (b ∷ bs) h = ground (arith, find-none bs h.1)

find_comma :
    (c rest : List ℕ) → All (λ x. x ≢ b',') c → find (c ++ b',' ∷ rest) b',' ≡ some (length c)
unfolding find
find_comma [] rest h = refl
find_comma (b ∷ bs) rest h = ground (arith, find_comma bs rest h.1)

drop_code : (c : List ℕ) (x : ℕ) (rest : List ℕ) → drop (length c + 1) (c ++ x ∷ rest) ≡ rest
drop_code [] x rest = refl
drop_code (b ∷ c) x rest =
    let e : suc (length c) + 1 ≡ suc (length c + 1) = omega arith in rw (e) (drop_code c x rest)

code_bytes : (c : List ℕ) → IsCode c → All (λ x. x ≢ b',') c
code_bytes [] h = absurd h
code_bytes (b ∷ bs) h = h

code_size : (c : List ℕ) → IsCode c → (length c == 0) ≡ false
code_size [] h = absurd h
code_size (b ∷ bs) h = ground arith

last_condition : (fuel : ℕ) (c : List ℕ) → IsCode c → code_conditions fuel c ≡ c ∷ []
unfolding code_conditions
last_condition zero c h = refl
last_condition (suc fuel) c h = rw (find-none c (code_bytes c h), code_conditions) refl

next_condition :
    (fuel : ℕ) (c rest : List ℕ)
    → IsCode c
    → code_conditions (suc fuel) (c ++ b',' ∷ rest) ≡ c ∷ code_conditions fuel rest
unfolding code_conditions
next_condition fuel c rest h =
    rw (find_comma c rest (code_bytes c h), code_conditions)
      (rw (code_size c h) (rw (drop_code c b',' rest, take-append c (b',' ∷ rest)) refl))

-- The conditions are the codes.
code_conditions-joined :
    (codes : List (List ℕ)) (fuel : ℕ) (code : List ℕ)
    → All IsCode (code ∷ codes)
    → length (joined code codes) ≤ fuel
    → code_conditions fuel (joined code codes) ≡ code ∷ codes
unfolding joined
code_conditions-joined [] fuel code h f = last_condition fuel code h.0
code_conditions-joined (next ∷ codes) zero code h f =
    absurd (omega (arith, length-append code (b',' ∷ joined next codes)))
code_conditions-joined (next ∷ codes) (suc fuel) code h f =
    next_condition fuel code (joined next codes) h.0
    ∙ ap (λ xs. code ∷ xs)
        (code_conditions-joined codes fuel next h.1
          (omega (arith, length-append code (b',' ∷ joined next codes))))

same_bytes-eq : (xs ys : List ℕ) → same_bytes xs ys ≡ true → xs ≡ ys
unfolding same_bytes
same_bytes-eq [] [] e = refl
same_bytes-eq [] (y ∷ ys) e = cc
same_bytes-eq (x ∷ xs) [] e = cc
same_bytes-eq (x ∷ xs) (y ∷ ys) e =
    let first : x ≡ y = ground (arith, e) in
    let rest : same_bytes xs ys ≡ true = ground (arith, e) in
    ap (λ z. z ∷ xs) first ∙ ap (λ zs. y ∷ zs) (same_bytes-eq xs ys rest)

same_bytes_self : (xs : List ℕ) → same_bytes xs xs ≡ true
unfolding same_bytes
same_bytes_self [] = refl
same_bytes_self (x ∷ xs) = ground (arith, same_bytes_self xs)

pub member-IsOneOf :
    (field : List ℕ) (codes : List (List ℕ)) → (member field codes ≡ true) ↔ IsOneOf field codes
unfolding member
member-IsOneOf field [] = ((λ e. cc), (λ h. absurd h))
member-IsOneOf field (code ∷ codes) = (
  λ e. elim (Bool-cases (same_bytes field code)) [
    | inl f ↦ inl (same_bytes-eq field code f)
    | inr f ↦ inr ((member-IsOneOf field codes).0 (ground (arith, e, f)))
  ],
  λ h. elim h [
    | inl e ↦ rw (e, same_bytes_self code) refl
    | inr k ↦ ground (arith, (member-IsOneOf field codes).1 k)
  ],
)

same_test : (a b : Bool) (P : Type 0) → ((a ≡ true) ↔ P) → ((b ≡ true) ↔ P) → a ≡ b
same_test true true P h k = refl
same_test true false P h k = sym (k.1 (h.0 refl))
same_test false true P h k = h.1 (k.0 refl)
same_test false false P h k = refl

kept-same :
    (test other : List ℕ → Bool) (d : ℕ) (ls : List (List ℕ))
    → ((field : List ℕ) → test field ≡ other field)
    → kept test d ls ≡ kept other d ls
kept-same test other d ls h = ap (λ t. kept t d ls) (fun_ext h)

-- `CodeTask::Run` for a condition that is one or more codes, not empty and with no comma in them, with commas
-- between them: on a part of a file that consists of whole lines it returns those of them with a field that
-- is one of the codes and that a delimiter ends, in their order, whatever follows the part.
pub run_code-joined :
    (ls : List (List ℕ)) (tail code : List ℕ) (codes : List (List ℕ)) (delimiter : ℕ)
    (is_code : List ℕ → Bool)
    → delimiter ≢ newline
    → All IsLine ls
    → All IsCode (code ∷ codes)
    → ((field : List ℕ) → (is_code field ≡ true) ↔ IsOneOf field (code ∷ codes))
    → run_code (text ls ++ tail) (length (text ls)) (joined code codes) delimiter
      ≡ some (text (kept is_code delimiter ls))
run_code-joined ls tail code codes d is_code nd lines h decides =
    let condition = joined code codes in
    run_code-kept ls tail condition d nd lines
    ∙ ap (λ cs. some (text (kept (λ field. member field cs) d ls)))
        (code_conditions-joined codes (length condition) code h (omega arith))
    ∙ ap (λ ks. some (text ks))
        (kept-same (λ field. member field (code ∷ codes)) is_code d ls
          (λ field.
            same_test (member field (code ∷ codes)) (is_code field) (IsOneOf field (code ∷ codes))
              (member-IsOneOf field (code ∷ codes)) (decides field)))
