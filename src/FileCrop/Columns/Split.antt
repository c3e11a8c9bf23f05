-- ===== src/FileCrop/Columns/Split.antt =====
-- project_about/fileCrop/col_task.cpp: the columns of a line.
use mathlib.Core.List.{append_assoc}
use demo_code.Prelude.{
  ℕ, zero, suc, ◌+◌, ◌<◌, ◌≤◌, le→leb, lt→leb, ◌==◌, ==_iff, if◌then◌else◌, false, List, [], ◌∷◌,
  ◌++◌, length, length-append, drop, Option, none, some, ◌>>=◌, ◌≡◌, ◌≢◌, refl, sym, ap, ◌∙◌,
  Option-cases, arith, inl, inr, Bool-cases,
}
use demo_code.FileCrop.{strchr, newline}
use demo_code.FileCrop.Fields.{IsLine}
use demo_code.FileCrop.Columns.{columns}

-- A byte joins the first field.
unfoldable pub join_first : ℕ → List (List ℕ) → List (List ℕ)
join_first b [] = (b ∷ []) ∷ []
join_first b (f ∷ fs) = (b ∷ f) ∷ fs

-- The fields of a line between the delimiters.
unfoldable pub split : ℕ → List ℕ → List (List ℕ)
unfolding join_first
split d [] = [] ∷ []
split d (b ∷ bs) = let fs = split d bs in if b == d then [] ∷ fs else join_first b fs

-- Fields as a line, with delimiters between them and a newline at the end.
unfoldable pub row : ℕ → List (List ℕ) → List ℕ
row d [] = []
row d (f ∷ []) = f ++ newline ∷ []
row d (f ∷ g ∷ fs) = f ++ d ∷ row d (g ∷ fs)

-- Where the fields start and end, from place `s` on.
unfoldable pub ranges : ℕ → List (List ℕ) → List (ℕ × ℕ)
ranges s [] = []
ranges s (f ∷ fs) = (s, s + length f + 1) ∷ ranges (s + length f + 1) fs

-- The first field of a line and the rest of it, as `strchr` finds them before the rest of the file.
data FirstField (d : ℕ) (l more : List ℕ) : Type 0 where
  inside :
      (k : ℕ) (f rest : List ℕ)
      → strchr (l ++ newline ∷ more) d ≡ some k
      → length f ≡ k
      → l ≡ f ++ d ∷ rest
      → IsLine rest
      → split d l ≡ f ∷ split d rest
      → FirstField d l more
  alone :
      ((k : ℕ) → strchr (l ++ newline ∷ more) d ≡ some k → length l < k)
      → split d l ≡ l ∷ []
      → FirstField d l more

far_suc :
    (o : Option ℕ) (n k : ℕ)
    → ((j : ℕ) → o ≡ some j → n < j)
    → (o >>= λ (j : ℕ). some (suc j)) ≡ some k
    → suc n < k
far_suc none n k f e = cc
far_suc (some j) n k f e = let g : suc j ≡ k = ground (arith, e) in omega (arith, f j refl)

far_0 : (o : Option ℕ) (k : ℕ) → (o >>= λ (j : ℕ). some (suc j)) ≡ some k → 0 < k
far_0 none k e = cc
far_0 (some j) k e = ground (arith, e)

head_step :
    (d b : ℕ) (bs more : List ℕ)
    → (b == d) ≡ false
    → b ≢ 0
    → FirstField d bs more
    → FirstField d (b ∷ bs) more
unfolding strchr split join_first
head_step d b bs more ne nz (inside k f rest e size whole line h) =
    inside (suc k) (b ∷ f) rest (ground arith) (ap suc size) (ap (λ xs. b ∷ xs) whole) line
      (rw (ne) (rw (h) refl))
head_step d b bs more ne nz (alone far h) =
    alone
      (λ k e.
        far_suc (strchr (bs ++ newline ∷ more) d) (length bs) k far (ground (arith, e, ne, nz)))
      (rw (ne) (rw (h) refl))

head : (d : ℕ) (l more : List ℕ) → d ≢ newline → IsLine l → FirstField d l more
unfolding strchr split join_first
head d [] more nd h = alone (λ k e. far_0 (strchr more d) k (ground (arith, e, nd))) refl
head d (b ∷ bs) more nd h = elim (Bool-cases (b == d)) [
  | inl e ↦ inside 0 [] bs (rw e refl) refl (ap (λ x. x ∷ bs) ((==_iff b d).0 e)) h.1 (rw e refl)
  | inr ne ↦ head_step d b bs more ne h.0.1 (head d bs more nd h.1)
]

drop_field : (f : List ℕ) (x : ℕ) (xs : List ℕ) → drop (length f + 1) (f ++ x ∷ xs) ≡ xs
drop_field [] x xs = refl
drop_field (b ∷ f) x xs =
    let e : suc (length f) + 1 ≡ suc (length f + 1) = omega arith in rw (e) (drop_field f x xs)

drop_head :
    (field rest l more : List ℕ) (k d : ℕ)
    → length field ≡ k
    → l ≡ field ++ d ∷ rest
    → drop (k + 1) (l ++ newline ∷ more) ≡ rest ++ newline ∷ more
drop_head field rest l more k d e w =
    rw (sym e, w, append_assoc field (d ∷ rest) (newline ∷ more))
      (drop_field field d (rest ++ newline ∷ more))

columns_more :
    (d fuel line_size s k : ℕ) (pre : List ℕ) (res : List (ℕ × ℕ))
    → strchr pre d ≡ some k
    → s + k + 1 < line_size
    → columns d fuel line_size (s + k + 1) (drop (k + 1) pre) ≡ some res
    → columns d (suc fuel) line_size s pre ≡ some ((s, s + k + 1) ∷ res)
unfolding columns
columns_more d fuel line_size s k pre res e lt h =
    rw (e, columns) (rw (lt→leb line_size (s + k + 1) lt) (rw (h) refl))

columns_last :
    (d fuel line_size s : ℕ) (pre : List ℕ)
    → ((k : ℕ) → strchr pre d ≡ some k → line_size ≤ s + k + 1)
    → columns d (suc fuel) line_size s pre ≡ some ((s, line_size) ∷ [])
unfolding columns
columns_last d fuel line_size s pre h = elim (Option-cases (strchr pre d)) [
  | inl e ↦ rw (e, columns) refl
  | inr (k, e) ↦ rw (e, columns) (rw (le→leb line_size (s + k + 1) (h k e)) refl)
]

-- The columns of a line are its fields.
pub columns-ranges :
    (d : ℕ)
    → d ≢ newline
    → (fuel line_size s : ℕ) (l more : List ℕ) → length l < fuel
    → line_size ≡ s + length l + 1
    → IsLine l
    → columns d fuel line_size s (l ++ newline ∷ more) ≡ some (ranges s (split d l))
unfolding ranges
columns-ranges d nd zero line_size s l more f e h = absurd (omega arith)
columns-ranges d nd (suc fuel) line_size s l more f e h = elim (head d l more nd h) [
  | alone far one ↦
      columns_last d fuel line_size s (l ++ newline ∷ more) (λ k g. omega (arith, far k g))
      ∙ rw (one, e) refl
  | inside k field rest g size whole line cut ↦
      let n : length l ≡ length field + suc (length rest) =
        ap length whole ∙ length-append field (d ∷ rest) in
      let next =
        columns-ranges d nd fuel line_size (s + k + 1) rest more (omega arith) (omega arith) line in
      let dropped = drop_head field rest l more k d size whole in
      columns_more d fuel line_size s k (l ++ newline ∷ more) (ranges (s + k + 1) (split d rest)) g
        (omega arith) (rw (dropped) next)
      ∙ rw (cut, sym size) refl
]
