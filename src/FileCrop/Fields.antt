-- ===== src/FileCrop/Fields.antt =====
-- The lines of a file and the fields of a line, and what `strchr` finds in them.
use mathlib.Core.List.{append_assoc, append-nil}
use demo_code.Prelude.{
  ℕ, zero, suc, ◌+◌, ◌<◌, leb, lt→leb, ◌==◌, if◌then◌else◌, Bool, true, false, ◌||◌, List, [], ◌∷◌,
  ◌++◌, length, take, drop, none, some, ◌≡◌, ◌≢◌, refl, ap, ◌∙◌, Option-cases, arith, inl, inr,
  Bool-cases,
}
use demo_code.Prelude.Sorted.{All}
use demo_code.FileCrop.{strchr, search, newline}

-- A line, its newline aside: no byte of it is a newline or zero.
abbrev pub IsLine : List ℕ → Type 0
IsLine l = All (λ b. (b ≢ newline) × (b ≢ 0)) l

-- The file that has these lines.
unfoldable pub text : List (List ℕ) → List ℕ
text [] = []
text (l ∷ ls) = l ++ newline ∷ text ls

-- The fields of a line.
unfoldable pub first_field : ℕ → List ℕ → List ℕ
first_field d [] = []
first_field d (b ∷ bs) = if b == d then [] else b ∷ first_field d bs

-- Some field that a delimiter ends passes the test: the last field of a line is not tested.
unfoldable pub hits : (List ℕ → Bool) → ℕ → List ℕ → List ℕ → Bool
hits test d field [] = false
hits test d field (b ∷ bs) =
    if b == d then test field || hits test d [] bs else hits test d (field ++ b ∷ []) bs

pub strchr-newline :
    (l more : List ℕ) → IsLine l → strchr (l ++ newline ∷ more) newline ≡ some (length l)
unfolding strchr
strchr-newline [] more h = refl
strchr-newline (b ∷ bs) more h = ground (arith, strchr-newline bs more h.1)

-- The first delimiter in the line `l`, before the rest `more` of the file, or none.
data First (d : ℕ) (test : List ℕ → Bool) (l more : List ℕ) : Type 0 where
  there :
      (k : ℕ) (rest : List ℕ)
      → strchr (l ++ newline ∷ more) d ≡ some k
      → length l ≡ k + 1 + length rest
      → drop (suc k) (l ++ newline ∷ more) ≡ rest ++ newline ∷ more
      → IsLine rest
      → ((field : List ℕ)
          → hits test d field l
            ≡ (test (field ++ take k (l ++ newline ∷ more)) || hits test d [] rest))
      → First d test l more
  beyond :
      (k : ℕ)
      → strchr (l ++ newline ∷ more) d ≡ some k
      → length l < k
      → ((field : List ℕ) → hits test d field l ≡ false)
      → First d test l more
  nowhere :
      strchr (l ++ newline ∷ more) d ≡ none
      → ((field : List ℕ) → hits test d field l ≡ false)
      → First d test l more

first_step :
    (d : ℕ) (test : List ℕ → Bool) (b : ℕ) (bs more : List ℕ)
    → (b == d) ≡ false
    → b ≢ 0
    → First d test bs more
    → First d test (b ∷ bs) more
unfolding strchr hits
first_step d test b bs more ne nz (there k rest e size rests line h) =
    there (suc k) rest (ground arith) (omega arith) rests line (λ field. rw ne (
      h (field ++ b ∷ [])
      ∙ ap (λ xs. test xs || hits test d [] rest)
          (append_assoc field (b ∷ []) (take k (bs ++ newline ∷ more)))))
first_step d test b bs more ne nz (beyond k e far h) =
    beyond (suc k) (ground arith) (omega arith) (λ field. rw ne (h (field ++ b ∷ [])))
first_step d test b bs more ne nz (nowhere e h) =
    nowhere (ground arith) (λ field. rw ne (h (field ++ b ∷ [])))

first :
    (d : ℕ) (test : List ℕ → Bool) (l more : List ℕ) → d ≢ newline → IsLine l → First d test l more
unfolding strchr hits
first d test [] more nd h = elim (Option-cases (strchr more d)) [
  | inl e ↦ nowhere (ground (arith, nd)) (λ field. refl)
  | inr (k, e) ↦ beyond (suc k) (ground (arith, nd)) (omega arith) (λ field. refl)
]
first d test (b ∷ bs) more nd h = elim (Bool-cases (b == d)) [
  | inl e ↦
      there 0 bs (rw e refl) (omega arith) refl h.1 (λ field. rw e (rw (append-nil field) refl))
  | inr ne ↦ first_step d test b bs more ne h.0.1 (first d test bs more nd h.1)
]

search_step :
    (both : List ℕ → List ℕ → Bool) (d fuel line_size searched k : ℕ) (pre : List ℕ)
    → strchr pre d ≡ some k
    → leb line_size (searched + k + 1) ≡ false
    → search both d (suc fuel) line_size searched pre ≡ (
        if both (take k pre) pre
        then some true
        else search both d fuel line_size (searched + k + 1) (drop (k + 1) pre))
unfolding search
search_step both d fuel line_size searched k pre found inner = rw (found, search) (rw inner refl)

or_lem : (a b : Bool) → (if a then some true else some b) ≡ some (a || b)
or_lem true b = refl
or_lem false b = refl

-- The search of a line finds a field that the test on fields takes.
pub search-hits :
    (test : List ℕ → Bool) (both : List ℕ → List ℕ → Bool) (d : ℕ)
    → ((field pre : List ℕ) → both field pre ≡ test field)
    → d ≢ newline
    → (fuel line_size searched : ℕ) (l more : List ℕ) → length l < fuel
    → line_size ≡ searched + length l + 1
    → IsLine l
    → search both d fuel line_size searched (l ++ newline ∷ more) ≡ some (hits test d [] l)
unfolding search
search-hits test both d same nd zero line_size searched l more f e h = absurd (omega arith)
search-hits test both d same nd (suc fuel) line_size searched l more f e h =
    elim (first d test l more nd h) [
      | nowhere none_found miss ↦ rw (none_found, search) (rw (miss []) refl)
      | beyond k found far miss ↦ rw (found, search) (rw (miss []) (ground arith))
      | there k rest found size rests line hit ↦
          let pre : List ℕ = l ++ newline ∷ more in
          let one : k + 1 ≡ suc k = omega arith in
          let next =
            search-hits test both d same nd fuel line_size (searched + k + 1) rest more
              (omega arith) (omega arith) line in
          search_step both d fuel line_size searched k pre found
            (lt→leb line_size (searched + k + 1) (omega arith))
          ∙ rw (same (take k pre) pre, one, rests, next, hit [])
              (or_lem (test (take k pre)) (hits test d [] rest))
    ]
