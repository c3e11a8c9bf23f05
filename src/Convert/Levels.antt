-- ===== src/Convert/Levels.antt =====
-- project_about/feedproxy/convertservice/convert_utils.h: the fields of a quote and the levels of its book,
-- written by two messages or by one with the newer values.
use demo_code.Prelude.{
  ℕ, zero, suc, ◌≡◌, refl, sym, ap, ◌∙◌, ◌||◌, if◌then◌else◌, List, [], ◌∷◌, length, Option, none,
  some, ◌>>=◌, >>=-eq-some, Option-cases, inl, inr,
}
use demo_code.Convert.Quote.{
  Key, PriceEntry, QuoteInfo, Conversions, pick, write_fields, is_member, write_levels, as_count,
}

-- The newer value, if there is one.
abbrev pub overlay {ℓ} : {J : Type ℓ} → Option J → Option J → Option J
overlay older none = older
overlay older (some v) = some v

-- Two messages in one.
abbrev pub with_newer {ℓ} : {J : Type ℓ} → (Key → Option J) → (Key → Option J) → Key → Option J
with_newer older newer k = overlay (older k) (newer k)

pub pick-overlay {ℓ} :
    {J : Type 0} {A : Type ℓ} (a b : Option J) (f : J → A) (old : A)
    → pick (overlay a b) f old ≡ pick b f (pick a f old)
pick-overlay a none f old = refl
pick-overlay a (some v) f old = refl

-- A level past the end of the book.
absent {ℓ κ} : {J : Type ℓ} {A : Type κ} → Option J → Option J → Option A → Option A
absent a b rest = if is_member a || is_member b then none else rest

absent-none {ℓ κ} : {J : Type ℓ} {A : Type κ} (a b : Option J) → absent {A = A} a b none ≡ none
unfolding absent
absent-none (some v) b = refl
absent-none none (some v) = refl
absent-none none none = refl

pub some_injective {ℓ} : {A : Type ℓ} {x y : A} → some x ≡ some y → y ≡ x
some_injective e = cc

absent-some {ℓ κ} :
    {J : Type ℓ} {A : Type κ} (a b : Option J) (rest : Option A) (x : A)
    → absent a b rest ≡ some x
    → rest ≡ some x
unfolding absent
absent-some (some v) b rest x h = cc
absent-some none (some v) rest x h = cc
absent-some none none rest x h = h

overlay-none {ℓ} : {J : Type ℓ} (a : Option J) → overlay none a ≡ a
overlay-none none = refl
overlay-none (some v) = refl

-- A chain whose first step can only find `x`.
bind_known {ℓ κ} :
    {A : Type ℓ} {B : Type κ} (m : Option A) (x : A) (g : A → Option B)
    → ((y : A) → m ≡ some y → y ≡ x)
    → (m >>= λ _. g x) ≡ (m >>= g)
bind_known none x g h = refl
bind_known (some y) x g h = ap g (sym (h y refl))

absent-overlay {ℓ κ} :
    {J : Type ℓ} {A : Type κ} (a b a' b' : Option J) (rest : Option A) (x : A) (f : A → Option A)
    → ((y : A) → rest ≡ some y → y ≡ x)
    → absent (overlay a a') (overlay b b') (rest >>= f)
      ≡ (absent a b rest >>= λ y. absent a' b' (f x))
unfolding absent
absent-overlay (some v) b none b' rest x f h = refl
absent-overlay (some v) b (some v') b' rest x f h = refl
absent-overlay none (some v) none none rest x f h = refl
absent-overlay none (some v) none (some w) rest x f h = refl
absent-overlay none (some v) (some v') b' rest x f h = refl
absent-overlay none none a' b' none x f h = absent-none (overlay none a') (overlay none b')
absent-overlay none none a' b' (some y) x f h = rw (h y refl, overlay-none a', overlay-none b') refl

module _ {J D : Type 0} (c : Conversions J D) where
  pub write_fields-merge :
      (a b : Key → Option J) (q : QuoteInfo D)
      → write_fields c (with_newer a b) q ≡ write_fields c b (write_fields c a q)
  unfolding write_fields
  write_fields-merge a b q = simp (pick-overlay) refl

  module _ (p v : ℕ → Option J) where
    levels_nil :
        (rounds i : ℕ)
        → write_levels c p v (suc rounds) i []
          ≡ absent (p i) (v i) (write_levels c p v rounds (suc i) [])
    unfolding write_levels absent
    levels_nil rounds i = refl

    levels_cons :
        (rounds i : ℕ) (e : PriceEntry D) (es : List (PriceEntry D))
        → write_levels c p v (suc rounds) i (e ∷ es) ≡ (
            write_levels c p v rounds (suc i) es >>= λ (rest : List (PriceEntry D)). some (
              record {
                price = pick (p i) c.as_double e.price;
                volume = pick (v i) (as_count c) e.volume;
              }
              ∷ rest))
    unfolding write_levels
    levels_cons rounds i e es = refl

    levels_nil_result :
        (rounds i : ℕ) (x : List (PriceEntry D)) → write_levels c p v rounds i [] ≡ some x → x ≡ []
    unfolding absent
    levels_nil_result zero i x h = unfold write_levels in some_injective h
    levels_nil_result (suc rounds) i x h =
        levels_nil_result rounds (suc i) x
          (absent-some (p i) (v i) _ x (sym (levels_nil rounds i) ∙ h))

  pub write_levels-merge :
      (p v p' v' : ℕ → Option J) (rounds i : ℕ) (es : List (PriceEntry D))
      → write_levels c (λ k. overlay (p k) (p' k)) (λ k. overlay (v k) (v' k)) rounds i es
        ≡ (write_levels c p v rounds i es >>= write_levels c p' v' rounds i)
  write_levels-merge p v p' v' zero i es = unfold write_levels in refl
  write_levels-merge p v p' v' (suc rounds) i [] =
      levels_nil (λ k. overlay (p k) (p' k)) (λ k. overlay (v k) (v' k)) rounds i
      ∙ ap (absent (overlay (p i) (p' i)) (overlay (v i) (v' i)))
          (write_levels-merge p v p' v' rounds (suc i) [])
      ∙ absent-overlay (p i) (v i) (p' i) (v' i) (write_levels c p v rounds (suc i) []) []
          (write_levels c p' v' rounds (suc i)) (levels_nil_result p v rounds (suc i))
      ∙ rw (sym (levels_nil p v rounds i), sym (levels_nil p' v' rounds i))
          (bind_known (write_levels c p v (suc rounds) i []) []
            (write_levels c p' v' (suc rounds) i) (levels_nil_result p v (suc rounds) i))
  write_levels-merge p v p' v' (suc rounds) i (e ∷ es) =
      rw
        (
          levels_cons (λ k. overlay (p k) (p' k)) (λ k. overlay (v k) (v' k)) rounds i e es,
          levels_cons p v rounds i e es,
          write_levels-merge p v p' v' rounds (suc i) es,
        )
        (elim (Option-cases (write_levels c p v rounds (suc i) es)) [
          | inl n ↦ rw (n) refl
          | inr (r, n) ↦ rw (n) (simp (pick-overlay, levels_cons p' v' rounds i) refl)
        ])

  pub length-write_levels :
      (p v : ℕ → Option J) (rounds i : ℕ) (es : List (PriceEntry D)) {x : List (PriceEntry D)}
      → write_levels c p v rounds i es ≡ some x
      → length x ≡ length es
  length-write_levels p v zero i es h = unfold write_levels in ap length (some_injective h)
  length-write_levels p v (suc rounds) i [] {x} h =
      ap length (levels_nil_result p v (suc rounds) i x h)
  length-write_levels p v (suc rounds) i (e ∷ es) h =
      let (r, f, g) =
        >>=-eq-some (write_levels c p v rounds (suc i) es) _
          (sym (levels_cons p v rounds i e es) ∙ h) in
      ap length (some_injective g) ∙ ap suc (length-write_levels p v rounds (suc i) es f)
