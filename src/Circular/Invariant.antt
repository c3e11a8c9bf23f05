-- ===== src/Circular/Invariant.antt =====
-- project_about/feedproxy/public/eddid_cricular_buffer.h: the counts agree with the lists, and the
-- buffer has one node more than it may hold.
use demo_code.Prelude.{
  ℕ, suc, ◌+◌, ◌≤◌, ◌<◌, ◌^◌, ◌≡◌, refl, arith, List, [], ◌∷◌, ◌++◌, length, length-append,
  length-replicate, ltb, leb, if◌then◌else◌, ap, lt→ltb, leb→le, ltb-false, leb-false, Bool-cases,
  inl, inr, true, false,
}
use demo_code.Circular.{CircularBuffer, new, insert_node, push_back}

module _ {ℓ} {A : Type ℓ} where
  pub record IsValid (b : CircularBuffer A) : Type 0 where
    pub room : 0 < b.buffer_size
    pub small : b.buffer_size + 1 < 2 ^ 32
    pub counted : b.data_size ≡ length b.data_lst
    pub free_counted : b.free_node_num ≡ length b.free_lst
    pub nodes : length b.data_lst + length b.free_lst ≡ b.buffer_size + 1
    pub fits : length b.data_lst ≤ b.buffer_size

  -- A bounded queue: an item joins at the end, and the oldest leaves if there are too many.
  abbrev pub tail : List A → List A
  tail [] = []
  tail (x ∷ xs) = xs

  abbrev pub enqueue : ℕ → A → List A → List A
  enqueue cap t xs = if ltb (length xs) cap then xs ++ t ∷ [] else tail (xs ++ t ∷ [])

module _ {ℓ} {A : Type ℓ} (blank : A) where
  pub new-IsValid : (size : ℕ) → 0 < size → size + 1 < 2 ^ 32 → IsValid (new blank size)
  unfolding new
  new-IsValid size p q = omega (arith, length-replicate size blank)

  -- What `push` makes of a valid buffer, and `t` joins at the end.
  abbrev pub Pushed : A → CircularBuffer A → CircularBuffer A → Type ℓ
  Pushed t b c =
      IsValid c
      × (c.data_lst ≡ enqueue b.buffer_size t b.data_lst)
      × (c.buffer_size ≡ b.buffer_size)

  pub insert_node-Pushed :
      (t x : A) (b : CircularBuffer A) (free xs : List A)
      → b.data_lst ≡ xs
      → b.free_lst ≡ x ∷ free
      → IsValid b
      → Pushed t b (insert_node blank t free xs b)
  unfolding insert_node push_back
  insert_node-Pushed t x b free [] e f v =
      let n = ap length e in let k = ap length f in (omega arith, rw (e, lt→ltb _ _ v.room), refl)
  insert_node-Pushed t x b free (y ∷ ys) e f v =
      let n = ap length e in
      let k = ap length f in
      let added = length-append ys (t ∷ []) in
      elim (Bool-cases (leb b.buffer_size b.data_size)) [
        | inl full ↦
            let more = leb→le b.buffer_size b.data_size full in
            let shut : ltb (suc (length ys)) b.buffer_size ≡ false = ltb-false _ _ (omega arith) in
            rw full (omega (arith), rw (e, shut), refl)
        | inr space ↦
            let less = leb-false b.buffer_size b.data_size space in
            let room : ltb (suc (length ys)) b.buffer_size ≡ true = lt→ltb _ _ (omega arith) in
            rw space (omega (arith), rw (e, room), refl)
      ]
