-- ===== src/Circular/Queue.antt =====
-- project_about/feedproxy/public/eddid_cricular_buffer.h: `push` and `pop` as a bounded queue.
use demo_code.Prelude.{
  ℕ, ◌≡◌, refl, ap, ◌∙◌, arith, Option, none, some, ◌>>=◌, ◌<◌, Bool-cases, inl, inr, ◌==◌, ==_iff,
  List, [], ◌∷◌, length,
}
use demo_code.Circular.{CircularBuffer, push, pop, insert_node, unlink_first}
use demo_code.Circular.Invariant.{IsValid, Pushed, insert_node-Pushed, tail, enqueue}

-- What a client calls.
pub data Op {ℓ} (A : Type ℓ) : Type ℓ where
  add : A → Op A
  take : Op A

module _ {ℓ} {A : Type ℓ} where
  -- What `pop` makes of a valid buffer.
  abbrev pub Popped : CircularBuffer A → CircularBuffer A → Type ℓ
  Popped b c = IsValid c × (c.data_lst ≡ tail b.data_lst) × (c.buffer_size ≡ b.buffer_size)

  unlink_first-Popped :
      (b : CircularBuffer A) (xs : List A)
      → b.data_lst ≡ xs
      → IsValid b
      → 0 < length xs
      → (c : CircularBuffer A) × (unlink_first xs b ≡ some c) × Popped b c
  unfolding unlink_first
  unlink_first-Popped b [] e v h = absurd (omega arith)
  unlink_first-Popped b (x ∷ xs) e v h = let n = ap length e in (_, refl, (omega arith, rw e, refl))

  none_left : (xs : List A) → length xs ≡ 0 → xs ≡ tail xs
  none_left [] h = refl
  none_left (x ∷ xs) h = absurd (omega arith)

  -- On a valid buffer `pop` returns: the oldest item has left, if there was one, and the buffer is
  -- valid.
  pub pop-Popped :
      (b : CircularBuffer A) → IsValid b → (c : CircularBuffer A) × (pop b ≡ some c) × Popped b c
  unfolding pop
  pop-Popped b v = elim (Bool-cases (b.data_size == 0)) [
    | inl empty ↦
        let z = (==_iff b.data_size 0).0 empty in
        (b, rw empty, (v, none_left b.data_lst (omega arith), refl))
    | inr more ↦ rw more (unlink_first-Popped b b.data_lst refl v (ground (arith, v.counted)))
  ]

module _ {ℓ} {A : Type ℓ} (blank : A) where
  -- On a valid buffer `push` returns: the item has joined at the end, the oldest has left if the
  -- buffer was full, and the buffer is valid.
  pub push-Pushed :
      (t : A) (b : CircularBuffer A)
      → IsValid b
      → (c : CircularBuffer A) × (push blank t b ≡ some c) × Pushed blank t b c
  unfolding push
  push-Pushed t b v = go b.free_lst refl
    where
      go :
          (free : List A)
          → b.free_lst ≡ free
          → (c : CircularBuffer A) × ((elim free as (λ _. Option (CircularBuffer A)) [
            | [] ↦ none
            | _ ∷ free ↦ some (insert_node blank t free b.data_lst b)
          ])
              ≡ some c)
            × Pushed blank t b c
      go [] e = absurd (let k = ap length e in omega arith)
      go (x ∷ free) e = (_, refl, insert_node-Pushed blank t x b free b.data_lst refl e v)

  unfoldable pub run : List (Op A) → CircularBuffer A → Option (CircularBuffer A)
  unfolding push pop
  run [] b = some b
  run (add t ∷ ops) b = do c ← push blank t b; run ops c
  run (take ∷ ops) b = do c ← pop b; run ops c

-- The same calls on a list.
unfoldable pub replay {ℓ} : {A : Type ℓ} → ℕ → List (Op A) → List A → List A
replay cap [] xs = xs
replay cap (add t ∷ ops) xs = replay cap ops (enqueue cap t xs)
replay cap (take ∷ ops) xs = replay cap ops (tail xs)

-- Any calls of `push` and `pop` on a valid buffer return, with no read through a null pointer, a
-- valid buffer whose data are those of a bounded queue after the same calls.
pub run-replay {ℓ} :
    {A : Type ℓ} (blank : A) (ops : List (Op A)) (b : CircularBuffer A)
    → IsValid b
    → (c : CircularBuffer A) × (run blank ops b ≡ some c)
      × IsValid c
      × (c.data_lst ≡ replay b.buffer_size ops b.data_lst)
unfolding run replay
run-replay blank [] b v = (b, refl, v, refl)
run-replay blank (add t ∷ ops) b v =
    let (c, e, (w, data', cap)) = push-Pushed blank t b v in
    let (d, f, x, rest) = run-replay blank ops c w in
    (
      d,
      rw e f,
      x,
      rest ∙ ap (λ n. replay n ops c.data_lst) cap ∙ ap (replay b.buffer_size ops) data',
    )
run-replay blank (take ∷ ops) b v =
    let (c, e, (w, data', cap)) = pop-Popped b v in
    let (d, f, x, rest) = run-replay blank ops c w in
    (
      d,
      rw e f,
      x,
      rest ∙ ap (λ n. replay n ops c.data_lst) cap ∙ ap (replay b.buffer_size ops) data',
    )
