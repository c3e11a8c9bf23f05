-- ===== src/Circular/Resize.antt =====
-- project_about/feedproxy/public/eddid_cricular_buffer.h: `resize`.
use demo_code.Prelude.{
  u32, sub_u32, ℕ, zero, suc, ◌+◌, ◌-◌, ◌^◌, ◌≤◌, ◌<◌, ◌≡◌, refl, ap, arith, some, List, [], ◌∷◌,
  length, drop, length-drop, leb, le→leb, leb-false, Bool-cases, inl, inr, true, false, leb→le,
  lt→leb,
}
use demo_code.Circular.{CircularBuffer, unlink, add_free, shrink, grow, resize}
use demo_code.Circular.Invariant.{IsValid}

module _ {ℓ} {A : Type ℓ} where
  pub unlink-drop : (n : ℕ) (xs : List A) → n ≤ length xs → unlink n xs ≡ some (drop n xs)
  unfolding unlink
  unlink-drop zero xs h = refl
  unlink-drop (suc n) [] h = absurd (omega arith)
  unlink-drop (suc n) (x ∷ xs) h = unlink-drop n xs (omega arith)

module _ {ℓ} {A : Type ℓ} (blank : A) where
  -- The loop adds free nodes and changes nothing else.
  record Added (n : ℕ) (b c : CircularBuffer A) : Type ℓ where
    same_size : c.buffer_size ≡ b.buffer_size
    same_count : c.data_size ≡ b.data_size
    same_data : c.data_lst ≡ b.data_lst
    more : length c.free_lst ≡ length b.free_lst + n
    counted : c.free_node_num ≡ b.free_node_num + n

  add_free-Added :
      (n : ℕ) (b : CircularBuffer A) → b.free_node_num + n < 2 ^ 32 → Added n b (add_free blank n b)
  unfolding add_free
  add_free-Added zero b h = record {
    same_size = refl;
    same_count = refl;
    same_data = refl;
    more = omega arith;
    counted = omega arith;
  }
  add_free-Added (suc n) b h =
      let c : CircularBuffer A = record b {
        free_lst = blank ∷ b.free_lst;
        free_node_num = u32 (b.free_node_num + 1);
      } in
      let r = add_free-Added n c (omega arith) in
      record {
        same_size = r.same_size;
        same_count = r.same_count;
        same_data = r.same_data;
        more = omega (arith, r.more);
        counted = omega (arith, r.counted);
      }

  -- Where the data fit in the new size, larger or not, `resize` returns a valid buffer of that size
  -- with the same data.
  pub resize-IsValid :
      (size : ℕ) (b : CircularBuffer A)
      → IsValid b
      → 0 < size
      → size + 1 < 2 ^ 32
      → length b.data_lst ≤ size
      → (c : CircularBuffer A) × (resize blank size b ≡ some c)
        × IsValid c
        × (c.data_lst ≡ b.data_lst)
        × (c.buffer_size ≡ size)
  unfolding resize shrink grow
  resize-IsValid size b v p q fits = elim (Bool-cases (leb size b.buffer_size)) [
    | inl less ↦
        let le = leb→le size b.buffer_size less in
        let fit : leb b.data_size size ≡ true = le→leb _ _ (omega arith) in
        let n = sub_u32 (sub_u32 (u32 (b.free_node_num + b.data_size)) size) 1 in
        let dropped = unlink-drop n b.free_lst (omega arith) in
        let left = length-drop n b.free_lst in
        let c : CircularBuffer A = record b {
          buffer_size = size;
          free_node_num = u32 (sub_u32 size b.data_size + 1);
          free_lst = drop n b.free_lst;
        } in
        (c, rw (less, fit, dropped), omega arith, refl, refl)
    | inr more ↦
        let gt = leb-false size b.buffer_size more in
        let n = u32 (sub_u32 (sub_u32 size b.data_size) b.free_node_num + 1) in
        let a = add_free-Added n (record b { buffer_size = size }) (omega arith) in
        let c = add_free blank n (record b { buffer_size = size }) in
        let same = ap length a.same_data in
        (
          c,
          rw more,
          omega (arith, a.same_size, a.same_count, a.more, a.counted),
          a.same_data,
          a.same_size,
        )
  ]

  -- Where the data do not fit, `resize` keeps the newest `size` items, and stores in the two counts
  -- how many it dropped and how many nodes were free.
  pub resize_overfull :
      (size : ℕ) (b : CircularBuffer A)
      → IsValid b
      → size < length b.data_lst
      → (c : CircularBuffer A) × (resize blank size b ≡ some c)
        × (c.data_lst ≡ drop (length b.data_lst - size) b.data_lst)
        × (length c.data_lst ≡ size)
        × (c.data_size ≡ length b.data_lst - size)
        × (length c.free_lst ≡ 1)
        × (c.free_node_num ≡ b.buffer_size + 1 - length b.data_lst)
  unfolding resize shrink
  resize_overfull size b v h =
      let less : leb size b.buffer_size ≡ true = le→leb _ _ (omega arith) in
      let over : leb b.data_size size ≡ false = lt→leb _ _ (omega arith) in
      let n = sub_u32 b.data_size size in
      let m = sub_u32 b.free_node_num 1 in
      let count : n ≡ length b.data_lst - size = omega arith in
      let kept = unlink-drop n b.data_lst (omega arith) in
      let free = unlink-drop m b.free_lst (omega arith) in
      let left = length-drop n b.data_lst in
      let one = length-drop m b.free_lst in
      let c : CircularBuffer A = record b {
        buffer_size = size;
        data_size = n;
        data_lst = drop n b.data_lst;
        free_lst = drop m b.free_lst;
      } in
      (
        c,
        rw (less, over, kept, free),
        ap (λ k. drop k b.data_lst) count,
        omega arith,
        count,
        omega arith,
        omega arith,
      )
