-- ===== src/WebSocket/RoundTrip.antt =====
-- third_party_about/websocket/ws_proto.hpp: `ParseMsg` on what `PackMsg` writes.
use mathlib.Core.List.{append_assoc}
use demo_code.Prelude.{
  ℕ, zero, suc, ◌+◌, ◌^◌, ◌≤◌, ◌<◌, ltb, Bool, true, false, not, ◌≡◌, refl, sym, ap, ◌∙◌, arith,
  if◌then◌else◌, List, [], ◌∷◌, ◌++◌, length, take, drop, take-append, drop-append, length-append,
  Bool-cases, inl, inr, ltb-false,
}
use demo_code.Prelude.Sorted.{All}
use demo_code.WebSocket.{
  Head, head_byte0, head_byte1, apply_mask, big_endian, from_big_endian, check_op_code,
}
use demo_code.WebSocket.Frame.{
  read_head-head_bytes, IsByte, apply_mask_twice, length-apply_mask, from_big_endian-big_endian_2,
  from_big_endian-big_endian_8,
}
use demo_code.WebSocket.Parse.{
  Parser, next, key_len, mask_len, unmask, take_frame, parse_head, parse_round,
}
use demo_code.WebSocket.Pack.{Mask, pack_head, pack_key_len, pack_payload_len, pack_frame}

-- A round that finds a whole frame takes it.
parse_head-next :
    (max : ℕ) (p : Parser) (h : Head) (tail : List ℕ) (n : ℕ)
    → check_op_code h.op_code ≡ true
    → (if ltb h.payload_len 126
        then h.payload_len
        else from_big_endian 0 (take (key_len h.payload_len) tail))
      ≡ n
    → 2 + key_len h.payload_len + mask_len h.mask + n ≤ length p.pkg_cache
    → n ≤ max
    → parse_head max p h tail ≡ next (take_frame h (key_len h.payload_len) n p)
unfolding parse_head
parse_head-next max p h tail n op len size le =
    let a : ltb (length p.pkg_cache) (key_len h.payload_len + 2) ≡ false =
      ltb-false _ _ (omega arith) in
    let b : ltb max n ≡ false = ltb-false _ _ le in
    let c : ltb (length p.pkg_cache) (2 + key_len h.payload_len + mask_len h.mask + n) ≡ false =
      ltb-false _ _ size in
    rw (op, len, a, b, c)

-- The parser after a frame with this payload.
abbrev pub Taken : Parser → Head → List ℕ → List ℕ → Parser
Taken p h payload rest =
    if h.fin
    then record {
      pkg_cache = rest;
      data_cache = [];
      delivered = p.delivered ++ (p.data_cache ++ payload, h.op_code) ∷ [];
    }
    else record p { pkg_cache = rest; data_cache = p.data_cache ++ payload }

drop-append_of_length : {n : ℕ} (xs ys : List ℕ) → n ≡ length xs → drop n (xs ++ ys) ≡ ys
drop-append_of_length xs ys e = rw e (drop-append xs ys)

-- A frame whose head and mask are `front`, followed by the payload as it was sent and by `rest`.
take_frame-plain :
    (h : Head) (key n : ℕ) (p : Parser) (front payload rest : List ℕ)
    → h.mask ≡ false
    → p.pkg_cache ≡ front ++ (payload ++ rest)
    → 2 + key ≡ length front
    → n ≡ length payload
    → take_frame h key n p ≡ Taken p h payload rest
unfolding take_frame mask_len
take_frame-plain h key n p front payload rest m e k l =
    let a : drop (2 + key + 0) p.pkg_cache ≡ payload ++ rest =
      rw e (drop-append_of_length front (payload ++ rest) (omega arith)) in
    let b : drop (2 + key + 0 + n) p.pkg_cache ≡ rest =
      rw (e, ← append_assoc front payload rest)
        (drop-append_of_length (front ++ payload) rest
          (omega (arith, length-append front payload))) in
    let c : take n (payload ++ rest) ≡ payload = rw l (take-append payload rest) in rw (m, a, b, c)

take_frame-masked :
    (h : Head) (key n : ℕ) (p : Parser) (front : List ℕ) (a b c d : ℕ) (sent payload rest : List ℕ)
    → h.mask ≡ true
    → p.pkg_cache ≡ front ++ (a ∷ b ∷ c ∷ d ∷ (sent ++ rest))
    → 2 + key ≡ length front
    → n ≡ length sent
    → apply_mask a b c d sent ≡ payload
    → take_frame h key n p ≡ Taken p h payload rest
unfolding take_frame mask_len unmask
take_frame-masked h key n p front a b c d sent payload rest m e k l undone =
    let mask = a ∷ b ∷ c ∷ d ∷ [] in
    let x : drop (2 + key + 4) p.pkg_cache ≡ sent ++ rest =
      rw (e, ← append_assoc front mask (sent ++ rest))
        (drop-append_of_length (front ++ mask) (sent ++ rest)
          (omega (arith, length-append front mask))) in
    let y : drop (2 + key) p.pkg_cache ≡ mask ++ (sent ++ rest) =
      rw e (drop-append_of_length front (mask ++ (sent ++ rest)) k) in
    let z : drop (2 + key + 4 + n) p.pkg_cache ≡ rest =
      rw (e, ← append_assoc front (mask ++ sent) rest)
        (drop-append_of_length (front ++ (mask ++ sent)) rest
          (omega (arith, length-append front (mask ++ sent)))) in
    let w : take n (sent ++ rest) ≡ sent = rw l (take-append sent rest) in
    rw (m, x, y, z, w, undone)

key_len-pack_payload_len : (n : ℕ) → key_len (pack_payload_len n) ≡ pack_key_len n
unfolding key_len pack_payload_len pack_key_len
key_len-pack_payload_len n = ground arith

pack_payload_len-lt : (n : ℕ) → pack_payload_len n < 128
unfolding pack_payload_len
pack_payload_len-lt n = ground arith

length-big_endian : (k n : ℕ) → length (big_endian k n) ≡ k
unfolding big_endian
length-big_endian zero n = refl
length-big_endian (suc k) n = ap suc (length-big_endian k n)

-- The length of the payload is read back.
data_len-pack_payload_len :
    (n : ℕ) (more : List ℕ)
    → n < 2 ^ 64
    → (if ltb (pack_payload_len n) 126
        then pack_payload_len n
        else from_big_endian 0
            (take (key_len (pack_payload_len n)) (big_endian (pack_key_len n) n ++ more)))
      ≡ n
data_len-pack_payload_len n more h =
    rw (key_len-pack_payload_len n) (elim (Bool-cases (ltb n 126)) [
      | inl short ↦ unfold pack_payload_len in rw (short, short)
      | inr not_short ↦ elim (Bool-cases (ltb n 65535)) [
        | inl medium ↦
            unfold pack_payload_len pack_key_len in
            rw (not_short, medium)
              (from_big_endian-prefix 2 n more ∙ from_big_endian-big_endian_2 n (ground arith))
        | inr long ↦
            unfold pack_payload_len pack_key_len in
            rw (not_short, long)
              (from_big_endian-prefix 8 n more ∙ from_big_endian-big_endian_8 n h)
      ]
    ])
  where
    from_big_endian-prefix :
        (k n : ℕ) (more : List ℕ)
        → from_big_endian 0 (take k (big_endian k n ++ more)) ≡ from_big_endian 0 (big_endian k n)
    from_big_endian-prefix k n more = ap (from_big_endian 0) (
        ap (λ j. take j (big_endian k n ++ more)) (sym (length-big_endian k n))
        ∙ take-append (big_endian k n) more)

-- The bytes of a mask.
abbrev pub IsMask : Mask → Type 0
IsMask m = IsByte m.m0 × IsByte m.m1 × IsByte m.m2 × IsByte m.m3

-- The parser finds the head that was written, and goes on to take the frame, for any body that
-- follows the length.
parse_round-body :
    (max : ℕ) (p : Parser) (server : Bool) (op : ℕ) (fin : Bool) (n : ℕ) (body rest : List ℕ)
    → check_op_code op ≡ true
    → op < 16
    → n ≤ max
    → n < 2 ^ 64
    → length body ≡ mask_len (not server) + n
    → let h = pack_head server op fin n in
      let cache = head_byte0 h ∷ head_byte1 h ∷ (big_endian (pack_key_len n) n ++ body) ++ rest in
      let q : Parser = record p { pkg_cache = cache } in
      parse_round max q cache ≡ next (take_frame h (pack_key_len n) n q)
unfolding parse_round
parse_round-body max p server op fin n body rest ok small le fits size =
    let h = pack_head server op fin n in
    let key = big_endian (pack_key_len n) n in
    let tail = (key ++ body) ++ rest in
    let q : Parser = record p { pkg_cache = head_byte0 h ∷ head_byte1 h ∷ tail } in
    let len = data_len-pack_payload_len n (body ++ rest) fits in
    let same = key_len-pack_payload_len n in
    rw (read_head-head_bytes h small (omega arith) (pack_payload_len-lt n)) (
      parse_head-next max q h tail n ok (rw (append_assoc key body rest) len)
        (omega (
          arith,
          same,
          length-big_endian (pack_key_len n) n,
          length-append (key ++ body) rest,
          length-append key body,
        ))
        le
      ∙ ap (λ k. next (take_frame h k n q)) same)

-- On a frame that `PackMsg` wrote, a round of `ParseMsg` takes off the cache exactly that frame,
-- with the payload as it was before the mask.
pub parse_round-pack_frame :
    (max : ℕ) (p : Parser) (server : Bool) (op : ℕ) (fin : Bool) (m : Mask) (payload rest : List ℕ)
    → check_op_code op ≡ true
    → op < 16
    → length payload ≤ max
    → length payload < 2 ^ 64
    → IsMask m
    → All IsByte payload
    → let cache = pack_frame server op fin m payload ++ rest in
      let q : Parser = record p { pkg_cache = cache } in
      parse_round max q cache
      ≡ next (Taken q (pack_head server op fin (length payload)) payload rest)
unfolding pack_frame
parse_round-pack_frame max p true op fin m payload rest ok small le fits bm bp =
    let n = length payload in
    let h = pack_head true op fin n in
    let key = big_endian (pack_key_len n) n in
    let front = head_byte0 h ∷ head_byte1 h ∷ key in
    let q : Parser = record p { pkg_cache = front ++ payload ++ rest } in
    parse_round-body max p true op fin n payload rest ok small le fits
      (unfold mask_len in omega arith)
    ∙ ap next (
        take_frame-plain h (pack_key_len n) n q front payload rest refl
          (append_assoc front payload rest) (omega (arith, length-big_endian (pack_key_len n) n))
          refl)
parse_round-pack_frame max p false op fin m payload rest ok small le fits bm bp =
    let n = length payload in
    let h = pack_head false op fin n in
    let key = big_endian (pack_key_len n) n in
    let front = head_byte0 h ∷ head_byte1 h ∷ key in
    let sent = apply_mask m.m0 m.m1 m.m2 m.m3 payload in
    let body = m.m0 ∷ m.m1 ∷ m.m2 ∷ m.m3 ∷ sent in
    let q : Parser = record p { pkg_cache = front ++ body ++ rest } in
    let same = length-apply_mask m.m0 m.m1 m.m2 m.m3 payload in
    parse_round-body max p false op fin n body rest ok small le fits
      (unfold mask_len in omega (arith, same))
    ∙ ap next (
        take_frame-masked h (pack_key_len n) n q front m.m0 m.m1 m.m2 m.m3 sent payload rest refl
          (append_assoc front body rest) (omega (arith, length-big_endian (pack_key_len n) n))
          (sym same) (apply_mask_twice m.m0 m.m1 m.m2 m.m3 bm.0 bm.1 bm.2 bm.3 payload bp))
