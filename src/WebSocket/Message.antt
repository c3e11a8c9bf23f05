-- ===== src/WebSocket/Message.antt =====
-- third_party_about/websocket/ws_proto.hpp: a whole message through `PackMsg` and `ParseMsg`.
use mathlib.Core.List.{append_assoc}
use demo_code.Prelude.{
  ℕ, zero, suc, ◌+◌, ◌^◌, ◌≤◌, ◌<◌, ltb, leb, ◌==◌, Bool, true, false, ◌≡◌, refl, ap, ◌∙◌, arith,
  if◌then◌else◌, List, [], ◌∷◌, ◌++◌, length, take, drop, take-append-drop, take-length,
  drop-length, length-append, length-drop, length-take, some, Option, none, Bool-cases, inl, inr,
  leb→le, leb-false,
}
use demo_code.Prelude.Sorted.{All}
use demo_code.WebSocket.{frame_op, check_op_code}
use demo_code.WebSocket.Frame.{IsByte}
use demo_code.WebSocket.Parse.{Parser, Status, parsed, parse_loop, parse_msg}
use demo_code.WebSocket.Pack.{Mask, pack_frame, pack_loop, pack_msg}
use demo_code.WebSocket.RoundTrip.{IsMask, parse_round-pack_frame}

-- The bytes of the frames, one after the other.
abbrev pub join : List (List ℕ) → List ℕ
join [] = []
join (x ∷ xs) = x ++ join xs

All-take : (n : ℕ) (xs : List ℕ) → All IsByte xs → All IsByte (take n xs)
All-take zero xs h = tt
All-take (suc n) [] h = tt
All-take (suc n) (x ∷ xs) h = (h.0, All-take n xs h.1)

All-drop : (n : ℕ) (xs : List ℕ) → All IsByte xs → All IsByte (drop n xs)
All-drop zero xs h = h
All-drop (suc n) [] h = tt
All-drop (suc n) (x ∷ xs) h = All-drop n xs h.1

-- The opcode of the last frame.
abbrev pub last_op : ℕ → ℕ → Bool → List ℕ → ℕ
last_op max op is_first raw =
    if is_first then (if leb (length raw) max then op else frame_op) else frame_op

-- The parser after a message, and after the payload `whole` was collected.
abbrev pub WithData : Parser → List ℕ → ℕ → Parser
WithData p whole op = record {
  pkg_cache = [];
  data_cache = [];
  delivered = p.delivered ++ (whole, op) ∷ [];
}

abbrev pub Delivered : Parser → List ℕ → ℕ → Parser
Delivered p raw op = WithData p (p.data_cache ++ raw) op

-- The last frame, and a frame that others follow.
parse_loop-last :
    (g limit : ℕ) (p : Parser) (server : Bool) (op : ℕ) (m : Mask) (raw : List ℕ)
    → check_op_code op ≡ true
    → op < 16
    → length raw ≤ limit
    → length raw < 2 ^ 64
    → IsMask m
    → All IsByte raw
    → parse_loop (suc g) limit (record p { pkg_cache = pack_frame server op true m raw ++ [] })
      ≡ some (Delivered p raw op, parsed)
unfolding parse_loop
parse_loop-last g limit p server op m raw ok small le fits bm br =
    rw (parse_round-pack_frame limit p server op true m raw [] ok small le fits bm br, parse_loop)

parse_loop-more :
    (g limit : ℕ) (p : Parser) (server : Bool) (op : ℕ) (m : Mask) (raw : List ℕ) (b : ℕ)
    (bs : List ℕ)
    → check_op_code op ≡ true
    → op < 16
    → length raw ≤ limit
    → length raw < 2 ^ 64
    → IsMask m
    → All IsByte raw
    → parse_loop (suc g) limit (record p { pkg_cache = pack_frame server op false m raw ++ b ∷ bs })
      ≡ parse_loop g limit (record p { pkg_cache = b ∷ bs; data_cache = p.data_cache ++ raw })
unfolding parse_loop
parse_loop-more g limit p server op m raw b bs ok small le fits bm br = rw (
  parse_round-pack_frame limit p server op false m raw (b ∷ bs) ok small le fits bm br,
  parse_loop,
)

-- What the loops make of a message.
record Sent (limit : ℕ) (p : Parser) (server : Bool) (max op : ℕ) (masks : ℕ → Mask)
    (is_first : Bool) (raw : List ℕ) (fuel : ℕ) : Type 0 where
  pkgs : List (List ℕ)
  packed : pack_loop fuel server max op masks is_first raw ≡ some pkgs
  head : ℕ
  tail : List ℕ
  bytes : join pkgs ≡ head ∷ tail
  enough : length pkgs ≤ length (join pkgs)
  parses :
      (g : ℕ)
      → length pkgs ≤ g
      → parse_loop g limit (record p { pkg_cache = join pkgs })
        ≡ some (Delivered p raw (last_op max op is_first raw), parsed)

pack_frame-cons :
    (server : Bool) (op : ℕ) (fin : Bool) (m : Mask) (raw : List ℕ)
    → (b : ℕ) × (bs : List ℕ) × (pack_frame server op fin m raw ≡ b ∷ bs)
unfolding pack_frame
pack_frame-cons server op fin m raw = (_, _, refl)

-- With fuel that is not 0.
parse_loop-pos :
    (g limit : ℕ) (p : Parser) (r : Option (Parser × Status))
    → 1 ≤ g
    → ((k : ℕ) → k + 1 ≡ g → parse_loop (suc k) limit p ≡ r)
    → parse_loop g limit p ≡ r
parse_loop-pos zero limit p r h f = absurd (omega arith)
parse_loop-pos (suc g) limit p r h f = f g (omega arith)

module _ (limit : ℕ) (server : Bool) (max : ℕ) (masks : ℕ → Mask) (positive : 0 < max)
    (within : max ≤ limit) (fits : limit < 2 ^ 64) (masked : (i : ℕ) → IsMask (masks i)) where
  -- A message that fits in one frame.
  sent-last :
      (p : Parser) (op : ℕ) (is_first : Bool) (raw : List ℕ) (fuel : ℕ)
      → let this = if is_first then op else frame_op in
        check_op_code this ≡ true
        → this < 16
        → All IsByte raw
        → leb (length raw) max ≡ true
        → Sent limit p server max op masks is_first raw (suc fuel)
  unfolding pack_loop
  sent-last p op is_first raw fuel ok small br one =
      let this = if is_first then op else frame_op in
      let le = leb→le (length raw) max one in
      let pkg = pack_frame server this true (masks fuel) raw in
      let size : (if ltb (length raw) max then length raw else max) ≡ length raw = ground arith in
      let taken = take-length raw in
      let none_left = drop-length raw in
      let (b, bs, e) = pack_frame-cons server this true (masks fuel) raw in
      let n = ap length e in
      let last : last_op max op is_first raw ≡ this = ground arith in
      record {
        pkgs = pkg ∷ [];
        packed = rw (size, one, taken, none_left);
        head = b;
        tail = bs ++ [];
        bytes = ap (λ l. l ++ []) e;
        enough = omega (arith, length-append pkg []);
        parses = λ g h. parse_loop-pos g limit _ _ h (λ k _. rw last (
            parse_loop-last k limit p server this (masks fuel) raw ok small (omega arith)
              (omega arith) (masked fuel) br));
      }

  -- A message whose first `max` bytes are a frame, and whose rest is sent.
  sent-more :
      (p : Parser) (op : ℕ) (is_first : Bool) (raw : List ℕ) (fuel : ℕ)
      → let this = if is_first then op else frame_op in
        check_op_code this ≡ true
        → this < 16
        → All IsByte raw
        → leb (length raw) max ≡ false
        → Sent limit
            (record p { data_cache = p.data_cache ++ take max raw })
            server
            max
            op
            masks
            false
            (drop max raw)
            fuel
        → Sent limit p server max op masks is_first raw (suc fuel)
  unfolding pack_loop
  sent-more p op is_first raw fuel ok small br many rest =
      let this = if is_first then op else frame_op in
      let gt = leb-false (length raw) max many in
      let part = take max raw in
      let pkg = pack_frame server this false (masks fuel) part in
      let size : (if ltb (length raw) max then length raw else max) ≡ max = ground arith in
      let left : (length (drop max raw) == 0) ≡ false = ground (arith, length-drop max raw) in
      let (b, bs, e) = pack_frame-cons server this false (masks fuel) part in
      let n = ap length e in
      let whole = append_assoc p.data_cache part (drop max raw) in
      let joined = take-append-drop max raw in
      let cut = length-take max raw in
      let last : last_op max op is_first raw ≡ frame_op = ground arith in
      record {
        pkgs = pkg ∷ rest.pkgs;
        packed = rw (size, many, left, rest.packed);
        head = b;
        tail = bs ++ join rest.pkgs;
        bytes = ap (λ l. l ++ join rest.pkgs) e;
        enough = omega (arith, length-append pkg (join rest.pkgs), rest.enough);
        parses = λ g h. parse_loop-pos g limit _ _ (omega arith) (λ k same.
            rw (rest.bytes, last)
              (parse_loop-more k limit p server this (masks fuel) part rest.head rest.tail ok small
                  (omega (arith, cut)) (omega (arith, cut)) (masked fuel) (All-take max raw br)
                ∙ rw rest.bytes at (rest.parses k (omega arith))
                ∙ ap (λ l. some (WithData p l frame_op, parsed))
                    (whole ∙ ap (λ l. p.data_cache ++ l) joined)));
      }

  frame_op-ok : check_op_code frame_op ≡ true
  unfolding check_op_code
  frame_op-ok = refl

  sent :
      (fuel : ℕ) (p : Parser) (op : ℕ) (is_first : Bool) (raw : List ℕ)
      → let this = if is_first then op else frame_op in
        check_op_code this ≡ true
        → this < 16
        → All IsByte raw
        → length raw < fuel
        → Sent limit p server max op masks is_first raw fuel
  sent zero p op is_first raw ok small br h = absurd (omega arith)
  sent (suc fuel) p op is_first raw ok small br h = elim (Bool-cases (leb (length raw) max)) [
    | inl one ↦ sent-last p op is_first raw fuel ok small br one
    | inr many ↦
        let gt = leb-false (length raw) max many in
        sent-more p op is_first raw fuel ok small br many (
          sent fuel (record p { data_cache = p.data_cache ++ take max raw }) op false (drop max raw)
            frame_op-ok (omega arith) (All-drop max raw br) (omega (arith, length-drop max raw)))
  ]

  -- With a positive size limit `PackMsg` returns, and `ParseMsg` on its frames, with nothing in its
  -- caches and a limit that is not smaller, returns 0 with empty caches after one delivery: the
  -- message, with its opcode if it fitted in one frame and with that of a continuation otherwise.
  pub parse_msg-pack_msg :
      (op : ℕ) (raw : List ℕ) (sent : List (List ℕ × ℕ))
      → check_op_code op ≡ true
      → op < 16
      → All IsByte raw
      → (pkgs : List (List ℕ)) × (pack_msg server max op masks raw ≡ some pkgs)
        × (parse_msg limit
              (record { pkg_cache = []; data_cache = []; delivered = sent })
              (join pkgs)
            ≡ some (
              record {
                pkg_cache = [];
                data_cache = [];
                delivered = sent ++ (raw, if leb (length raw) max then op else frame_op) ∷ [];
              },
              parsed,
            ))
  unfolding pack_msg parse_msg
  parse_msg-pack_msg op raw before ok small br =
      let p : Parser = record { pkg_cache = []; data_cache = []; delivered = before } in
      let s = sent (suc (length raw)) p op true raw ok small br (omega arith) in
      (s.pkgs, s.packed, s.parses (suc (length (join s.pkgs))) (omega (arith, s.enough)))

-- With a size limit of 0 the loop of `PackMsg` never ends on a message that is not empty.
pub pack_loop_stuck :
    (fuel : ℕ) (server : Bool) (op : ℕ) (masks : ℕ → Mask) (is_first : Bool) (raw : List ℕ)
    → 0 < length raw
    → pack_loop fuel server 0 op masks is_first raw ≡ none
unfolding pack_loop
pack_loop_stuck zero server op masks is_first raw h = refl
pack_loop_stuck (suc fuel) server op masks is_first raw h =
    let size : (if ltb (length raw) 0 then length raw else 0) ≡ 0 = ground arith in
    let left : (length raw == 0) ≡ false = ground arith in
    rw (size, left, pack_loop_stuck fuel server op masks false raw h)
