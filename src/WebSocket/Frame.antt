-- ===== src/WebSocket/Frame.antt =====
-- third_party_about/websocket/ws_proto.hpp: the fields of a frame are read as they were written.
use Prim.Native.Nat.{bit_xor}
use demo_code.Prelude.{
  ℕ, zero, suc, ◌^◌, ◌<◌, ◌==◌, ==_iff, ◌&&◌, Bool, true, ◌≡◌, refl, ap, arith, List, [], ◌∷◌,
  length,
}
use demo_code.Prelude.Sorted.{All}
use demo_code.WebSocket.{
  Head, head_byte0, head_byte1, read_head, apply_mask, big_endian, from_big_endian,
}

-- The head is the one that was written, where its fields fit.
pub read_head-head_bytes :
    (h : Head)
    → h.op_code < 16
    → h.rsv < 8
    → h.payload_len < 128
    → read_head (head_byte0 h) (head_byte1 h) ≡ h
unfolding read_head head_byte0 head_byte1
read_head-head_bytes h p q r = ground arith

all_below : ℕ → (ℕ → Bool) → Bool
all_below zero p = true
all_below (suc n) p = p n && all_below n p

all_below_lem : (n : ℕ) (p : ℕ → Bool) (x : ℕ) → all_below n p ≡ true → x < n → p x ≡ true
unfolding all_below
all_below_lem zero p x h lt = absurd (omega arith)
all_below_lem (suc n) p x h lt = ground (arith, all_below_lem n p x)

xor_table : all_below 256 (λ x. all_below 256 (λ m. bit_xor (bit_xor x m) m == x)) ≡ true
unfolding all_below
xor_table = refl

xor_twice : (x m : ℕ) → x < 256 → m < 256 → bit_xor (bit_xor x m) m ≡ x
xor_twice x m p q = (==_iff _ x).0 (
    all_below_lem 256 (λ m. bit_xor (bit_xor x m) m == x) m
      (all_below_lem 256 (λ x. all_below 256 (λ m. bit_xor (bit_xor x m) m == x)) x xor_table p) q)

abbrev pub IsByte : ℕ → Type 0
IsByte x = x < 256

-- A mask undoes itself.
pub apply_mask_twice :
    (a b c d : ℕ)
    → IsByte a
    → IsByte b
    → IsByte c
    → IsByte d
    → (xs : List ℕ) → All IsByte xs
    → apply_mask a b c d (apply_mask a b c d xs) ≡ xs
unfolding apply_mask
apply_mask_twice a b c d p q r s [] h = refl
apply_mask_twice a b c d p q r s (x ∷ xs) h =
    λ i. xor_twice x a h.0 p i ∷ apply_mask_twice b c d a q r s p xs h.1 i

pub length-apply_mask : (a b c d : ℕ) (xs : List ℕ) → length (apply_mask a b c d xs) ≡ length xs
unfolding apply_mask
length-apply_mask a b c d [] = refl
length-apply_mask a b c d (x ∷ xs) = ap suc (length-apply_mask b c d a xs)

-- A length field of two or of eight bytes is read as it was written.
pub from_big_endian-big_endian_2 : (n : ℕ) → n < 65536 → from_big_endian 0 (big_endian 2 n) ≡ n
unfolding from_big_endian big_endian
from_big_endian-big_endian_2 n h = omega arith

pub from_big_endian-big_endian_8 : (n : ℕ) → n < 2 ^ 64 → from_big_endian 0 (big_endian 8 n) ≡ n
unfolding from_big_endian big_endian
from_big_endian-big_endian_8 n h = omega arith
