-- ===== src/WebSocket.antt =====
-- third_party_about/websocket/ws_proto.hpp and the opcodes of ws_common.h: framing of WebSocket
-- messages. A byte is a number below 256 and a buffer the list of its bytes; a call of the
-- callback is an item of the list of deliveries. The size limit `defaultDataMaxSize` is a parameter,
-- and so are the masks, which the source draws from `rand`.
pub mod Parse
pub mod Pack
mod Frame
pub mod RoundTrip
pub mod Message
mod Tests
use Prim.Native.Nat.{bit_xor}
use demo_code.Prelude.{
  ℕ, zero, suc, ◌+◌, ◌*◌, ◌/◌, ◌%◌, ◌^◌, ltb, leb, ◌==◌, ◌&&◌, ◌||◌, not, Bool, true, false,
  if◌then◌else◌, List, [], ◌∷◌, length,
}

-- `EN_OP_CODE`
abbrev pub frame_op : ℕ
frame_op = 0

abbrev pub text_op : ℕ
text_op = 1

abbrev pub binary_op : ℕ
binary_op = 2

abbrev pub close_op : ℕ
close_op = 8

abbrev pub ping_op : ℕ
ping_op = 9

abbrev pub pong_op : ℕ
pong_op = 10

-- `ST_WebScoketHead`: bit fields, from the low bit up.
pub record Head : Type 0 where
  pub op_code : ℕ
  pub rsv : ℕ
  pub fin : Bool
  pub payload_len : ℕ
  pub mask : Bool

abbrev pub bit : Bool → ℕ
bit true = 1
bit false = 0

-- The two bytes that the fields share.
unfoldable pub head_byte0 : Head → ℕ
head_byte0 h = h.op_code % 16 + 16 * (h.rsv % 8) + 128 * bit h.fin

unfoldable pub head_byte1 : Head → ℕ
head_byte1 h = h.payload_len % 128 + 128 * bit h.mask

unfoldable pub read_head : ℕ → ℕ → Head
read_head b0 b1 = record {
  op_code = b0 % 16;
  rsv = b0 / 16 % 8;
  fin = b0 / 128 % 2 == 1;
  payload_len = b1 % 128;
  mask = b1 / 128 % 2 == 1;
}

-- `CheckOpCode`
unfoldable pub check_op_code : ℕ → Bool
check_op_code op =
    if op == close_op
      || not (op == frame_op || op == text_op || op == binary_op || op == ping_op || op == pong_op)
    then false
    else true

-- `data[i] ^= cMask[i % 4]`
unfoldable pub apply_mask : ℕ → ℕ → ℕ → ℕ → List ℕ → List ℕ
apply_mask a b c d [] = []
apply_mask a b c d (x ∷ xs) = bit_xor x a ∷ apply_mask b c d a xs

-- A number of `n` bytes in network order.
unfoldable pub big_endian : ℕ → ℕ → List ℕ
big_endian zero x = []
big_endian (suc n) x = x / 256 ^ n % 256 ∷ big_endian n x

unfoldable pub from_big_endian : ℕ → List ℕ → ℕ
from_big_endian acc [] = acc
from_big_endian acc (b ∷ bs) = from_big_endian (acc * 256 + b) bs
