-- ===== src/WebSocket/Pack.antt =====
-- third_party_about/websocket/ws_proto.hpp: `PackMsg`. Messages are shorter than 2 ^ 31 - 14 bytes, where `totalLen`
-- and `pos` do not wrap around.
use demo_code.Prelude.{
  ℕ, zero, suc, ltb, leb, ◌==◌, Bool, true, false, not, if◌then◌else◌, List, [], ◌∷◌, ◌++◌, length,
  take, drop, Option, none, some,
}
use mathlib.Core.Option
use demo_code.WebSocket.{Head, head_byte0, head_byte1, apply_mask, big_endian, frame_op}

-- `cMask`
pub record Mask : Type 0 where
  pub m0 : ℕ
  pub m1 : ℕ
  pub m2 : ℕ
  pub m3 : ℕ

-- The length field's length and the value of `payloadLen`.
unfoldable pub pack_key_len : ℕ → ℕ
pack_key_len data_len = if ltb data_len 126 then 0 else if ltb data_len 65535 then 2 else 8

unfoldable pub pack_payload_len : ℕ → ℕ
pack_payload_len data_len =
    if ltb data_len 126 then data_len else if ltb data_len 65535 then 126 else 127

-- `m_sendHead` for a payload of `data_len` bytes.
abbrev pub pack_head : Bool → ℕ → Bool → ℕ → Head
pack_head server op fin data_len = record {
  op_code = op;
  rsv = 0;
  fin = fin;
  payload_len = pack_payload_len data_len;
  mask = not server;
}

-- One frame.
unfoldable pub pack_frame : Bool → ℕ → Bool → Mask → List ℕ → List ℕ
pack_frame server op fin m payload =
    let h = pack_head server op fin (length payload) in
    let key = big_endian (pack_key_len (length payload)) (length payload) in
    let body =
      if server
      then payload
      else m.m0 ∷ m.m1 ∷ m.m2 ∷ m.m3 ∷ apply_mask m.m0 m.m1 m.m2 m.m3 payload in
    head_byte0 h ∷ head_byte1 h ∷ (key ++ body)

-- The loop of `PackMsg`, on fuel: `none` is that the fuel ran out. `masks` gives the mask of each
-- round.
unfoldable pub pack_loop : ℕ → Bool → ℕ → ℕ → (ℕ → Mask) → Bool → List ℕ → Option (List (List ℕ))
pack_loop zero server max op masks is_first raw = none
pack_loop (suc fuel) server max op masks is_first raw =
    let len = length raw in
    let data_len = if ltb len max then len else max in
    let this_op = if is_first then op else frame_op in
    let pkg = pack_frame server this_op (leb len max) (masks fuel) (take data_len raw) in
    let rest = drop data_len raw in
    let others = Option.map (λ pkgs. pkg ∷ pkgs) (pack_loop fuel server max op masks false rest) in
    if length rest == 0 then some (pkg ∷ []) else others

-- `PackMsg`: with a positive limit each round takes a byte at least.
unfoldable pub pack_msg : Bool → ℕ → ℕ → (ℕ → Mask) → List ℕ → Option (List (List ℕ))
unfolding pack_loop pack_frame head_byte0 head_byte1 apply_mask big_endian pack_key_len
    pack_payload_len
pack_msg server max op masks raw = pack_loop (suc (length raw)) server max op masks true raw
