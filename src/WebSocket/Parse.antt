-- ===== src/WebSocket/Parse.antt =====
-- third_party_about/websocket/ws_proto.hpp: `ParseMsg`.
use demo_code.Prelude.{
  ℕ, zero, suc, ◌+◌, ltb, ◌==◌, Bool, if◌then◌else◌, List, [], ◌∷◌, ◌++◌, length, take, drop,
  Option, none, some,
}
use demo_code.WebSocket.{Head, read_head, check_op_code, apply_mask, from_big_endian}

-- What `ParseMsg` returns: 0, -1 and -2.
pub data Status : Type 0 where
  parsed : Status
  more : Status
  closed : Status

-- `m_pkgCache`, `m_dataCache`, and the calls of `m_cb` so far.
pub record Parser : Type 0 where
  pub pkg_cache : List ℕ
  pub data_cache : List ℕ
  pub delivered : List (List ℕ × ℕ)

-- `CloseClear`
unfoldable pub close_clear : Parser → Parser × Status
close_clear p = (record p { pkg_cache = []; data_cache = [] }, closed)

-- The length of the length field, and `maskLen`.
unfoldable pub key_len : ℕ → ℕ
key_len payload_len = if ltb payload_len 126 then 0 else if payload_len == 126 then 2 else 8

unfoldable pub mask_len : Bool → ℕ
mask_len mask = if mask then 4 else 0

-- The unmasked payload: `mask` is the four bytes of the mask.
unfoldable pub unmask : List ℕ → List ℕ → List ℕ
unmask (a ∷ b ∷ c ∷ d ∷ _) payload = apply_mask a b c d payload
unmask _ payload = payload

-- A complete frame is taken off the cache: its payload joins `m_dataCache`, which is delivered with
-- the frame's opcode if the frame is the last one.
unfoldable pub take_frame : Head → ℕ → ℕ → Parser → Parser
take_frame h key data_len p =
    let head_len = 2 + key + mask_len h.mask in
    let raw = take data_len (drop head_len p.pkg_cache) in
    let payload = if h.mask then unmask (drop (2 + key) p.pkg_cache) raw else raw in
    let joined = p.data_cache ++ payload in
    let rest = drop (head_len + data_len) p.pkg_cache in
    if h.fin
    then record {
      pkg_cache = rest;
      data_cache = [];
      delivered = p.delivered ++ (joined, h.op_code) ∷ [];
    }
    else record p { pkg_cache = rest; data_cache = joined }

-- What a round of the loop finds: it returns, or a frame was taken.
pub data Round : Type 0 where
  done : Parser → Status → Round
  next : Parser → Round

-- One round, with the first two bytes of the cache and the rest of it, under the limit `max`.
unfoldable pub parse_head : ℕ → Parser → Head → List ℕ → Round
parse_head max p h rest =
    let size = length p.pkg_cache in
    let key = key_len h.payload_len in
    let data_len =
      if ltb h.payload_len 126 then h.payload_len else from_big_endian 0 (take key rest) in
    if check_op_code h.op_code
    then (if ltb size (key + 2)
        then done p more
        else if ltb max data_len
        then done (close_clear p).0 closed
        else if ltb size (2 + key + mask_len h.mask + data_len)
        then done p more
        else next (take_frame h key data_len p))
    else done (close_clear p).0 closed

unfoldable pub parse_round : ℕ → Parser → List ℕ → Round
parse_round max p (b0 ∷ b1 ∷ rest) = parse_head max p (read_head b0 b1) rest
parse_round max p _ = done (close_clear p).0 closed

-- The loop, on fuel: `none` is that the fuel ran out.
unfoldable pub parse_loop : ℕ → ℕ → Parser → Option (Parser × Status)
parse_loop zero max p = none
parse_loop (suc fuel) max p = elim (parse_round max p p.pkg_cache) [
  | done q status ↦ some (q, status)
  | next q ↦ (elim q.pkg_cache [ [] ↦ some (q, parsed) | _ ∷ _ ↦ parse_loop fuel max q ])
]

-- `ParseMsg`: each round takes two bytes at least.
unfoldable pub parse_msg : ℕ → Parser → List ℕ → Option (Parser × Status)
unfolding parse_loop parse_round parse_head read_head close_clear key_len mask_len take_frame unmask
    apply_mask from_big_endian check_op_code
parse_msg max p raw =
    let cache = p.pkg_cache ++ raw in
    parse_loop (suc (length cache)) max (record p { pkg_cache = cache })
