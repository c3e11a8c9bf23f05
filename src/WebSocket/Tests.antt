-- ===== src/WebSocket/Tests.antt =====
-- A text message in one frame and in two, from a client and from a server.
use demo_code.Prelude.{ℕ, ◌≡◌, refl, arith, true, false, some, List, [], ◌∷◌}
use demo_code.WebSocket.{check_op_code, text_op, frame_op}
use demo_code.WebSocket.Parse.{Parser, parsed, more, closed, parse_msg}
use demo_code.WebSocket.Pack.{Mask, pack_msg}
use demo_code.WebSocket.Message.{join, parse_msg-pack_msg}

abbrev mask : Mask
mask = record { m0 = 1; m1 = 2; m2 = 3; m3 = 250 }

abbrev hello : List ℕ
hello = b'h' ∷ b'e' ∷ b'l' ∷ b'l' ∷ b'o' ∷ []

abbrev fresh : Parser
fresh = record { pkg_cache = []; data_cache = []; delivered = [] }

pack_hello :
    pack_msg true 100 text_op (λ _. mask) hello
    ≡ some ((0x81 ∷ 5 ∷ b'h' ∷ b'e' ∷ b'l' ∷ b'l' ∷ b'o' ∷ []) ∷ [])
unfolding pack_msg
pack_hello = refl

text_op-ok : check_op_code text_op ≡ true
unfolding check_op_code
text_op-ok = refl

-- Half a frame waits, and a frame that closes the connection ends it.
parse_half :
    parse_msg 100 fresh (0x81 ∷ 5 ∷ b'h' ∷ [])
    ≡ some (record fresh { pkg_cache = 0x81 ∷ 5 ∷ b'h' ∷ [] }, more)
unfolding parse_msg
parse_half = refl

parse_close : parse_msg 100 fresh (0x88 ∷ 0 ∷ []) ≡ some (fresh, closed)
unfolding parse_msg
parse_close = refl

parse_msg-pack_msg_example :
    (pkgs : List (List ℕ)) × (pack_msg false 3 text_op (λ _. mask) hello ≡ some pkgs)
    × (parse_msg 100 fresh (join pkgs)
        ≡ some (record fresh { delivered = (hello, frame_op) ∷ [] }, parsed))
parse_msg-pack_msg_example =
    parse_msg-pack_msg 100 false 3 (λ _. mask) (omega arith) (omega arith) (omega arith)
      (λ _. omega arith) text_op hello [] text_op-ok (omega arith) (omega arith)
