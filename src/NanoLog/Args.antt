-- ===== src/NanoLog/Args.antt =====
-- project_about/nano_log/eddid_nano_logger.h: the arguments that are written to a `LogLine` are those that `Decode`
-- prints.
use mathlib.Core.List.{append_assoc, append-nil}
use demo_code.Prelude.{
  ℕ, zero, suc, ◌+◌, ◌^◌, ◌<◌, ◌==◌, List, [], ◌∷◌, ◌++◌, length, length-append, map, none, some,
  ◌>>=◌, ◌≡◌, ◌≢◌, refl, sym, ap, ◌∙◌, arith, ==_iff, Bool-cases, inl, inr,
}
use demo_code.Prelude.Sorted.{All}
use demo_code.NanoLog.{
  Kind, bool_kind, int8, uint8, uint32, uint64, int32, int64, double, float, int16, uint16, LogLine,
  Arg, number, c_str, Item, value, char, le_bytes, resize_buffer, encode, encode_all, tuple_index,
  size_of,
}
use demo_code.NanoLog.Printing.{kind_of, read_text, decode0, decode}
use demo_code.NanoLog.Words.{words, length-le_bytes, read_word-le_bytes}
use demo_code.NanoLog.Buffer.{Holds, write-Holds, resize_buffer-Holds}

-- The bytes of an argument and what is printed of it. An empty text and a null pointer leave no trace.
unfoldable pub arg_bytes : Arg → List ℕ
arg_bytes (number k w) = tuple_index k ∷ le_bytes (size_of k) w
arg_bytes (c_str none) = []
arg_bytes (c_str (some [])) = []
arg_bytes (c_str (some (c ∷ cs))) = 12 ∷ (c ∷ cs) ++ 0 ∷ []

unfoldable pub arg_items : Arg → List Item
arg_items (number k w) = value k w ∷ []
arg_items (c_str none) = []
arg_items (c_str (some cs)) = map char cs

unfoldable pub args_bytes : List Arg → List ℕ
unfolding arg_bytes
args_bytes [] = []
args_bytes (a ∷ args) = arg_bytes a ++ args_bytes args

unfoldable pub args_items : List Arg → List Item
unfolding arg_items
args_items [] = []
args_items (a ∷ args) = arg_items a ++ args_items args

-- A number has a word of the size of its type, and a text has no zero byte.
unfoldable pub IsArg : Arg → Type 0
IsArg (number k w) = w < words (size_of k)
IsArg (c_str none) = Unit
IsArg (c_str (some cs)) = All (λ c. c ≢ 0) cs

-- Writing one argument,
encode-Holds :
    (a : Arg) (bytes : List ℕ) (s : LogLine)
    → Holds bytes s
    → length bytes + length (arg_bytes a) < 2 ^ 63
    → (s' : LogLine) × (encode a s ≡ some s') × Holds (bytes ++ arg_bytes a) s'
unfolding encode arg_bytes
encode-Holds (number k w) bytes s h lt =
    let size = length-le_bytes (size_of k) w in
    let (h₁, le) = resize_buffer-Holds bytes (size_of k + 1) s h (omega (arith, size)) in
    let (s₂, e₂, h₂, b₂) =
      write-Holds bytes (tuple_index k ∷ []) (resize_buffer (size_of k + 1) s) h₁ (omega arith) in
    let (s₃, e₃, h₃, b₃) =
      write-Holds (bytes ++ tuple_index k ∷ []) (le_bytes (size_of k) w) s₂ h₂
        (omega (arith, size, b₂, length-append bytes (tuple_index k ∷ []))) in
    (
      s₃,
      rw (e₂, ◌>>=◌) e₃,
      rw (sym (append_assoc bytes (tuple_index k ∷ []) (le_bytes (size_of k) w))) h₃,
    )
encode-Holds (c_str none) bytes s h lt = (s, refl, rw (append-nil bytes) h)
encode-Holds (c_str (some [])) bytes s h lt = (s, refl, rw (append-nil bytes) h)
encode-Holds (c_str (some (c ∷ cs))) bytes s h lt =
    let size = length-append cs (0 ∷ []) in
    let (h₁, le) = resize_buffer-Holds bytes (1 + length (c ∷ cs) + 1) s h (omega (arith, size)) in
    let (s₂, e₂, h₂, b₂) =
      write-Holds bytes (12 ∷ (c ∷ cs) ++ 0 ∷ []) (resize_buffer (1 + length (c ∷ cs) + 1) s) h₁
        (omega (arith, size)) in
    (s₂, e₂, h₂)

-- and all of them.
pub encode_all-Holds :
    (args : List Arg) (bytes : List ℕ) (s : LogLine)
    → Holds bytes s
    → length bytes + length (args_bytes args) < 2 ^ 63
    → (s' : LogLine) × (encode_all args s ≡ some s') × Holds (bytes ++ args_bytes args) s'
unfolding encode_all args_bytes
encode_all-Holds [] bytes s h lt = (s, refl, rw (append-nil bytes) h)
encode_all-Holds (a ∷ args) bytes s h lt =
    let size = length-append (arg_bytes a) (args_bytes args) in
    let (s₁, e₁, h₁) = encode-Holds a bytes s h (omega (arith, size)) in
    let (s₂, e₂, h₂) =
      encode_all-Holds args (bytes ++ arg_bytes a) s₁ h₁
        (omega (arith, size, length-append bytes (arg_bytes a))) in
    (s₂, rw (e₁, ◌>>=◌) e₂, rw (sym (append_assoc bytes (arg_bytes a) (args_bytes args))) h₂)

-- Reading them.
kind_of-tuple_index : (k : Kind) → kind_of (tuple_index k) ≡ some k
unfolding kind_of tuple_index
kind_of-tuple_index bool_kind = refl
kind_of-tuple_index int8 = refl
kind_of-tuple_index uint8 = refl
kind_of-tuple_index uint32 = refl
kind_of-tuple_index uint64 = refl
kind_of-tuple_index int32 = refl
kind_of-tuple_index int64 = refl
kind_of-tuple_index double = refl
kind_of-tuple_index float = refl
kind_of-tuple_index int16 = refl
kind_of-tuple_index uint16 = refl

read_text_back :
    (cs rest : List ℕ) → All (λ c. c ≢ 0) cs → read_text (cs ++ 0 ∷ rest) ≡ some (map char cs, rest)
unfolding read_text
read_text_back [] rest h = refl
read_text_back (c ∷ cs) rest h = elim (Bool-cases (c == 0)) [
  | inl e ↦ absurd (h.0 ((==_iff c 0).0 e))
  | inr e ↦ rw (e) (rw (read_text_back cs rest h.1) refl)
]

decode0-number :
    (k : Kind) (w : ℕ) (rest : List ℕ)
    → w < words (size_of k)
    → decode0 (tuple_index k) (le_bytes (size_of k) w ++ rest) ≡ some (some (value k w ∷ [], rest))
unfolding decode0
decode0-number k w rest h =
    rw (kind_of-tuple_index k, decode0) (rw (read_word-le_bytes (size_of k) w rest h, ◌>>=◌) refl)

decode0-text :
    (cs rest : List ℕ)
    → All (λ c. c ≢ 0) cs
    → decode0 12 (cs ++ 0 ∷ rest) ≡ some (some (map char cs, rest))
unfolding decode0 kind_of
decode0-text cs rest h = rw (read_text_back cs rest h) refl

decode_step :
    (id fuel : ℕ) (bs rest : List ℕ) (is more : List Item)
    → decode0 id bs ≡ some (some (is, rest))
    → decode fuel rest ≡ some more
    → decode (suc fuel) (id ∷ bs) ≡ some (is ++ more)
unfolding decode
decode_step id fuel bs rest is more e f = rw (e, ◌>>=◌) (rw (f, ◌>>=◌) refl)

decode_none : (fuel : ℕ) → decode (suc fuel) [] ≡ some []
unfolding decode
decode_none fuel = refl

pub decode-args_bytes :
    (args : List Arg) (fuel : ℕ)
    → length (args_bytes args) < fuel
    → All IsArg args
    → decode fuel (args_bytes args) ≡ some (args_items args)
unfolding args_bytes args_items IsArg
decode-args_bytes args zero f h = absurd (omega arith)
decode-args_bytes [] (suc fuel) f h = decode_none fuel
decode-args_bytes (number k w ∷ args) (suc fuel) f h =
    let size = length-append (le_bytes (size_of k) w) (args_bytes args) in
    decode_step (tuple_index k) fuel (le_bytes (size_of k) w ++ args_bytes args) (args_bytes args)
      (value k w ∷ []) (args_items args) (decode0-number k w (args_bytes args) h.0)
      (decode-args_bytes args fuel (omega (arith, size)) h.1)
decode-args_bytes (c_str none ∷ args) (suc fuel) f h = decode-args_bytes args (suc fuel) f h.1
decode-args_bytes (c_str (some []) ∷ args) (suc fuel) f h = decode-args_bytes args (suc fuel) f h.1
decode-args_bytes (c_str (some (c ∷ cs)) ∷ args) (suc fuel) f h =
    let size = length-append (cs ++ 0 ∷ []) (args_bytes args) in
    let last = length-append cs (0 ∷ []) in
    ap (λ bs. decode (suc fuel) (12 ∷ bs)) (append_assoc (c ∷ cs) (0 ∷ []) (args_bytes args))
    ∙ decode_step 12 fuel ((c ∷ cs) ++ 0 ∷ args_bytes args) (args_bytes args) (map char (c ∷ cs))
        (args_items args) (decode0-text (c ∷ cs) (args_bytes args) h.0)
        (decode-args_bytes args fuel (omega (arith, size, last)) h.1)
