-- ===== src/NanoLog/RoundTrip.antt =====
-- project_about/nano_log/eddid_nano_logger.h: what is written to a `LogLine` is what `stringify` prints.
use demo_code.Prelude.{
  ℕ, suc, ◌+◌, ◌/◌, ◌%◌, ◌^◌, ◌<◌, List, [], ◌++◌, length, take, get_elem?, Option, none, some,
  ◌>>=◌, ◌≡◌, refl, sym, ap, ◌∙◌, arith,
}
use demo_code.Prelude.Sorted.{All}
use demo_code.NanoLog.{
  LogLine, Header, Arg, Item, le_bytes, write, encode_all, new_line, buffer, used_buffer,
  put_buffer, put_head, put_stack, stack_size,
}
use demo_code.NanoLog.Printing.{read_word, decode, stringify, get_level, to_string}
use demo_code.NanoLog.Words.{words, read_word-le_bytes}
use demo_code.NanoLog.Buffer.{Holds, taken}
use demo_code.NanoLog.Args.{args_bytes, args_items, IsArg, encode_all-Holds, decode-args_bytes}

-- The bytes of the header.
unfoldable pub header_bytes : Header → List ℕ
header_bytes h =
    le_bytes 8 h.timestamp
    ++ (le_bytes 8 h.process_id
        ++ (le_bytes 8 h.thread_id
            ++ (le_bytes 8 h.file
                ++ (le_bytes 8 h.func ++ (le_bytes 4 h.line_no ++ (le_bytes 1 h.level ++ []))))))

-- The fields have the sizes of their types.
pub record IsHeader (h : Header) : Type 0 where
  pub timestamp : h.timestamp < words 8
  pub process_id : h.process_id < words 8
  pub thread_id : h.thread_id < words 8
  pub file : h.file < words 8
  pub func : h.func < words 8
  pub line_no : h.line_no < words 4
  pub level : h.level < words 1

-- The line that the constructor makes.
unfoldable started : Header → LogLine
started h = record {
  buffer_size = stack_size;
  used_byted = 45;
  head_buffer = none;
  stack_buffer = header_bytes h;
}

new_line_lem : (h : Header) → new_line h ≡ some (started h)
unfolding started new_line write le_bytes header_bytes put_buffer put_head put_stack buffer
    used_buffer
new_line_lem h = refl

bind_some :
    {A : Type 0} {B : Type 0} (o : Option A) (x : A) (f : A → Option B)
    → o ≡ some x
    → (o >>= f) ≡ f x
bind_some o x f e = rw (e) refl

header_bytes-append :
    (h : Header) (bytes : List ℕ)
    → header_bytes h ++ bytes
      ≡ le_bytes 8 h.timestamp
        ++ (le_bytes 8 h.process_id
            ++ (le_bytes 8 h.thread_id
                ++ (le_bytes 8 h.file
                    ++ (le_bytes 8 h.func
                        ++ (le_bytes 4 h.line_no ++ (le_bytes 1 h.level ++ bytes))))))
unfolding header_bytes le_bytes
header_bytes-append h bytes = refl

stringify_lem :
    (h : Header) (bytes : List ℕ) (is : List Item) (s : LogLine)
    → IsHeader h
    → take s.used_byted (buffer s) ≡ header_bytes h ++ bytes
    → decode (suc (length bytes)) bytes ≡ some is
    → stringify s ≡ some (h, to_string h.level, is)
unfolding stringify
stringify_lem h bytes is s f e g =
    let r₇ = bytes in
    let r₆ : List ℕ = le_bytes 1 h.level ++ r₇ in
    let r₅ : List ℕ = le_bytes 4 h.line_no ++ r₆ in
    let r₄ : List ℕ = le_bytes 8 h.func ++ r₅ in
    let r₃ : List ℕ = le_bytes 8 h.file ++ r₄ in
    let r₂ : List ℕ = le_bytes 8 h.thread_id ++ r₃ in
    let r₁ : List ℕ = le_bytes 8 h.process_id ++ r₂ in
    bind_some (read_word 8 (take s.used_byted (buffer s))) (h.timestamp, r₁) _
      (ap (read_word 8) (e ∙ header_bytes-append h bytes)
        ∙ read_word-le_bytes 8 h.timestamp r₁ f.timestamp)
    ∙ bind_some (read_word 8 r₁) (h.process_id, r₂) _
        (read_word-le_bytes 8 h.process_id r₂ f.process_id)
    ∙ bind_some (read_word 8 r₂) (h.thread_id, r₃) _
        (read_word-le_bytes 8 h.thread_id r₃ f.thread_id)
    ∙ bind_some (read_word 8 r₃) (h.file, r₄) _ (read_word-le_bytes 8 h.file r₄ f.file)
    ∙ bind_some (read_word 8 r₄) (h.func, r₅) _ (read_word-le_bytes 8 h.func r₅ f.func)
    ∙ bind_some (read_word 4 r₅) (h.line_no, r₆) _ (read_word-le_bytes 4 h.line_no r₆ f.line_no)
    ∙ bind_some (read_word 1 r₆) (h.level, r₇) _ (read_word-le_bytes 1 h.level r₇ f.level)
    ∙ bind_some (decode (suc (length bytes)) bytes) is _ g

length-header_bytes : (h : Header) → length (header_bytes h) ≡ 45
unfolding header_bytes le_bytes
length-header_bytes h = refl

started-Holds : (h : Header) → Holds (header_bytes h) (started h)
unfolding started buffer used_buffer
started-Holds h = record {
  held = refl;
  counted = sym (length-header_bytes h);
  fits = omega (arith, length-header_bytes h);
}

logged :
    (h : Header) (args : List Arg)
    → 45 + length (args_bytes args) < 2 ^ 63
    → (s : LogLine) × ((do start ← new_line h; encode_all args start) ≡ some s)
      × Holds (header_bytes h ++ args_bytes args) s
logged h args lt =
    let (s, e, k) =
      encode_all-Holds args (header_bytes h) (started h) (started-Holds h)
        (omega (arith, length-header_bytes h)) in
    (s, bind_some (new_line h) (started h) (λ start. encode_all args start) (new_line_lem h) ∙ e, k)

-- A line whose numbers and pointers have the sizes of their types, whose texts have no zero byte, and whose
-- bytes are fewer than 2 ^ 63, is written without a fault however often the buffer grows, and `stringify` prints
-- its header, the name of its level and its arguments in their order: a number as its type and word, a text
-- as its bytes, and nothing for an empty text or a null pointer.
pub encode_all-stringify :
    (h : Header) (args : List Arg)
    → IsHeader h
    → All IsArg args
    → 45 + length (args_bytes args) < 2 ^ 63
    → (s : LogLine) × ((do start ← new_line h; encode_all args start) ≡ some s)
      × (stringify s ≡ some (h, to_string h.level, args_items args))
encode_all-stringify h args f g lt =
    let (s, e, k) = logged h args lt in
    (
      s,
      e,
      stringify_lem h (args_bytes args) (args_items args) s f
          (taken (header_bytes h ++ args_bytes args) s k)
          (decode-args_bytes args (suc (length (args_bytes args))) (omega arith) g),
    )

level_at :
    (h : Header) (bytes : List ℕ)
    → get_elem? (header_bytes h ++ bytes) 36 ≡ some (h.func / 256 / 256 / 256 / 256 % 256)
unfolding header_bytes le_bytes
level_at h bytes = refl

-- `get_level` of any line of fewer than 2 ^ 63 bytes returns the fifth byte of the pointer to the name of the
-- function, whatever the level is.
pub encode_all-get_level :
    (h : Header) (args : List Arg)
    → 45 + length (args_bytes args) < 2 ^ 63
    → (s : LogLine) × ((do start ← new_line h; encode_all args start) ≡ some s)
      × (get_level s ≡ some (h.func / 2 ^ 32 % 256))
unfolding get_level
encode_all-get_level h args lt =
    let (s, e, k) = logged h args lt in
    let byte : h.func / 256 / 256 / 256 / 256 % 256 ≡ h.func / 2 ^ 32 % 256 = omega arith in
    (s, e, rw (k.held, level_at h (args_bytes args), byte) refl)
