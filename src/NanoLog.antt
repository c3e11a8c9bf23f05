-- ===== src/NanoLog.antt =====
-- project_about/nano_log/eddid_nano_logger.h: `LogLine`, a line of the log as the bytes of its arguments. `none`
-- is a read or a write outside a buffer, or that the fuel ran out. Numbers and pointers are of a 64-bit
-- little-endian machine, and a number is the word that its bytes are.

pub mod Printing
pub mod Words
pub mod Buffer
pub mod Args
pub mod RoundTrip
pub mod Worker
mod Tests
use Prim.Native.String.{String}
use demo_code.Prelude.{
  ℕ, zero, suc, ◌+◌, ◌*◌, ◌/◌, ◌%◌, ◌^◌, leb, ◌==◌, if◌then◌else◌, List, [], ◌∷◌, ◌++◌, length,
  take, drop, get_elem?, Option, none, some, ◌>>=◌,
}

abbrev pub u64 : ℕ → ℕ
u64 n = n % 2 ^ 64

-- The arithmetic types of `SupportedTypes`.
pub data Kind : Type 0 where
  bool_kind : Kind
  int8 : Kind
  uint8 : Kind
  uint32 : Kind
  uint64 : Kind
  int32 : Kind
  int64 : Kind
  double : Kind
  float : Kind
  int16 : Kind
  uint16 : Kind

-- `TupleIndex`, the place of a type in `SupportedTypes`
unfoldable pub tuple_index : Kind → ℕ
tuple_index bool_kind = 0
tuple_index int8 = 1
tuple_index uint8 = 2
tuple_index uint32 = 3
tuple_index uint64 = 4
tuple_index int32 = 5
tuple_index int64 = 6
tuple_index double = 7
tuple_index float = 8
tuple_index int16 = 9
tuple_index uint16 = 10

-- `sizeof`
unfoldable pub size_of : Kind → ℕ
size_of bool_kind = 1
size_of int8 = 1
size_of uint8 = 1
size_of uint32 = 4
size_of uint64 = 8
size_of int32 = 4
size_of int64 = 8
size_of double = 8
size_of float = 4
size_of int16 = 2
size_of uint16 = 2

-- An argument of `<<`: a number, or a `char*` that is null or points to the bytes before a zero byte.
pub data Arg : Type 0 where
  number : (kind : Kind) (word : ℕ) → Arg
  c_str : (bytes : Option (List ℕ)) → Arg

-- What goes to the stream.
pub data Item : Type 0 where
  value : (kind : Kind) (word : ℕ) → Item
  char : (c : ℕ) → Item

-- The bytes of a word of some size.
unfoldable pub le_bytes : ℕ → ℕ → List ℕ
le_bytes zero w = []
le_bytes (suc k) w = w % 256 ∷ le_bytes k (w / 256)

-- `LogLine`. A buffer is the bytes that have been written to it.
pub record LogLine : Type 0 where
  pub buffer_size : ℕ
  pub used_byted : ℕ
  pub head_buffer : Option (List ℕ)
  pub stack_buffer : List ℕ

-- The arguments of `Encode0` in the constructor.
pub record Header : Type 0 where
  pub timestamp : ℕ
  pub process_id : ℕ
  pub thread_id : ℕ
  pub file : ℕ
  pub func : ℕ
  pub line_no : ℕ
  pub level : ℕ

-- The buffer that is in use, and a change of it.
unfoldable pub used_buffer : Option (List ℕ) → List ℕ → List ℕ
used_buffer none stack = stack
used_buffer (some head) stack = head

unfoldable pub put_head : List ℕ → Option (List ℕ) → Option (List ℕ)
put_head bs none = none
put_head bs (some head) = some bs

unfoldable pub put_stack : List ℕ → Option (List ℕ) → List ℕ → List ℕ
put_stack bs none stack = bs
put_stack bs (some head) stack = stack

unfoldable pub buffer : LogLine → List ℕ
unfolding used_buffer
buffer s = used_buffer s.head_buffer s.stack_buffer

unfoldable pub put_buffer : List ℕ → ℕ → LogLine → LogLine
unfolding put_head put_stack
put_buffer bs used s = record s {
  used_byted = used;
  head_buffer = put_head bs s.head_buffer;
  stack_buffer = put_stack bs s.head_buffer s.stack_buffer;
}

-- A write at `GetBuffer`, and `used_byted_` behind it.
unfoldable pub write : List ℕ → LogLine → Option LogLine
unfolding buffer put_buffer
write bytes s =
    if leb (s.used_byted + length bytes) s.buffer_size
    then some (put_buffer (take s.used_byted (buffer s) ++ bytes) (s.used_byted + length bytes) s)
    else none

abbrev pub default_stack_buffer_size : ℕ
default_stack_buffer_size = 512

-- `sizeof(stack_buffer_)`: `DEFAULT_STACK_SIZE` without two sizes, a pointer and 8.
abbrev pub stack_size : ℕ
stack_size = 224

unfoldable pub max : ℕ → ℕ → ℕ
max a b = if leb a b then b else a

unfoldable pub grown : Option (List ℕ) → ℕ → ℕ
grown none size = default_stack_buffer_size
grown (some head) size = u64 (size * 2)

-- `ResizeBuffer`
unfoldable pub resize_buffer : ℕ → LogLine → LogLine
unfolding max buffer grown
resize_buffer size s =
    let req_size = u64 (s.used_byted + size) in
    if leb req_size s.buffer_size then s else record s {
      buffer_size = max (grown s.head_buffer s.buffer_size) req_size;
      head_buffer = some (take s.used_byted (buffer s));
    }

-- `operator<<`: `Encode` of a number, and `EncodeStr`
unfoldable pub encode : Arg → LogLine → Option LogLine
unfolding write resize_buffer le_bytes tuple_index size_of
encode (number kind w) s = do
  s' ← write (tuple_index kind ∷ []) (resize_buffer (size_of kind + 1) s)
  write (le_bytes (size_of kind) w) s'
encode (c_str none) s = some s
encode (c_str (some [])) s = some s
encode (c_str (some (c ∷ cs))) s =
    write (12 ∷ (c ∷ cs) ++ 0 ∷ []) (resize_buffer (1 + length (c ∷ cs) + 1) s)

unfoldable pub encode_all : List Arg → LogLine → Option LogLine
unfolding encode
encode_all [] s = some s
encode_all (a ∷ args) s = encode a s >>= λ (s' : LogLine). encode_all args s'

-- `LogLine::LogLine`
unfoldable pub new_line : Header → Option LogLine
unfolding write le_bytes
new_line h = do
  s₁ ←
      write (le_bytes 8 h.timestamp)
        (record { buffer_size = stack_size; used_byted = 0; head_buffer = none; stack_buffer = [] })
  s₂ ← write (le_bytes 8 h.process_id) s₁
  s₃ ← write (le_bytes 8 h.thread_id) s₂
  s₄ ← write (le_bytes 8 h.file) s₃
  s₅ ← write (le_bytes 8 h.func) s₄
  s₆ ← write (le_bytes 4 h.line_no) s₅
  write (le_bytes 1 h.level) s₆
