-- ===== src/NanoLog/Printing.antt =====
-- project_about/nano_log/eddid_nano_logger.h: `Decode`, `stringify` and `get_level` of a `LogLine`.
use Prim.Native.String.{String}
use demo_code.Prelude.{
  ℕ, zero, suc, ◌+◌, ◌*◌, leb, ◌==◌, if◌then◌else◌, List, [], ◌∷◌, ◌++◌, length, take, drop,
  get_elem?, Option, none, some, ◌>>=◌,
}
use demo_code.NanoLog.{
  Kind, LogLine, Header, Item, value, char, bool_kind, int8, uint8, uint32, uint64, int32, int64,
  double, float, int16, uint16, size_of, buffer,
}

-- The word that bytes are.
unfoldable pub of_le : List ℕ → ℕ
of_le [] = 0
of_le (b ∷ bs) = b + 256 * of_le bs

-- `*reinterpret_cast<T*>(buf)`, and what is behind it.
unfoldable pub read_word : ℕ → List ℕ → Option (ℕ × List ℕ)
unfolding of_le
read_word k bs = if leb k (length bs) then some (of_le (take k bs), drop k bs) else none

-- `Decode0` of a `char*`
unfoldable pub read_text : List ℕ → Option (List Item × List ℕ)
read_text [] = none
read_text (c ∷ cs) =
    let more = (do r ← read_text cs; some (char c ∷ r.0, r.1)) in
    if c == 0 then some ([], cs) else more

-- The case of an id in `Decode`.
unfoldable pub kind_of : ℕ → Option Kind
kind_of id =
    get_elem?
      (bool_kind ∷ int8 ∷ uint8 ∷ uint32 ∷ uint64 ∷ int32 ∷ int64 ∷ double ∷ float ∷ int16 ∷ uint16
        ∷ [])
      id

-- `Decode0` by the type id. An id of `const char*`, which no argument is written with, leads to a pointer and
-- is a fault here; `some none` is an id without a case.
unfoldable pub decode0 : ℕ → List ℕ → Option (Option (List Item × List ℕ))
unfolding read_word read_text kind_of
decode0 id bs = elim (kind_of id) [
  | some kind ↦ (do r ← read_word (size_of kind) bs; some (some (value kind r.0 ∷ [], r.1)))
  | none ↦
      if id == 12
      then (do r ← read_text bs; some (some r))
      else if id == 11
      then none
      else some none
]

-- `Decode`, on fuel
unfoldable pub decode : ℕ → List ℕ → Option (List Item)
unfolding decode0
decode zero bs = none
decode (suc fuel) [] = some []
decode (suc fuel) (id ∷ bs) = decode0 id bs >>= λ (r : Option (List Item × List ℕ)). elim r [
  | none ↦ some []
  | some p ↦ (do more ← decode fuel p.1; some (p.0 ++ more))
]

-- `to_string`
unfoldable pub to_string : ℕ → String
to_string level =
    let names : List String =
      "STDERR" ∷ "EMERG" ∷ "ALERT" ∷ "CRIT" ∷ "ERR" ∷ "WARN" ∷ "NOTICE" ∷ "INFO" ∷ "DEBUG" ∷ [] in
    elim (get_elem? names level) [ none ↦ "KNOWN" | some name ↦ name ]

-- `stringify`: what the line begins with, the name of its level, and the arguments.
unfoldable pub stringify : LogLine → Option (Header × String × List Item)
unfolding buffer read_word decode to_string
stringify s = do
  timestamp ← read_word 8 (take s.used_byted (buffer s))
  process_id ← read_word 8 timestamp.1
  thread_id ← read_word 8 process_id.1
  file ← read_word 8 thread_id.1
  func ← read_word 8 file.1
  line_no ← read_word 4 func.1
  level ← read_word 1 line_no.1
  items ← decode (suc (length level.1)) level.1
  some (
    record {
      timestamp = timestamp.0;
      process_id = process_id.0;
      thread_id = thread_id.0;
      file = file.0;
      func = func.0;
      line_no = line_no.0;
      level = level.0;
    },
    to_string level.0,
    items,
  )

-- `get_level`: the byte behind a number of 8 bytes, a thread, two pointers and a number of 4 bytes.
unfoldable pub get_level : LogLine → Option ℕ
unfolding buffer
get_level s = get_elem? (buffer s) (8 + 8 + 8 + 8 + 4)
