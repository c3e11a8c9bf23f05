-- ===== src/NanoLog/Words.antt =====
-- project_about/nano_log/eddid_nano_logger.h: words as bytes.
use demo_code.Prelude.{
  ℕ, zero, suc, ◌+◌, ◌*◌, ◌/◌, ◌<◌, le→leb, List, ◌++◌, length, length-append, take, drop,
  take-append, drop-append, some, ◌≡◌, refl, sym, ap, ◌∙◌, arith,
}
use demo_code.NanoLog.{le_bytes}
use demo_code.NanoLog.Printing.{of_le, read_word}

-- The words of some bytes.
unfoldable pub words : ℕ → ℕ
words zero = 1
words (suc k) = 256 * words k

pub length-le_bytes : (k w : ℕ) → length (le_bytes k w) ≡ k
unfolding le_bytes
length-le_bytes zero w = refl
length-le_bytes (suc k) w = ap suc (length-le_bytes k (w / 256))

of_le-le_bytes : (k w : ℕ) → w < words k → of_le (le_bytes k w) ≡ w
unfolding of_le le_bytes words
of_le-le_bytes zero w h = omega arith
of_le-le_bytes (suc k) w h = omega (arith, of_le-le_bytes k (w / 256) (omega arith))

-- A word that was written is read again, whatever follows it.
pub read_word-le_bytes :
    (k w : ℕ) (rest : List ℕ) → w < words k → read_word k (le_bytes k w ++ rest) ≡ some (w, rest)
unfolding read_word
read_word-le_bytes k w rest h =
    let bs = le_bytes k w in
    let size : length (bs ++ rest) ≡ k + length rest =
      omega (arith, length-append bs rest, length-le_bytes k w) in
    let taken : take k (bs ++ rest) ≡ bs =
      ap (λ n. take n (bs ++ rest)) (sym (length-le_bytes k w)) ∙ take-append bs rest in
    let left : drop k (bs ++ rest) ≡ rest =
      ap (λ n. drop n (bs ++ rest)) (sym (length-le_bytes k w)) ∙ drop-append bs rest in
    rw (size, taken, left, of_le-le_bytes k w h, le→leb k (k + length rest) (omega arith)) refl
