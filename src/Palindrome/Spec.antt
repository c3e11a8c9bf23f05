-- ===== src/Palindrome/Spec.antt =====
-- What the two functions of longest_palindrome.cpp promise.
use demo_code.Prelude.{ℕ, ◌+◌, ◌-◌, ◌≤◌, ◌<◌, List, length, get_or, ◌≡◌}
use demo_code.Palindrome.{substr}

-- The `size` items of `s` from `start` read the same from both ends.
pub record IsPalindrome (s : List ℕ) (start size : ℕ) : Type 0 where
  pub inside : start + size ≤ length s
  pub mirror : (i : ℕ) → i < size → get_or s (start + i) 0 ≡ get_or s (start + (size - 1 - i)) 0

-- `result` is a palindrome in `s`, and none in `s` is longer.
pub record IsLongest (s result : List ℕ) : Type 0 where
  pub start : ℕ
  pub size : ℕ
  pub found : IsPalindrome s start size
  pub is_substr : result ≡ substr s start size
  pub longest : (a m : ℕ) → IsPalindrome s a m → m ≤ size
