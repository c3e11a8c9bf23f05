-- ===== src/Palindrome/Tests.antt =====
-- The string of `main` in longest_palindrome.cpp.
use demo_code.Prelude.{ℕ, List, [], ◌∷◌, ◌≡◌, refl, arith}
use demo_code.Palindrome.{
  longest_palindrome1, longest_palindrome2, centers, center, keep, compare_lr, radii, radius,
  known_radius, store_radius, extend, spread,
}
use demo_code.Palindrome.Spec.{IsLongest}
use demo_code.Palindrome.Direct.{longest_palindrome1-IsLongest}
use demo_code.Palindrome.Linear.{longest_palindrome2-IsLongest}

abbrev babad : List ℕ
babad = b'b' ∷ b'a' ∷ b'b' ∷ b'a' ∷ b'd' ∷ []

longest1 : longest_palindrome1 babad ≡ b'a' ∷ b'b' ∷ b'a' ∷ []
unfolding longest_palindrome1 centers center keep compare_lr
longest1 = refl

longest2 : longest_palindrome2 babad ≡ b'b' ∷ b'a' ∷ b'b' ∷ []
unfolding longest_palindrome2 radii radius known_radius store_radius extend spread
longest2 = refl

longest_palindrome1-IsLongest_example : IsLongest babad (longest_palindrome1 babad)
longest_palindrome1-IsLongest_example = longest_palindrome1-IsLongest babad (omega arith)

longest_palindrome2-IsLongest_example : IsLongest babad (longest_palindrome2 babad)
longest_palindrome2-IsLongest_example = longest_palindrome2-IsLongest babad
