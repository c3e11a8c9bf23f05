-- ===== src/NanoLog/Buffer.antt =====
-- project_about/nano_log/eddid_nano_logger.h: `GetBuffer` and `ResizeBuffer`.
use demo_code.Prelude.{
  ℕ, ◌+◌, ◌^◌, ◌<◌, ◌≤◌, leb, le→leb, leb→le, Bool-cases, List, [], ◌∷◌, ◌++◌, length,
  length-append, take, Option, none, some, ◌≡◌, refl, ap, ◌∙◌, arith, inl, inr,
}
use demo_code.NanoLog.{
  LogLine, buffer, used_buffer, put_head, put_stack, grown, put_buffer, write, resize_buffer, max,
  u64,
}

-- The line holds these bytes, in a buffer that is large enough.
pub record Holds (bytes : List ℕ) (s : LogLine) : Type 0 where
  pub held : buffer s ≡ bytes
  pub counted : s.used_byted ≡ length bytes
  pub fits : length bytes ≤ s.buffer_size

take_all : (xs : List ℕ) → take (length xs) xs ≡ xs
take_all [] = refl
take_all (x ∷ xs) = ap (λ ys. x ∷ ys) (take_all xs)

used-put :
    (bs : List ℕ) (head : Option (List ℕ)) (stack : List ℕ)
    → used_buffer (put_head bs head) (put_stack bs head stack) ≡ bs
unfolding used_buffer put_head put_stack
used-put bs none stack = refl
used-put bs (some head) stack = refl

pub taken : (bytes : List ℕ) (s : LogLine) → Holds bytes s → take s.used_byted (buffer s) ≡ bytes
taken bytes s h = rw (h.held, h.counted) (take_all bytes)

pub write-Holds :
    (bytes more : List ℕ) (s : LogLine)
    → Holds bytes s
    → length bytes + length more ≤ s.buffer_size
    → (s' : LogLine) × (write more s ≡ some s')
      × Holds (bytes ++ more) s'
      × (s'.buffer_size ≡ s.buffer_size)
unfolding write buffer put_buffer
write-Holds bytes more s h le = (
  put_buffer (take s.used_byted (buffer s) ++ more) (s.used_byted + length more) s,
  rw (le→leb (s.used_byted + length more) s.buffer_size (omega (arith, h.counted))) refl,
  record {
    held =
        used-put (take s.used_byted (buffer s) ++ more) s.head_buffer s.stack_buffer
        ∙ ap (λ xs. xs ++ more) (taken bytes s h);
    counted = omega (arith, h.counted, length-append bytes more);
    fits = omega (arith, length-append bytes more);
  },
  refl,
)

max_ge : (a b : ℕ) → b ≤ max a b
unfolding max
max_ge a b = ground arith

pub resize_buffer-Holds :
    (bytes : List ℕ) (n : ℕ) (s : LogLine)
    → Holds bytes s
    → length bytes + n < 2 ^ 63
    → Holds bytes (resize_buffer n s) × (length bytes + n ≤ (resize_buffer n s).buffer_size)
unfolding resize_buffer buffer used_buffer
resize_buffer-Holds bytes n s h lt =
    let req : u64 (s.used_byted + n) ≡ length bytes + n = omega (arith, h.counted) in
    elim (Bool-cases (leb (u64 (s.used_byted + n)) s.buffer_size)) [
      | inl e ↦ rw (e) (h, omega (arith, req, leb→le (u64 (s.used_byted + n)) s.buffer_size e))
      | inr e ↦ rw (e) (
        record {
          held = taken bytes s h;
          counted = h.counted;
          fits =
              omega
                (arith, req, max_ge (grown s.head_buffer s.buffer_size) (u64 (s.used_byted + n)));
        },
        omega (arith, req, max_ge (grown s.head_buffer s.buffer_size) (u64 (s.used_byted + n))),
      )
    ]
