-- ===== src/Convert/Clock.antt =====
-- project_about/feedproxy/convertservice/convert_utils.h: `TimeAdd`. Of the static `timeInfo` it is `tm_isdst`
-- that one call leaves to the next: `mktime` reads and sets it, and the other fields that it reads are written
-- before. What `mktime`, the sum and `localtime` make of a time in the zone of the process is a parameter; it
-- gives numbers that print, and the new `tm_isdst`.
use demo_code.Prelude.{
  ℕ, zero, suc, ◌+◌, ◌-◌, ◌/◌, ◌%◌, ◌==◌, ◌||◌, if◌then◌else◌, Bool, ℤ, pos, ◌-ℤ◌, List, [], ◌∷◌,
  ◌++◌, take, drop, Option, none, some, ◌>>=◌, ◌≡◌, >>=-eq-some, arith,
}
use demo_code.FileCrop.{atoi}

-- `std::tm`, as `TimeAdd` fills it in.
pub record Tm : Type 0 where
  pub tm_year : ℤ
  pub tm_mon : ℤ
  pub tm_mday : ℤ
  pub tm_hour : ℤ
  pub tm_min : ℤ
  pub tm_sec : ℤ

-- What is printed: the fields of `localtime`, with 1900 years and 1 month added.
pub record Stamp : Type 0 where
  pub year : ℕ
  pub month : ℕ
  pub day : ℕ
  pub hour : ℕ
  pub minute : ℕ
  pub second : ℕ

unfoldable pub is_symbol : ℕ → Bool
is_symbol c = c == b'-' || (c == b' ' || c == b':')

-- The places of the symbols, from place `i` on.
unfoldable pub symbol_places : ℕ → List ℕ → List ℕ
unfolding is_symbol
symbol_places i [] = []
symbol_places i (c ∷ cs) =
    let rest = symbol_places (suc i) cs in if is_symbol c then i ∷ rest else rest

-- `time.substr(from, to - from)`
unfoldable pub between : List ℕ → ℕ → ℕ → List ℕ
between time from to = take (to - from) (drop from time)

-- The fields between five symbols. `none` is a sixth symbol, which is written past the end of `symbolPos`;
-- `some none` is fewer than five.
unfoldable pub read_tm : List ℕ → List ℕ → Option (Option Tm)
unfolding between atoi
read_tm time (a ∷ b ∷ c ∷ d ∷ e ∷ []) = some (
    some (record {
      tm_year = atoi (between time 0 a) -ℤ pos 1900;
      tm_mon = atoi (between time (a + 1) b) -ℤ pos 1;
      tm_mday = atoi (between time (b + 1) c);
      tm_hour = atoi (between time (c + 1) d);
      tm_min = atoi (between time (d + 1) e);
      tm_sec = atoi (drop (e + 1) time);
    }))
read_tm time (a ∷ b ∷ c ∷ d ∷ e ∷ f ∷ more) = none
read_tm time fewer = some none

-- "%4d" of a year from 1 on with at most `width` digits, where `fill` is the blank before it.
unfoldable pub print_number : ℕ → ℕ → ℕ → List ℕ
print_number fill zero n = []
print_number fill (suc width) n =
    let low = print_number fill width (n / 10) in
    (if n == 0 then (low ++ fill ∷ []) else low ++ (b'0' + n % 10) ∷ [])

-- "%02d" of a number below 100.
unfoldable pub print_2 : ℕ → List ℕ
print_2 n = (b'0' + n / 10 % 10) ∷ (b'0' + n % 10) ∷ []

unfoldable pub print_stamp : Stamp → List ℕ
unfolding print_number print_2
print_stamp s =
    print_number b' ' 4 s.year
    ++ (b'-'
        ∷ (print_2 s.month
            ++ (b'-'
                ∷ (print_2 s.day
                    ++ (b' '
                        ∷ (print_2 s.hour
                            ++ (b':' ∷ (print_2 s.minute ++ (b':' ∷ print_2 s.second)))))))))

-- `mktime` in some zone, from `tm_isdst`, and what is printed after some seconds more.
abbrev pub Zone : Type 0
Zone = ℤ → Tm → ℤ → Stamp × ℤ

-- `TimeAdd`, with `tm_isdst` before and after.
unfoldable pub time_add : Zone → ℤ → List ℕ → ℤ → Option (List ℕ × ℤ)
unfolding symbol_places read_tm print_stamp
time_add zone tm_isdst time seconds = read_tm time (symbol_places 0 time) >>= λ (r : Option Tm).
    elim r [
      | none ↦ some ([], tm_isdst)
      | some tm ↦ (let made = zone tm_isdst tm seconds in some (print_stamp made.0, made.1))
    ]

-- In a zone that has no daylight saving time, `mktime` leaves the `tm_isdst` with which the program starts.
abbrev pub IsStandard : Zone → Type 0
IsStandard zone = (tm : Tm) (seconds : ℤ) → (zone (pos 0) tm seconds).1 ≡ pos 0

made_standard :
    (zone : Zone) (r : Option Tm) (x : List ℕ) (seconds s : ℤ)
    → IsStandard zone
    → (elim r as (λ _. Option (List ℕ × ℤ)) [
      | none ↦ some ([], pos 0)
      | some tm ↦ some (print_stamp (zone (pos 0) tm seconds).0, (zone (pos 0) tm seconds).1)
    ])
      ≡ some (x, s)
    → s ≡ pos 0
made_standard zone none x seconds s h e = ground (arith, e)
made_standard zone (some tm) x seconds s h e = ground (arith, e, h tm seconds)

pub time_add-IsStandard :
    (zone : Zone) (time x : List ℕ) (seconds s : ℤ)
    → IsStandard zone
    → time_add zone (pos 0) time seconds ≡ some (x, s)
    → s ≡ pos 0
unfolding time_add
time_add-IsStandard zone time x seconds s h e =
    let (r, f, g) = >>=-eq-some (read_tm time (symbol_places 0 time)) _ e in
    made_standard zone r x seconds s h g
