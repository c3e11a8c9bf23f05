-- ===== src/Convert/HumanTime.antt =====
-- project_about/feedproxy/convertservice/convert_utils.h: `CalHumanTime`, which makes of minutes from
-- midnight in UTC the time of day eight hours later, as hours, minutes and seconds in decimal.
use demo_code.Prelude.{
  ℕ, zero, suc, ◌+◌, ◌-◌, ◌*◌, ◌/◌, ◌%◌, ◌<◌, ◌≡◌, refl, ap, ◌∙◌, arith, ◌==◌, ℤ, pos, negsuc,
  sub_ℕ, ◌+ℤ◌, Bool, true, false, if◌then◌else◌, leb, ◌&&◌, Bool-cases, inl, inr, ==_iff,
}

-- `/`, `%` and `*` of an `int` and a positive constant; division rounds towards 0.
abbrev pub quot : ℤ → ℕ → ℤ
quot (pos n) d = pos (n / d)
quot (negsuc n) d = sub_ℕ 0 (suc n / d)

abbrev pub rem : ℤ → ℕ → ℤ
rem (pos n) d = pos (n % d)
rem (negsuc n) d = sub_ℕ 0 (suc n % d)

abbrev pub times : ℤ → ℕ → ℤ
times (pos n) k = pos (n * k)
times (negsuc n) k = sub_ℕ 0 (suc n * k)

abbrev pub is_negative : ℤ → Bool
is_negative (pos n) = false
is_negative (negsuc n) = true

abbrev pub is_zero : ℤ → Bool
is_zero (pos n) = n == 0
is_zero (negsuc n) = false

-- The result of both branches.
unfoldable pub human : ℤ → ℤ → ℤ
human now_hour now_min = times now_hour 10000 +ℤ times now_min 100

-- The branch of a time before midnight.
unfoldable pub before_midnight : ℤ → ℤ
unfolding human
before_midnight time =
    let hour = quot time 60 in
    let minutes = rem time 60 in
    let now_hour = pos 8 +ℤ hour in
    let now_hour = if is_negative now_hour then rem now_hour 24 +ℤ pos 24 else now_hour in
    let earlier = now_hour +ℤ negsuc 0 in
    if is_zero minutes
    then human now_hour minutes
    else human (if is_negative earlier then earlier +ℤ pos 24 else earlier) (minutes +ℤ pos 60)

-- `CalHumanTime`
unfoldable pub cal_human_time : ℤ → ℤ
unfolding human before_midnight
cal_human_time (pos zero) = pos 80000
cal_human_time (pos (suc n)) =
    let time = pos (suc n) in human (rem (pos 8 +ℤ quot time 60) 24) (rem time 60)
cal_human_time (negsuc n) = before_midnight (negsuc n)

-- The time of day at a minute of the day, as the clock shows it.
unfoldable pub clock : ℕ → ℕ
clock minute = minute / 60 * 10000 + minute % 60 * 100

-- Eight hours after a time, which may be before midnight: the minute of its day.
unfoldable pub minute_of_day : ℤ → ℕ
minute_of_day (pos n) = (480 + n) % 1440
minute_of_day (negsuc n) = (1920 - suc n % 1440) % 1440

-- The times -1920, -3360, -4800 and so on.
unfoldable pub is_midnight_before : ℤ → Bool
is_midnight_before (pos n) = false
is_midnight_before (negsuc n) = leb 1920 (suc n) && (suc n % 1440 == 480)

-- The hour that the branch finds, q whole hours before midnight.
hour_at : ℕ → ℕ
hour_at q = if leb q 8 then 8 - q else 24 - (q - 8) % 24

hour_at-now_hour :
    (q : ℕ)
    → let h = pos 8 +ℤ sub_ℕ 0 q in
      (if is_negative h then rem h 24 +ℤ pos 24 else h) ≡ pos (hour_at q)
unfolding hour_at ◌+ℤ◌
hour_at-now_hour q = ground arith

-- What it shows r minutes earlier.
shown : ℕ → ℕ → ℕ
shown h r = if r == 0 then h * 10000 else (if h == 0 then 23 else h - 1) * 10000 + (60 - r) * 100

shown-human :
    (h r : ℕ)
    → r < 60
    → let earlier = pos h +ℤ negsuc 0 in
      (if is_zero (sub_ℕ 0 r)
        then human (pos h) (sub_ℕ 0 r)
        else human
            (if is_negative earlier then earlier +ℤ pos 24 else earlier)
            (sub_ℕ 0 r +ℤ pos 60))
      ≡ pos (shown h r)
unfolding shown human ◌+ℤ◌
shown-human h r l = ground arith

shown-whole :
    (q : ℕ)
    → shown (hour_at q) 0
      ≡ (if leb 32 q && (q % 24 == 8) then 240000 else (32 - q % 24) % 24 * 10000)
unfolding shown hour_at
shown-whole q = ground arith

shown-part :
    (q r : ℕ) → 0 < r → r < 60 → shown (hour_at q) r ≡ (31 - q % 24) % 24 * 10000 + (60 - r) * 100
unfolding shown hour_at
shown-part q r h l = ground arith

cal_human_time_pos : (n : ℕ) → cal_human_time (pos n) ≡ pos (clock (minute_of_day (pos n)))
unfolding cal_human_time clock minute_of_day human ◌+ℤ◌
cal_human_time_pos zero = refl
cal_human_time_pos (suc n) = ground arith

before_midnight-shown :
    (n : ℕ) → before_midnight (negsuc n) ≡ pos (shown (hour_at (suc n / 60)) (suc n % 60))
unfolding before_midnight
before_midnight-shown n =
    rw (hour_at-now_hour (suc n / 60))
      (shown-human (hour_at (suc n / 60)) (suc n % 60) (omega arith))

shown-clock :
    (n : ℕ)
    → shown (hour_at (suc n / 60)) (suc n % 60)
      ≡ (if is_midnight_before (negsuc n) then 240000 else clock (minute_of_day (negsuc n)))
unfolding is_midnight_before clock minute_of_day
shown-clock n = elim (Bool-cases (suc n % 60 == 0)) [
  | inl e ↦
      let z : suc n % 60 ≡ 0 = (==_iff (suc n % 60) 0).0 e in
      rw (z) (ground (arith, shown-whole (suc n / 60)))
  | inr e ↦
      let p : 0 < suc n % 60 = ground arith in
      ground (arith, shown-part (suc n / 60) (suc n % 60) p (omega arith))
]

-- `CalHumanTime` returns the time of day eight hours after its argument, which is in minutes and may be
-- negative, as the decimal number HHMM00. For the times -1920, -3360, -4800 and so on, for which that is
-- midnight, it returns 240000 and not 0.
pub cal_human_time-clock :
    (time : ℤ)
    → cal_human_time time
      ≡ pos (if is_midnight_before time then 240000 else clock (minute_of_day time))
unfolding is_midnight_before
cal_human_time-clock (pos n) = cal_human_time_pos n
cal_human_time-clock (negsuc n) =
    before_midnight_human n ∙ before_midnight-shown n ∙ ap pos (shown-clock n)
  where
    before_midnight_human : (n : ℕ) → cal_human_time (negsuc n) ≡ before_midnight (negsuc n)
    before_midnight_human n = unfold cal_human_time in refl
