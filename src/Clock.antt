-- ===== src/Clock.antt =====
-- Go's time.Time and time.Duration. A time is a count of nanoseconds since the zero time (the
-- year 1), which is 0; a duration is an int64 of nanoseconds, as an integer.
use disturbancesmlx.Prelude.{
  ℕ, ◌%◌, ◌*◌, ◌^◌, ◌-◌, Bool, leb, ltb, ◌==◌, if◌then◌else◌, ℤ, pos, negsuc, sub_ℕ,
}

abbrev pub Time : Type 0
Time = ℕ

abbrev pub Duration : Type 0
Duration = ℤ

abbrev pub zero_time : Time
zero_time = 0

abbrev pub second : ℕ
second = 1_000_000_000

abbrev pub millisecond : ℕ
millisecond = 1_000_000

abbrev pub minute : ℕ
minute = 60 * second

abbrev pub hour : ℕ
hour = 60 * minute

-- t.After(u), t.Before(u), t.IsZero()
abbrev pub after : Time → Time → Bool
after t u = ltb u t

abbrev pub before : Time → Time → Bool
before t u = ltb t u

abbrev pub is_zero : Time → Bool
is_zero t = t == 0

abbrev pub max_int64 : ℕ
max_int64 = 9_223_372_036_854_775_807

-- t.Sub(u) saturates at the ends of int64.
abbrev saturate : ℤ → ℤ
saturate (pos n) = if leb n max_int64 then pos n else pos max_int64
saturate (negsuc n) = if leb n max_int64 then negsuc n else negsuc max_int64

unfoldable pub sub : Time → Time → Duration
sub t u = saturate (sub_ℕ t u)

-- int64 arithmetic wraps around at 2^63.
abbrev pub wrap_int64 : ℤ → ℤ
wrap_int64 (pos n) =
    let low = n % 2 ^ 64 in if ltb low (2 ^ 63) then pos low else negsuc (2 ^ 64 - low - 1)
wrap_int64 (negsuc n) =
    let low = n % 2 ^ 64 in if ltb low (2 ^ 63) then negsuc low else pos (2 ^ 64 - low - 1)
