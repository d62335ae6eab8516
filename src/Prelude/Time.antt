-- ===== src/Prelude/Time.antt =====
-- Go's `time.Time` and `time.Duration`, in nanoseconds. An instant counts from Go's zero time; it
-- has a wider range than any value that the program reaches, so it does not wrap. A duration is an
-- `int64`, and `Sub` stops at its bounds as Go's does.
use mathlib.Core.Bool.{Bool}
use family_finance_os.Prelude.Tests.{if◌then◌else◌}
use Prim.Native.Nat.{◌/◌}
use family_finance_os.Prelude.Int.{ℤ, pos, negsuc, ◌+ℤ◌, ◌-ℤ◌, ltb_ℤ, eqb_ℤ}
use family_finance_os.Prelude.Word.{max_int64, min_int64}

abbrev pub Time : Type 0
Time = ℤ

abbrev pub Duration : Type 0
Duration = ℤ

abbrev pub is_zero : Time → Bool
is_zero t = eqb_ℤ t (pos 0)

abbrev pub before : Time → Time → Bool
before a b = ltb_ℤ a b

abbrev pub after : Time → Time → Bool
after a b = ltb_ℤ b a

abbrev pub add_time : Time → Duration → Time
add_time t d = t +ℤ d

abbrev pub clamp64 : ℤ → ℤ
clamp64 z = if ltb_ℤ max_int64 z then max_int64 else if ltb_ℤ z min_int64 then min_int64 else z

-- `a.Sub(b)`
abbrev pub sub_time : Time → Time → Duration
sub_time a b = clamp64 (a -ℤ b)

abbrev pub second : Duration
second = pos 1_000_000_000

abbrev pub minute : Duration
minute = pos 60_000_000_000

-- The instant 1970-01-01 00:00:00 UTC.
abbrev pub unix_epoch : Time
unix_epoch = pos 62_135_596_800_000_000_000

-- Whole seconds of a duration, rounded down.
abbrev pub floor_seconds : ℤ → ℤ
floor_seconds (pos n) = pos (n / 1_000_000_000)
floor_seconds (negsuc n) = negsuc (n / 1_000_000_000)

-- `t.Unix()`
abbrev pub unix : Time → ℤ
unix t = floor_seconds (t -ℤ unix_epoch)
