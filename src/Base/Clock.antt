-- ===== src/Base/Clock.antt =====
-- Go's `time.Time`, as nanoseconds from the Unix epoch, with what the program asks of it.
use trimetry.Base.Tests.{ltb, if◌then◌else◌}
use trimetry.Base.Int.{ℤ, pos, negsuc, pos_part, neg_part, sub_ℕ, eqb_ℤ, two_63, wrap64}
use Prim.Native.Nat.{suc, ◌+◌, ◌-◌, ◌*◌, ◌/◌}
use mathlib.Core.Bool.{Bool}

abbrev pub Time : Type 0
Time = ℤ

-- `time.Time{}`: the first instant of year 1.
abbrev pub zero_time : Time
zero_time = negsuc 62_135_596_799_999_999_999

abbrev pub is_zero : Time → Bool
is_zero t = eqb_ℤ t zero_time

-- `t.UnixMilli()` rounds towards the past.
abbrev pub unix_milli : Time → ℤ
unix_milli (pos n) = pos (n / 1_000_000)
unix_milli (negsuc n) = negsuc (n / 1_000_000)

-- A `time.Duration` is an `int64` of nanoseconds, and `t.Sub(u)` saturates.
abbrev pub saturate : ℤ → ℤ
saturate (pos n) = if ltb n two_63 then pos n else pos (two_63 - 1)
saturate (negsuc n) = if ltb n two_63 then negsuc n else negsuc (two_63 - 1)

unfoldable pub sub_time : Time → Time → ℤ
sub_time t u = saturate (sub_ℕ (pos_part t + neg_part u) (neg_part t + pos_part u))

-- `d.Milliseconds()` rounds towards zero.
unfoldable pub milliseconds : ℤ → ℤ
milliseconds (pos n) = pos (n / 1_000_000)
milliseconds (negsuc n) = sub_ℕ 0 (suc n / 1_000_000)

-- time.Duration(ms) * time.Millisecond, which wraps around.
unfoldable pub of_milliseconds : ℤ → ℤ
of_milliseconds ms = wrap64 (pos_part ms * 1_000_000) (neg_part ms * 1_000_000)
