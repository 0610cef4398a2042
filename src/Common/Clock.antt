-- ===== src/Common/Clock.antt =====
-- time.Time and time.Duration. A time is its distance in nanoseconds from the zero time, so that
-- `IsZero` is a test for 0; no time before the zero time is modelled. A duration is an integer.
use openwrt_wattline.Common.Tests.{ltb, leb, if◌then◌else◌}
use openwrt_wattline.Common.Int.{ℤ, pos, negsuc, pos_part, neg_part}
use Prim.Native.Nat.{ℕ, ◌+◌, ◌-◌, ◌*◌, ◌^◌, min}
use mathlib.Core.Bool.{Bool}

abbrev pub Time : Type 0
Time = ℕ

abbrev pub Duration : Type 0
Duration = ℤ

abbrev pub zero_time : Time
zero_time = 0

abbrev pub is_zero : Time → Bool
is_zero t = leb t 0

abbrev pub before : Time → Time → Bool
before = ltb

-- t.Add(d)
abbrev pub add : Time → Duration → Time
add t d = t + pos_part d - neg_part d

-- t.Sub(u): the difference, held to the range of a Duration
abbrev pub since : Time → Time → Duration
since t u =
    if leb u t then pos (min (t - u) (2 ^ 63 - 1)) else negsuc (min (u - t - 1) (2 ^ 63 - 1))

abbrev pub second : ℕ
second = 1_000_000_000

abbrev pub minute : ℕ
minute = 60 * second

abbrev pub hour : ℕ
hour = 60 * minute
