-- ===== src/Common/Int/Machine.antt =====
-- 64-bit integers, and `time.Duration`, which is one.
use Prim.Native.Nat.{◌-◌, ◌^◌}
use mathlib.Core.Bool.{Bool, ◌&&◌}
use vex_pay.Common.Tests.{if◌then◌else◌}
use vex_pay.Common.Int.{ℤ, pos, negsuc, ltb_ℤ, leb_ℤ, ◌+ℤ◌, ◌-ℤ◌}

abbrev pub max_int64 : ℤ
max_int64 = pos (2 ^ 63 - 1)

abbrev pub min_int64 : ℤ
min_int64 = negsuc (2 ^ 63 - 1)

abbrev pub in_int64 : ℤ → Bool
in_int64 x = leb_ℤ min_int64 x && leb_ℤ x max_int64

-- the sum, difference or negation of 64-bit integers, which is at most one range away
unfoldable pub wrap64 : ℤ → ℤ
wrap64 x =
    if ltb_ℤ max_int64 x
    then x -ℤ pos (2 ^ 64)
    else if ltb_ℤ x min_int64
    then x +ℤ pos (2 ^ 64)
    else x

-- `t.Sub(u)`: the difference stops at the ends of the range
unfoldable pub time_sub : ℤ → ℤ → ℤ
time_sub t u =
    let d = t -ℤ u in
    if ltb_ℤ max_int64 d then max_int64 else if ltb_ℤ d min_int64 then min_int64 else d
