-- ===== src/Common/Time.antt =====
-- Instants are nanoseconds since a fixed origin; a `time.Duration` is an `int64` of nanoseconds.
use Prim.Native.Nat.{ℕ, ◌+◌, ◌-◌, ◌*◌, ◌≤◌}
use mathlib.Core.Path.{◌≡◌}
use mathlib.Core.Bool.{false}
use native.Mathlib.Omega.{arith}
use playgate.Common.Tests.{if◌then◌else◌}
use playgate.Common.Int.{ℤ, pos_part, ◌≤ℤ◌, pos, negsuc, sub_ℕ, ltb_ℤ, half_word, wrap64}

-- A duration outside of `int64` is cut to its nearest bound.
unfoldable pub saturate : ℤ → ℤ
saturate d =
    if ltb_ℤ (pos (half_word - 1)) d
    then pos (half_word - 1)
    else if ltb_ℤ d (negsuc (half_word - 1))
    then negsuc (half_word - 1)
    else d

-- `t.Sub(u)`.
unfoldable pub time_sub : ℕ → ℕ → ℤ
unfolding saturate
time_sub t u = saturate (sub_ℕ t u)

abbrev pub second : ℕ
second = 1_000_000_000

-- `time.Duration(n) * time.Second`, with `int64` overflow.
unfoldable pub seconds : ℤ → ℤ
unfolding wrap64
seconds (pos n) = wrap64 (pos (n * second))
seconds (negsuc n) = wrap64 (negsuc ((n + 1) * second - 1))

-- `time.Duration(n)` times a unit of so many nanoseconds, with `int64` overflow.
unfoldable pub times_unit : ℕ → ℤ → ℤ
unfolding wrap64
times_unit unit (pos n) = wrap64 (pos (n * unit))
times_unit unit (negsuc n) = wrap64 (negsuc ((n + 1) * unit - 1))

-- A difference that reaches a positive bound is a true difference of instants.
pub time_sub_reaches :
    (t u : ℕ) (d : ℤ) → pos 1 ≤ℤ d → ltb_ℤ (time_sub t u) d ≡ false → u + pos_part d ≤ t
unfolding time_sub
time_sub_reaches t u d p h = ground arith
