-- ===== src/Common/Float.antt =====
-- `float64` as an interface: the operations that the program uses, and no law.
use Prim.Native.Nat.{ℕ}
use mathlib.Core.Bool.{Bool}
use playgate.Common.Int.{ℤ}

pub record Float64 : Type 1 where
  pub Carrier : Type 0
  pub lt : Carrier → Carrier → Bool
  pub le : Carrier → Carrier → Bool
  pub mul : Carrier → Carrier → Carrier
  -- `float64(n)` and `int(x)`.
  pub of_int : ℤ → Carrier
  pub to_int : Carrier → ℤ
  -- The constant m / n.
  pub lit : ℕ → ℕ → Carrier

-- `float32` beside `float64`: conversions between them, division and sign of `float32`, and what the
-- input path does on `float64` besides.
pub record Float32 : Type 1 where
  pub wide : Float64
  pub Carrier : Type 0
  pub widen : Carrier → wide.Carrier
  pub of_int : ℤ → Carrier
  pub div : Carrier → Carrier → Carrier
  pub neg : Carrier → Carrier
  pub add : wide.Carrier → wide.Carrier → wide.Carrier
  pub sub : wide.Carrier → wide.Carrier → wide.Carrier
