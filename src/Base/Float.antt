-- ===== src/Base/Float.antt =====
-- Go's `float64` as an interface: the operations that the program calls, and no more.
use mathlib.Core.Bool.{Bool}
use mathlib.Core.List.{List}
use trimetry.Base.Int.{ℤ}

pub record FloatOps : Type 1 where
  pub Float : Type 0
  pub of_int : ℤ → Float
  pub add : Float → Float → Float
  pub sub : Float → Float → Float
  pub mul : Float → Float → Float
  pub div : Float → Float → Float
  pub lt : Float → Float → Bool
  pub eq : Float → Float → Bool
  -- `int(math.Floor(x))` and `int(math.Ceil(x))`
  pub floor : Float → ℤ
  pub ceil : Float → ℤ
  pub round : Float → Float
  pub abs : Float → Float
  pub sqrt : Float → Float
  pub log10 : Float → Float
  pub pow : Float → Float → Float
  pub is_nan : Float → Bool
  pub is_inf : Float → Bool
  -- `sort.Float64s`
  pub sort : List Float → List Float
