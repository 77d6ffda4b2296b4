-- ===== src/Base/Floats.antt =====
-- Binary64 arithmetic as an interface: the program's `f64` values and the operations it uses.
use Prim.Native.Nat.{ℕ}
use mathlib.Core.Path.{◌≡◌}
use mathlib.Core.Bool.{Bool, false}

pub record F64 : Type 1 where
  pub Float : Type 0
  pub of_nat : ℕ → Float
  pub add : Float → Float → Float
  pub sub : Float → Float → Float
  pub mul : Float → Float → Float
  pub div : Float → Float → Float
  pub neg : Float → Float
  pub ln : Float → Float
  pub fmin : Float → Float → Float
  -- `a < b`
  pub flt : Float → Float → Bool
  -- `a.total_cmp(b) != Greater`
  pub total_le : Float → Float → Bool
  -- `Duration::as_secs_f64`, of a duration in nanoseconds
  pub as_secs : ℕ → Float

-- `min` of any value with a number that is no NaN is not above that number; taking one away from a
-- value that is not above a bound leaves it not above the bound.
pub record Laws (f : F64) : Type 0 where
  pub fmin-le : (a : f.Float) (n : ℕ) → f.flt (f.of_nat n) (f.fmin a (f.of_nat n)) ≡ false
  pub sub_one-le :
      (a : f.Float) (n : ℕ)
      → f.flt (f.of_nat n) a ≡ false
      → f.flt (f.of_nat n) (f.sub a (f.of_nat 1)) ≡ false
