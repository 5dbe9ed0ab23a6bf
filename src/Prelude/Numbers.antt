-- ===== src/Prelude/Numbers.antt =====
-- Python's floats enter as a type with the operations that the code applies to them.
use Prim.Native.Nat.{ℕ}
use mathlib.Core.Bool.{Bool}

-- Python's integers: `negsuc n` is -(n + 1).
pub data ℤ : Type 0 where
  pos : ℕ → ℤ
  negsuc : ℕ → ℤ

pub record Floats : Type 1 where
  pub Float : Type 0
  pub zero_float : Float
  pub of_int : ℤ → Float
  -- The literal p / q, as `literal 1 4` for 0.25.
  pub literal : ℕ → ℕ → Float
  pub add : Float → Float → Float
  pub sub : Float → Float → Float
  pub div : Float → Float → Float
  pub abs : Float → Float
  pub is_finite : Float → Bool
  pub infinity : Float
  -- `a <= b`, `a < b` and `a == b`
  pub le : Float → Float → Bool
  pub lt : Float → Float → Bool
  pub eq : Float → Float → Bool
