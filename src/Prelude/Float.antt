-- ===== src/Prelude/Float.antt =====
-- Go's float64: the type and its operations are a parameter of the model. `FloatLaws` holds the
-- facts of IEEE 754 that some theorems need, each as a named hypothesis.
use Prim.Native.Nat.{ℕ}
use mathlib.Core.Path.{◌≡◌}
use mathlib.Core.Bool.{Bool, true, false}
use mmo.Prelude.Int.{ℤ}

pub record Float (F : Type 0) : Type 0 where
  pub num : ℕ → F  -- an integer constant
  pub half : F  -- the constant 0.5
  pub neg : F → F
  pub add : F → F → F
  pub sub : F → F → F
  pub mul : F → F → F
  pub div : F → F → F
  pub abs : F → F  -- math.Abs
  pub le : F → F → Bool
  pub lt : F → F → Bool
  pub eq : F → F → Bool
  pub floor : F → ℤ  -- int(math.Floor(x)), out of range whatever Go gives
  pub cos : F → F
  pub sin : F → F
  pub pi : F
  pub round32 : F → F  -- float64(float32(x))

-- Neither operand of a comparison that holds is a NaN, which is what `eq a a` says; numbers are
-- totally ordered.
pub record FloatLaws {F : Type 0} (fl : Float F) : Type 0 where
  pub le_num : (a b : F) → fl.le a b ≡ true → fl.eq b b ≡ true
  pub le_total :
      (a b : F) → fl.eq a a ≡ true → fl.eq b b ≡ true → fl.le a b ≡ false → fl.le b a ≡ true
  pub le_antisymm : (a b : F) → fl.le a b ≡ true → fl.le b a ≡ true → fl.eq a b ≡ true
  pub lt_irrefl : (a : F) → fl.lt a a ≡ false
