-- ===== src/Prelude/Floats.antt =====
-- Python's floats, of which the program compares, adds and subtracts times in seconds. The type and
-- its operations are a parameter; the laws are those of IEEE comparison, which hold of NaN too.
use Prim.Native.Nat.{ℕ}
use mathlib.Core.Path.{◌≡◌}
use mathlib.Core.Bool.{Bool, true, false}
use mathlib.Core.Option.{Option}
use Prim.Native.String.{String}

pub record Float : Type 1 where
  pub Num : Type 0
  pub lt : Num → Num → Bool
  pub le : Num → Num → Bool
  pub add : Num → Num → Num
  pub sub : Num → Num → Num
  -- a decimal literal, in hundredths, and its opposite
  pub lit : ℕ → Num
  pub neg : Num → Num
  -- `bool(x)`: false at zero only
  pub truthy : Num → Bool
  -- `int(x)` in decimal digits, as an f-string shows it
  pub int_text : Num → String
  -- `float(s)` of a text
  pub parse : String → Option Num
  pub lt_irrefl : (a : Num) → lt a a ≡ false
  pub lt_trans : (a b c : Num) → lt a b ≡ true → lt b c ≡ true → lt a c ≡ true
