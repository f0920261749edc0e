-- ===== src/Common/Doubles.antt =====
-- What the code does with a JavaScript number that need not be whole, and the documented behaviour
-- of IEEE 754 numbers that the theorems rely on. The laws hold of NaN too: no test is true of it.
use Prim.Native.Nat.{ℕ, ◌+◌, ◌-◌, ◌^◌, ◌*◌, ◌/◌}
use mathlib.Core.Path.{◌≡◌}
use mathlib.Core.Bool.{Bool, true, false}
use mathlib.Core.Option.{Option, none, some}
use native.Mathlib.Omega.{arith}
use legacy_match_platform.Common.Tests.{ltb, leb, nat_eq, if◌then◌else◌}

pub record Double (W : Type 0) : Type 0 where
  pub of_nat : ℕ → W
  pub infinity : W
  pub add : W → W → W
  pub sub : W → W → W
  pub mul : W → W → W
  pub div : W → W → W
  pub pow : W → W → W
  pub abs : W → W
  -- `Math.max` and `Math.min` of two numbers.
  pub larger : W → W → W
  pub smaller : W → W → W
  pub lt : W → W → Bool
  pub le : W → W → Bool
  pub same : W → W → Bool
  pub is_finite : W → Bool

pub record IsDouble (W : Type 0) ⦃d : Double W⦄ : Type 0 where
  pub lt_irrefl : (a : W) → d.lt a a ≡ false
  pub lt_trans : (a b c : W) → d.lt a b ≡ true → d.lt b c ≡ true → d.lt a c ≡ true
  pub lt-same : (a b c : W) → d.lt a b ≡ true → d.same b c ≡ true → d.lt a c ≡ true

-- The laws can be met: whole numbers, with `none` for infinity.
abbrev pub Whole : Type 0
Whole = Option ℕ

abbrev whole : (ℕ → ℕ → ℕ) → Whole → Whole → Whole
whole f (some a) (some b) = some (f a b)
whole f _ _ = none

abbrev whole_lt : Whole → Whole → Bool
whole_lt (some a) (some b) = ltb a b
whole_lt (some a) none = true
whole_lt none b = false

abbrev whole_le : Whole → Whole → Bool
whole_le (some a) (some b) = leb a b
whole_le a none = true
whole_le none (some b) = false

abbrev whole_same : Whole → Whole → Bool
whole_same (some a) (some b) = nat_eq a b
whole_same none none = true
whole_same _ _ = false

abbrev whole_finite : Whole → Bool
whole_finite (some a) = true
whole_finite none = false

instance abbrev pub Whole_double : Double Whole
Whole_double = record {
  of_nat = some;
  infinity = none;
  add = whole ◌+◌;
  sub = whole ◌-◌;
  mul = whole ◌*◌;
  div = whole ◌/◌;
  pow = whole ◌^◌;
  abs = λ a. a;
  larger = λ a b. if whole_lt a b then b else a;
  smaller = λ a b. if whole_lt b a then b else a;
  lt = whole_lt;
  le = whole_le;
  same = whole_same;
  is_finite = whole_finite;
}

pub Whole-IsDouble : IsDouble Whole
Whole-IsDouble = ground arith
