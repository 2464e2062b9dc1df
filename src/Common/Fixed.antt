-- ===== src/Common/Fixed.antt =====
-- Fixed-point numbers with three decimals: an instance of `Float` at which definitions run and at
-- which the laws can be met. It stands in witnesses and tests only.
use Prim.Native.Nat.{ℕ, ◌*◌, ◌/◌}
use mathlib.Core.Bool.{not, ◌&&◌}
use native.Mathlib.Omega.{arith}
use eks_financial_orchestrat.Common.Tests.{if◌then◌else◌}
use eks_financial_orchestrat.Common.Int.{ℤ, pos, pos_part, neg_part, ◌+ℤ◌, ◌-ℤ◌, ◌*ℤ◌, quot, leb_ℤ}
use eks_financial_orchestrat.Common.Float.{Float, IsOrdered}

abbrev pub Fixed : Type 0
Fixed = ℤ

-- Whole numbers and thousandths.
abbrev pub whole : ℕ → Fixed
whole n = pos (n * 1000)

abbrev pub milli : ℕ → Fixed
milli n = pos n

abbrev fixed_div : Fixed → Fixed → Fixed
fixed_div a b =
    if leb_ℤ (pos 0) b
    then quot (a *ℤ pos 1000) (pos_part b)
    else quot (pos 0 -ℤ a *ℤ pos 1000) (neg_part b)

instance abbrev pub fixed_float : Float Fixed
fixed_float = record {
  ratio = λ n d. pos (n * 1000 / d);
  of_nat = whole;
  add = ◌+ℤ◌;
  sub = ◌-ℤ◌;
  mul = λ a b. quot (a *ℤ b) 1000;
  div = fixed_div;
  le = leb_ℤ;
  lt = λ a b. not (leb_ℤ b a);
  eq = λ a b. leb_ℤ a b && leb_ℤ b a;
  to_int = λ a. pos_part a / 1000;
}

pub Fixed-IsOrdered : IsOrdered Fixed
Fixed-IsOrdered = record {
  num_of_le = λ x y h. ground arith;
  le_trans = λ x y z h k. ground arith;
  le_total = λ x y h k. ground arith;
  lt-eq-not-le = λ x y h k. ground arith;
  num_of_lt = λ x y h. ground arith;
  of_nat_num = λ n. ground arith;
  eq_self = λ x. ground arith;
}
