-- ===== src/Common/Float.antt =====
-- Go's `float64`: a type with the operations that the program uses, and the laws of IEEE 754 that
-- its theorems need. The kernel has no floats, so every definition takes the type as a parameter.
use Prim.Native.Nat.{ℕ}
use mathlib.Core.Path.{◌≡◌}
use mathlib.Core.Bool.{Bool, true, not}
use mathlib.Core.Logic.{◌⊎◌}

pub record Float (F : Type 0) : Type 0 where
  -- `ratio n d` is the literal n / d, and `of_nat` the conversion from an integer.
  pub ratio : ℕ → ℕ → F
  pub of_nat : ℕ → F
  pub add : F → F → F
  pub sub : F → F → F
  pub mul : F → F → F
  pub div : F → F → F
  pub le : F → F → Bool
  pub lt : F → F → Bool
  pub eq : F → F → Bool
  -- `int(x)`, for a number that is not negative
  pub to_int : F → ℕ

module _ {F : Type 0} ⦃fl : Float F⦄ where
  infixl 65 ◌⊕◌ ◌⊖◌
  infixl 70 ◌⊗◌ ◌⊘◌
  infix 50 ◌≼◌ ◌≺◌
  abbrev pub ◌⊕◌ : F → F → F
  x ⊕ y = fl.add x y

  abbrev pub ◌⊖◌ : F → F → F
  x ⊖ y = fl.sub x y

  abbrev pub ◌⊗◌ : F → F → F
  x ⊗ y = fl.mul x y

  abbrev pub ◌⊘◌ : F → F → F
  x ⊘ y = fl.div x y

  abbrev pub ◌≼◌ : F → F → Type 0
  x ≼ y = fl.le x y ≡ true

  abbrev pub ◌≺◌ : F → F → Type 0
  x ≺ y = fl.lt x y ≡ true

  -- A number, as opposed to NaN, is a value that is `<=` itself.
  abbrev pub IsNum : F → Type 0
  IsNum x = x ≼ x

-- How IEEE 754 compares: the order is total away from NaN, and `<` is the strict part of it.
pub record IsOrdered (F : Type 0) ⦃fl : Float F⦄ : Type 0 where
  pub num_of_le : (x y : F) → x ≼ y → IsNum x × IsNum y
  pub le_trans : (x y z : F) → x ≼ y → y ≼ z → x ≼ z
  pub le_total : (x y : F) → IsNum x → IsNum y → (x ≼ y) ⊎ (y ≼ x)
  pub lt-eq-not-le : (x y : F) → IsNum x → IsNum y → fl.lt x y ≡ not (fl.le y x)
  pub num_of_lt : (x y : F) → x ≺ y → IsNum x × IsNum y
  pub of_nat_num : (n : ℕ) → IsNum (fl.of_nat n)
  pub eq_self : (x : F) → fl.eq x x ≡ fl.le x x
