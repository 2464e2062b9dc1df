-- ===== src/Common/Text.antt =====
-- Texts of package strings and their order, which is that of their bytes: of the characters' numbers.
use Prim.Native.Nat.{Ordering, compare as compare_nat}
use Prim.Native.Char.{Char, code}
use Prim.Native.String.{String, [], ◌∷◌, slice, len, compare, then as first_unequal}
use Prim.Native.String.compare
use eks_financial_orchestrat.Common.{◌≡◌, Bool, true, false, ◌==◌, ◌-◌, arith, ap, sym, ◌∙◌}

-- `strings.HasSuffix`
abbrev pub ends_with : String → String → Bool
ends_with s suffix = slice s (len s - len suffix) (len s) == suffix

abbrev pub is_gt : Ordering → Bool
is_gt Ordering.gt = true
is_gt _ = false

-- `a > b`
abbrev pub is_after : String → String → Bool
is_after a b = is_gt (compare a b)

is_gt-then :
    (c d : Char) (o p : Ordering)
    → (is_gt o ≡ true → is_gt p ≡ false)
    → is_gt (first_unequal (compare_nat (code c) (code d)) o) ≡ true
    → is_gt (first_unequal (compare_nat (code d) (code c)) p) ≡ false
is_gt-then c d o p rest gt = ground arith

pub is_after-asym : (a b : String) → is_after a b ≡ true → is_after b a ≡ false
is_after-asym [] [] gt = cc
is_after-asym [] (d ∷ t) gt = cc (compare.nil-cons d t)
is_after-asym (c ∷ s) [] gt = ap is_gt (compare.nil-cons c s)
is_after-asym (c ∷ s) (d ∷ t) gt =
    ap is_gt (compare.cons-cons d c t s)
    ∙ is_gt-then c d (compare s t) (compare t s) (is_after-asym s t)
        (sym (ap is_gt (compare.cons-cons c d s t)) ∙ gt)
