-- ===== src/Memory/View.antt =====
-- What the values of a Go type denote in a heap: the tree that a reader of them sees, in which each
-- reference is replaced by the contents it leads to. A nil reference is told from an empty one.
use eks_financial_orchestrat.Common.{Option, none, some, List, [], ◌∷◌, String}
use eks_financial_orchestrat.Common.Dict.{Dict, get}
use eks_financial_orchestrat.Memory.{Heap, Ref, Slot, or_fault, load_as}

abbrev pub R : Type 0 → Type 0 → Type 0
R C V = Heap C → Option V

module _ {C : Type 0} where
  infixl 5 ◌>>=◌
  abbrev pub seen : {V : Type 0} → V → R C V
  seen v h = some v

  abbrev pub ◌>>=◌ : {V W : Type 0} → R C V → (V → R C W) → R C W
  (m >>= f) h = or_fault (λ v. f v h) (m h)

  unfoldable pub view_ref : {A V : Type 0} → Slot C A → (A → R C V) → Ref → R C (Option V)
  view_ref slot view none h = some none
  view_ref slot view (some p) h =
      or_fault (λ a. or_fault (λ v. some (some v)) (view a h)) (load_as slot p h)

  unfoldable pub view_each : {A V : Type 0} → (A → R C V) → List A → R C (List V)
  view_each view [] = seen []
  view_each view (x ∷ xs) = do v ← view x; vs ← view_each view xs; seen (v ∷ vs)

  -- A map is what it answers to each key.
  abbrev pub view_map : {W : Type 0} → Dict W → R C (String → Option W)
  view_map m = seen (λ k. get k m)
