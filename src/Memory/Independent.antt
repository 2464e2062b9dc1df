-- ===== src/Memory/Independent.antt =====
-- Writes to the heap after a copy: who modifies the original does not change the copy, and who
-- modifies the copy does not change the original.
use eks_financial_orchestrat.Common.{ℕ, ◌≤◌, ◌<◌, ◌≡◌, refl, ◌∙◌, arith, some, List, [], ◌∷◌, All}
use eks_financial_orchestrat.Memory.{Heap, M, load, write_cell}
use eks_financial_orchestrat.Memory.View.{R}
use eks_financial_orchestrat.Memory.Laws.{IsDeep, Same}

-- `*p = c`
abbrev pub Write : Type 0 → Type 0
Write C = ℕ × C

module _ {C : Type 0} where
  abbrev pub write_all : List (Write C) → Heap C → Heap C
  write_all [] h = h
  write_all ((p, c) ∷ ws) h = write_all ws (write_cell p c h)

  -- Writes below an address leave the cells from there on, and the other way round.
  load-write_cell :
      (p r : ℕ) (c : C) (h : Heap C) → (p ≡ r → ⊥) → load r (write_cell p c h) ≡ load r h
  unfolding load write_cell
  load-write_cell p r c h apart = ground arith

  write_below-Same :
      (n hi : ℕ) (ws : List (Write C)) (h : Heap C)
      → All (λ w. w.0 < n) ws
      → Same n hi h (write_all ws h)
  write_below-Same n hi [] h _ r from below = refl
  write_below-Same n hi ((p, c) ∷ ws) h (here, rest) r from below =
      write_below-Same n hi ws (write_cell p c h) rest r from below
      ∙ load-write_cell p r c h λ same. omega arith

  write_from-Same :
      (n : ℕ) (ws : List (Write C)) (h : Heap C)
      → All (λ w. n ≤ w.0) ws
      → Same 0 n h (write_all ws h)
  write_from-Same n [] h _ r from below = refl
  write_from-Same n ((p, c) ∷ ws) h (here, rest) r from below =
      write_from-Same n ws (write_cell p c h) rest r from below
      ∙ load-write_cell p r c h λ same. omega arith

  -- After a copy, whatever is written to the cells that were there before, the copy is seen as the
  -- original was; and whatever is written to the others, so is the original.
  module _ {A V : Type 0} {copy : A → M C A} {view : A → R C V} where
    pub IsDeep-independent :
        IsDeep copy view
        → (h : Heap C) (a : A) (v : V) (old new : List (Write C)) → view a h ≡ some v
        → All (λ w. w.0 < h.next) old
        → All (λ w. h.next ≤ w.0) new
        → (b : A) × (h' : Heap C) × (copy a h ≡ some (b, h'))
          × (view b (write_all old h') ≡ some v)
          × (view a (write_all new h') ≡ some v)
    IsDeep-independent (stable, copies) h a v old new e olds news =
        let (b, h', ran, up, same, has) = copies h a v e in
        (
          b,
          h',
          ran,
          has (write_all old h') (write_below-Same h.next h'.next old h' olds),
          stable a h (write_all new h') v
              (λ r from below. write_from-Same h.next new h' news r from below ∙ same r from below)
              e,
        )
