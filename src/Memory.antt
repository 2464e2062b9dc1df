-- ===== src/Memory.antt =====
-- The heap that the deep copies of api/v1alpha1/zz_generated.deepcopy.go work on. A cell of type `C`
-- is what a pointer, a slice or a map refers to: a struct, the elements of an array, the entries of
-- a map. A reference is `none` for nil, or an address; a slice refers to an array of its own length.
use eks_financial_orchestrat.Common.{
  ℕ, ◌+◌, ◌≡◌, Option, none, some, Bool, List, [], ◌∷◌, ltb, nat_eq, if◌then◌else◌,
}
use eks_financial_orchestrat.Common.Dict.{Dict, put}
pub mod View
pub mod Laws
pub mod Fields
pub mod Independent

-- The addresses from `next` on have not been allocated.
pub record Heap (C : Type 0) : Type 0 where
  pub next : ℕ
  pub cell : ℕ → Option C

abbrev pub Ref : Type 0
Ref = Option ℕ

-- A program over the heap. `none` is a reference that dangles or is of another type, which the
-- memory safety of Go rules out.
abbrev pub M : Type 0 → Type 0 → Type 0
M C A = Heap C → Option (A × Heap C)

-- How the values of one type lie in a cell.
pub record Slot (C A : Type 0) : Type 0 where
  pub inject : A → C
  pub project : C → Option A
  pub project-inject : (a : A) → project (inject a) ≡ some a

abbrev pub slot_of :
    {C A : Type 0} (inject : A → C) (project : C → Option A)
    → ((a : A) → project (inject a) ≡ some a)
    → Slot C A
slot_of i p law = record { inject = i; project = p; project-inject = law }

abbrev pub or_fault : {A B : Type 0} → (A → Option B) → Option A → Option B
or_fault f none = none
or_fault f (some a) = f a

-- `for key, val := range *in { (*out)[key] = val }`, in an unspecified order
unfoldable pub copy_entries : {V : Type 0} → Dict V → Dict V
copy_entries [] = []
copy_entries ((key, val) ∷ m) = put key val (copy_entries m)

module _ {C : Type 0} where
  infixl 5 ◌>>=◌
  abbrev pub return : {A : Type 0} → A → M C A
  return a h = some (a, h)

  abbrev pub ◌>>=◌ : {A B : Type 0} → M C A → (A → M C B) → M C B
  (m >>= f) h = or_fault (λ r. f r.0 r.1) (m h)

  -- `*p`
  unfoldable pub load : ℕ → Heap C → Option C
  load p h = if ltb p h.next then h.cell p else none

  unfoldable pub load_as : {A : Type 0} → Slot C A → ℕ → Heap C → Option A
  load_as slot p h = or_fault slot.project (load p h)

  abbrev pub replace_cell : (ℕ → Option C) → ℕ → C → ℕ → Option C
  replace_cell f p c q = if nat_eq p q then some c else f q

  -- `*p = c`
  unfoldable pub write_cell : ℕ → C → Heap C → Heap C
  write_cell p c h = record h { cell = replace_cell h.cell p c }

  -- `new(T)` and `make(T, n)`, of which the model has the address once the contents are written.
  unfoldable pub alloc : C → M C ℕ
  alloc c h = some (h.next, record { next = h.next + 1; cell = replace_cell h.cell h.next c })

  -- The statements of the generated code for a field that is a pointer, a slice or a map:
  -- `if in.F != nil { in, out := &in.F, &out.F; *out = new(T) or make(T, len(*in)); ... }`,
  -- where `copy` copies the contents.
  module _ {A : Type 0} (slot : Slot C A) (copy : A → M C A) where
    unfoldable pub copy_ref : Ref → M C Ref
    copy_ref none h = some (none, h)
    copy_ref (some p) h =
        or_fault (λ a. (copy a >>= λ b. alloc (slot.inject b) >>= λ q. return (some q)) h)
          (load_as slot p h)

  -- `for i := range *in { (*in)[i].DeepCopyInto(&(*out)[i]) }`
  unfoldable pub copy_each : {A : Type 0} → (A → M C A) → List A → M C (List A)
  copy_each copy [] = return []
  copy_each copy (x ∷ xs) = do y ← copy x; ys ← copy_each copy xs; return (y ∷ ys)

  abbrev pub copy_map : {V : Type 0} → Dict V → M C (Dict V)
  copy_map m = return (copy_entries m)
