-- ===== src/Memory/Laws.antt =====
-- When a copy is independent of its original: the copy sees the same, from the cells that the
-- copying has allocated alone, and the original is seen from the cells that were there before.
use mathlib.Core.Path.{fun_ext}
use eks_financial_orchestrat.Common.{
  ℕ, ◌+◌, ◌≤◌, ◌<◌, ◌≡◌, refl, ap, ◌∙◌, arith, Option, none, some, List, [], ◌∷◌, nat_eq,
  if◌then◌else◌, String,
}
use eks_financial_orchestrat.Common.Dict.{Dict, get, get-put}
use eks_financial_orchestrat.Memory.{
  Heap, Ref, M, Slot, or_fault, load, load_as, alloc, copy_ref, copy_each, copy_entries, copy_map,
  return, ◌>>=◌,
}
use eks_financial_orchestrat.Memory.View.{R, seen, view_ref, view_each, view_map}

pub some_of :
    {A B : Type 0} (f : A → Option B) (o : Option A) (b : B)
    → or_fault f o ≡ some b
    → (a : A) × (o ≡ some a) × (f a ≡ some b)
some_of f none b e = cc
some_of f (some a) b e = (a, refl, e)

-- The copy of a map answers to every key as the map does.
pub get-copy_entries : {W : Type 0} (k : String) (m : Dict W) → get k (copy_entries m) ≡ get k m
unfolding get copy_entries
get-copy_entries k [] = refl
get-copy_entries k ((j, w) ∷ m) =
    ground (arith, get-put k j w (copy_entries m), get-copy_entries k m)

module _ {C : Type 0} where
  -- The cells from `lo` on and below `hi` are the same in both heaps.
  abbrev pub Same : ℕ → ℕ → Heap C → Heap C → Type 0
  Same lo hi h g = (r : ℕ) → lo ≤ r → r < hi → load r g ≡ load r h

  -- A program that runs on `h` without a fault, leaves the cells of `h` as they are, and has a
  -- result of which `P` holds in every heap that has the cells it allocated.
  abbrev pub Makes : {A : Type 0} → Heap C → M C A → (A → Heap C → Type 0) → Type 0
  Makes h m P =
      (a : _) × (h' : Heap C) × (m h ≡ some (a, h'))
      × (h.next ≤ h'.next)
      × Same 0 h.next h h'
      × ((g : Heap C) → Same h.next h'.next h' g → P a g)

  -- What is seen is determined by the allocated cells.
  abbrev pub IsStable : {V : Type 0} → R C V → Type 0
  IsStable m = (h g : Heap C) (v : _) → Same 0 h.next h g → m h ≡ some v → m g ≡ some v

  -- A copy that is independent of what it copies, for values that denote what `view` sees.
  abbrev pub IsDeep : {A V : Type 0} → (A → M C A) → (A → R C V) → Type 0
  IsDeep copy view =
      ((a : _) → IsStable (view a))
      × ((h : Heap C) (a : _) (v : _)
          → view a h ≡ some v
          → Makes h (copy a) (λ b g. view b g ≡ some v))

  -- Sequencing, where the rest may rely on what the result of the first part denotes.
  pub Makes-bind :
      {A B : Type 0} {P : A → Heap C → Type 0} {Q : B → Heap C → Type 0} (h : Heap C) (m : M C A)
      (f : A → M C B)
      → Makes h m P
      → ((a : A) (h' : Heap C)
          → h.next ≤ h'.next
          → Same 0 h.next h h'
          → Makes h' (f a) (λ b g. P a g → Q b g))
      → Makes h (m >>= f) Q
  Makes-bind h m f (a, h1, ran, up, same, has) rest =
      let (b, h2, ran', up', same', has') = rest a h1 up same in
      (
        b,
        h2,
        rw (ran, ran'),
        omega arith,
        (λ r _ below. same' r (omega arith) (omega arith) ∙ same r (omega arith) below),
        λ g agree.
            has' g (λ r from below. agree r (omega arith) below)
              (has g λ r from below. agree r from (omega arith) ∙ same' r (omega arith) below),
      )

  pub Makes-return :
      {A : Type 0} {P : A → Heap C → Type 0} (h : Heap C) (a : A)
      → ((g : Heap C) → P a g)
      → Makes h (return a) P
  Makes-return h a has = (a, h, refl, omega arith, (λ r _ _. refl), λ g _. has g)

  pub Makes-alloc : (h : Heap C) (c : C) → Makes h (alloc c) (λ q g. load q g ≡ some c)
  unfolding load alloc
  Makes-alloc h c = (
    h.next,
    record { next = h.next + 1; cell = λ q. if nat_eq h.next q then some c else h.cell q },
    refl,
    omega arith,
    (λ r _ below. ground arith),
    λ g agree. agree h.next (omega arith) (omega arith) ∙ ground arith,
  )

  pub load_as-IsStable : {A : Type 0} (slot : Slot C A) (p : ℕ) → IsStable (load_as slot p)
  unfolding load_as load
  load_as-IsStable slot p h g a same e =
      let (c, found, _) = some_of slot.project (load p h) a e in
      let below : p < h.next = ground (arith, found) in rw (same p (omega arith) below) e

  pub bind-IsStable :
      {V W : Type 0} (m : R C V) (k : V → R C W)
      → IsStable m
      → ((v : V) → IsStable (k v))
      → IsStable (λ h. or_fault (λ v. k v h) (m h))
  bind-IsStable m k stable stables h g w same e =
      let (v, found, next) = some_of (λ v. k v h) (m h) w e in
      rw (stable h g v same found) (stables v h g w same next)

  -- Values without references, which `*out = *in` copies.
  pub same-IsDeep : {A : Type 0} (f : A → A) → ((a : A) → f a ≡ a) → IsDeep (λ a. return (f a)) seen
  same-IsDeep f same =
      ((λ a h g v _ e. e), λ h a v e. Makes-return h (f a) λ g. ap some (same a) ∙ e)

  pub plain-IsDeep : {A : Type 0} → IsDeep (return {A = A}) seen
  plain-IsDeep = same-IsDeep (λ a. a) λ a. refl

  pub copy_map-IsDeep : {W : Type 0} → IsDeep (copy_map {V = W}) view_map
  copy_map-IsDeep = (
    (λ a h g v _ e. e),
    λ h a v e. Makes-return h (copy_entries a) λ g. ap some (fun_ext λ k. get-copy_entries k a) ∙ e,
  )

  module _ {A V : Type 0} {view : A → R C V} where
    view_ref-IsStable :
        (slot : Slot C A)
        → ((a : A) → IsStable (view a))
        → (p : Ref) → IsStable (view_ref slot view p)
    unfolding view_ref
    view_ref-IsStable slot stable none = λ h g v same e. e
    view_ref-IsStable slot stable (some p) =
        bind-IsStable (load_as slot p) _ (load_as-IsStable slot p)
          λ a. bind-IsStable (view a) _ (stable a) λ v h g w same e. e

    view_each-IsStable :
        ((a : A) → IsStable (view a)) → (xs : List A) → IsStable (view_each view xs)
    unfolding view_each
    view_each-IsStable stable [] = λ h g v same e. e
    view_each-IsStable stable (x ∷ xs) =
        bind-IsStable (view x) _ (stable x) λ v.
          bind-IsStable (view_each view xs) _ (view_each-IsStable stable xs) λ vs h g w same e. e

  module _ {A V : Type 0} {copy : A → M C A} {view : A → R C V} where
    copy_ref-copies :
        (slot : Slot C A)
        → IsDeep copy view
        → (h : Heap C) (p : Ref) (v : Option V) → view_ref slot view p h ≡ some v
        → Makes h (copy_ref slot copy p) (λ q g. view_ref slot view q g ≡ some v)
    unfolding copy_ref view_ref load_as
    copy_ref-copies slot deep h none v e = Makes-return h none λ g. e
    copy_ref-copies slot (stable, copies) h (some p) v e =
        let (a, found, rest) = some_of _ (load_as slot p h) v e in
        let (w, seen_w, is_v) = some_of _ (view a h) v rest in
        let made =
          Makes-bind h (copy a) (λ b. alloc (slot.inject b) >>= λ q. return (some q))
            (copies h a w seen_w)
            (λ b h1 _ _.
              Makes-bind h1 (alloc (slot.inject b)) (λ q. return (some q))
                (Makes-alloc h1 (slot.inject b))
                (λ q h2 _ _.
                  Makes-return h2 (some q)
                    λ g in_g from_b. rw (in_g, slot.project-inject b, from_b) is_v)) in
        rw found made

    pub copy_ref-IsDeep :
        (slot : Slot C A) → IsDeep copy view → IsDeep (copy_ref slot copy) (view_ref slot view)
    copy_ref-IsDeep slot deep = (view_ref-IsStable slot deep.0, copy_ref-copies slot deep)

    copy_each-copies :
        IsDeep copy view
        → (h : Heap C) (xs : List A) (vs : List V) → view_each view xs h ≡ some vs
        → Makes h (copy_each copy xs) (λ ys g. view_each view ys g ≡ some vs)
    unfolding copy_each view_each
    copy_each-copies deep h [] vs e = Makes-return h [] λ g. e
    copy_each-copies (stable, copies) h (x ∷ xs) vs e =
        let (w, seen_w, rest) = some_of _ (view x h) vs e in
        let (ws, seen_ws, is_vs) = some_of _ (view_each view xs h) vs rest in
        Makes-bind h (copy x) _ (copies h x w seen_w) λ y h1 up same.
          Makes-bind h1 (copy_each copy xs) _
            (copy_each-copies (stable, copies) h1 xs ws
              (view_each-IsStable stable xs h h1 ws same seen_ws))
            λ ys h2 _ _. Makes-return h2 (y ∷ ys) λ g see_ys see_y. rw (see_y, see_ys) is_vs

    pub copy_each-IsDeep : IsDeep copy view → IsDeep (copy_each copy) (view_each view)
    copy_each-IsDeep deep = (view_each-IsStable deep.0, copy_each-copies deep)
