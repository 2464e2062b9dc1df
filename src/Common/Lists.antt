-- ===== src/Common/Lists.antt =====
-- Lists measured by native numbers, Boolean selection, and predicates over lists.
use Prim.Native.Nat.{ℕ, zero, suc, ◌+◌, ◌-◌, ◌≤◌}
use mathlib.Core.Path.{◌≡◌, refl, ap, subst}
use mathlib.Core.Bool.{Bool, true, false, ◌||◌}
use mathlib.Core.Logic.{◌⊎◌, ◌↔◌, inl, inr}
use mathlib.Core.List.{List, [], ◌∷◌, ◌++◌, map, flatten}
use mathlib.Core.Option.{Option, none, some, some-injective}
use native.Mathlib.Omega.{arith}
use eks_financial_orchestrat.Common.Tests.{if◌then◌else◌, Bool-cases}

module _ {ℓ} {A : Type ℓ} where
  abbrev pub length : List A → ℕ
  length [] = 0
  length (x ∷ xs) = suc (length xs)

  abbrev pub get_elem? : List A → ℕ → Option A
  get_elem? [] i = none
  get_elem? (x ∷ xs) zero = some x
  get_elem? (x ∷ xs) (suc i) = get_elem? xs i

  abbrev pub drop : ℕ → List A → List A
  drop zero xs = xs
  drop (suc n) [] = []
  drop (suc n) (x ∷ xs) = drop n xs

  abbrev pub take : ℕ → List A → List A
  take zero xs = []
  take (suc n) [] = []
  take (suc n) (x ∷ xs) = x ∷ take n xs

  abbrev pub replicate : ℕ → A → List A
  replicate zero x = []
  replicate (suc n) x = x ∷ replicate n x

  -- `xs[i] = f(xs[i])`, or nothing where the index is out of range.
  abbrev pub modify : ℕ → (A → A) → List A → Option (List A)
  modify i f [] = none
  modify zero f (x ∷ xs) = some (f x ∷ xs)
  modify (suc i) f (x ∷ xs) = elim (modify i f xs) [ none ↦ none | some ys ↦ some (x ∷ ys) ]

  -- `append(xs, x)`
  abbrev pub snoc : List A → A → List A
  snoc xs x = xs ++ (x ∷ [])

  -- The items that pass a Boolean test, in order.
  abbrev pub select : (A → Bool) → List A → List A
  select p [] = []
  select p (x ∷ xs) = let rest = select p xs in if p x then x ∷ rest else rest

  -- The first item that passes a test.
  abbrev pub find : (A → Bool) → List A → Option A
  find p [] = none
  find p (x ∷ xs) = let rest = find p xs in if p x then some x else rest

  abbrev pub any : (A → Bool) → List A → Bool
  any p [] = false
  any p (x ∷ xs) = p x || any p xs

  -- Every item satisfies a predicate; some item does; the item stands in the list.
  abbrev pub All {κ} : (A → Type κ) → List A → Type κ
  All P [] = Unit
  All P (x ∷ xs) = P x × All P xs

  abbrev pub Any : (A → Type 0) → List A → Type 0
  Any P [] = ⊥
  Any P (x ∷ xs) = P x ⊎ Any P xs

  pub length-append : (xs ys : List A) → length (xs ++ ys) ≡ length xs + length ys
  length-append [] ys = omega arith
  length-append (x ∷ xs) ys = omega (arith, length-append xs ys)

  pub length-drop : (n : ℕ) (xs : List A) → length (drop n xs) ≡ length xs - n
  length-drop zero xs = omega arith
  length-drop (suc n) [] = omega arith
  length-drop (suc n) (x ∷ xs) = omega (arith, length-drop n xs)

  pub drop-append : (n : ℕ) (xs ys : List A) → n ≤ length xs → drop n (xs ++ ys) ≡ drop n xs ++ ys
  drop-append zero xs ys h = refl
  drop-append (suc n) [] ys h = elim h [ ]
  drop-append (suc n) (x ∷ xs) ys h = drop-append n xs ys (omega arith)

  pub All-append {κ} : (P : A → Type κ) (xs ys : List A) → All P xs → All P ys → All P (xs ++ ys)
  All-append P [] ys _ q = q
  All-append P (x ∷ xs) ys (p, ps) q = (p, All-append P xs ys ps q)

  pub All-drop {κ} : (P : A → Type κ) (n : ℕ) (xs : List A) → All P xs → All P (drop n xs)
  All-drop P zero xs p = p
  All-drop P (suc n) [] p = p
  All-drop P (suc n) (x ∷ xs) (p, ps) = All-drop P n xs ps

  -- What `find` returns passes the test, and has a position.
  pub find-eq_some :
      (p : A → Bool) (xs : List A) {x : A}
      → find p xs ≡ some x
      → (p x ≡ true) × ((i : ℕ) × (get_elem? xs i ≡ some x))
  find-eq_some p [] e = cc
  find-eq_some p (y ∷ ys) {x} e = elim (Bool-cases (p y)) [
    | inl t ↦ let here : y ≡ x = some-injective _ _ (rw t at e) in (rw here at t, (0, ap some here))
    | inr f ↦ let (a, (i, c)) = find-eq_some p ys (rw f at e) in (a, (suc i, c))
  ]

  pub find-eq_none : (p : A → Bool) (xs : List A) → find p xs ≡ none → All (λ x. p x ≡ false) xs
  find-eq_none p [] e = tt
  find-eq_none p (y ∷ ys) e = elim (Bool-cases (p y)) [
    | inl t ↦ cc (rw t at e)
    | inr f ↦ (f, find-eq_none p ys (rw f at e))
  ]

  pub get_elem?-All {κ} :
      (P : A → Type κ) (xs : List A) (i : ℕ) {x : A} → All P xs → get_elem? xs i ≡ some x → P x
  get_elem?-All P [] i a e = cc
  get_elem?-All P (y ∷ ys) zero (a, rest) e = subst P (some-injective _ _ e) a
  get_elem?-All P (y ∷ ys) (suc i) (a, rest) e = get_elem?-All P ys i rest e

  pub append-eq-nil : (xs ys : List A) → xs ≡ [] → ys ≡ [] → xs ++ ys ≡ []
  append-eq-nil [] ys p q = q
  append-eq-nil (x ∷ xs) ys p q = cc

  pub append-eq-nil_left : (xs ys : List A) → xs ++ ys ≡ [] → xs ≡ []
  append-eq-nil_left [] ys p = refl
  append-eq-nil_left (x ∷ xs) ys p = cc

  pub append-eq-nil_right : (xs ys : List A) → xs ++ ys ≡ [] → ys ≡ []
  append-eq-nil_right [] ys p = p
  append-eq-nil_right (x ∷ xs) ys p = cc

module _ {ℓ} {A : Type ℓ} where
  pub flatten-eq-nil_iff : (ls : List (List A)) → (flatten ls ≡ []) ↔ All (λ l. l ≡ []) ls
  unfolding flatten
  flatten-eq-nil_iff [] = (λ _. tt, λ _. refl)
  flatten-eq-nil_iff (l ∷ ls) = (
    λ e. (
      append-eq-nil_left l (flatten ls) e,
      (flatten-eq-nil_iff ls).0 (append-eq-nil_right l (flatten ls) e),
    ),
    λ a. append-eq-nil l (flatten ls) a.0 ((flatten-eq-nil_iff ls).1 a.1),
  )

module _ {ℓ κ} {A : Type ℓ} {B : Type κ} where
  pub length-map : (f : A → B) (xs : List A) → length (map f xs) ≡ length xs
  length-map f [] = refl
  length-map f (x ∷ xs) = ap suc (length-map f xs)
