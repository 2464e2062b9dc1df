-- ===== src/Common/Dict.antt =====
-- Go's `map[string]V` as an association list with one entry for each key. The program ranges over
-- maps in an unspecified order; the model ranges in the order in which keys were first written.
use mathlib.Core.Path.{◌≡◌, refl, ◌∙◌}
use mathlib.Core.Logic.{inl, inr}
use mathlib.Core.Option
use mathlib.Core.Option.{Option, none, some}
use mathlib.Core.List.{List, [], ◌∷◌, foldl}
use Prim.Native.String.{String}
use native.Mathlib.Omega.{arith}
use text.Mathlib.Text.{◌==◌}
use text.Mathlib.TextEquality.{eq_iff}
use eks_financial_orchestrat.Common.Tests.{if◌then◌else◌, Bool-cases}
use eks_financial_orchestrat.Common.Lists.{select}

abbrev pub Dict {ℓ} : Type ℓ → Type ℓ
Dict V = List (String × V)

module _ {ℓ} {V : Type ℓ} where
  -- `v, ok := m[k]`
  unfoldable pub get : String → Dict V → Option V
  get k [] = none
  get k ((j, v) ∷ m) = let rest = get k m in if j == k then some v else rest

  abbrev pub or_zero : V → Option V → V
  or_zero d none = d
  or_zero d (some v) = v

  -- `m[k] = f(m[k])`, where a missing key reads as `d`.
  unfoldable pub alter : String → (V → V) → V → Dict V → Dict V
  alter k f d [] = (k, f d) ∷ []
  alter k f d ((j, v) ∷ m) =
      let rest = (j, v) ∷ alter k f d m in if j == k then (j, f v) ∷ m else rest

  -- `m[k] = v`
  unfoldable pub put : String → V → Dict V → Dict V
  unfolding alter
  put k v = alter k (λ _. v) v

  pub get-alter :
      (j k : String) (f : V → V) (d : V) (m : Dict V)
      → get j (alter k f d m) ≡ (if k == j then some (f (or_zero d (get k m))) else get j m)
  unfolding get alter
  get-alter j k f d [] = ground arith
  get-alter j k f d ((i, v) ∷ m) =
      ground (arith, eq_iff k j, eq_iff i k, eq_iff i j, get-alter j k f d m)

  pub get-put :
      (j k : String) (v : V) (m : Dict V) → get j (put k v m) ≡ (if k == j then some v else get j m)
  unfolding put
  get-put j k v m = get-alter j k (λ _. v) v m

  pub get-put_self : (k : String) (v : V) (m : Dict V) → get k (put k v m) ≡ some v
  get-put_self k v m = ground (arith, get-put k k v m, eq_iff k k)

-- Grouping: `for x in xs { m[key(x)] = step(m[key(x)], x) }`, where a key starts from `d` of it.
module _ {ℓ κ} {A : Type ℓ} {V : Type κ} (key : A → String) (step : V → A → V)
    (d : String → V) where
  abbrev group_one : Dict V → A → Dict V
  group_one m x = alter (key x) (λ v. step v x) (d (key x)) m

  unfoldable pub group : Dict V → List A → Dict V
  group m xs = foldl group_one m xs

  -- What one key accumulates, starting from its entry.
  abbrev pub accumulate : String → Option V → List A → Option V
  accumulate j o [] = o
  accumulate j o (x ∷ xs) = accumulate j (some (step (or_zero (d j) o) x)) xs

  -- An entry depends on the items of its key alone, taken in order.
  pub get-group :
      (j : String) (m : Dict V) (xs : List A)
      → get j (group m xs) ≡ accumulate j (get j m) (select (λ x. key x == j) xs)
  unfolding group
  get-group j m [] = refl
  get-group j m (x ∷ xs) = elim (Bool-cases (key x == j)) [
    | inl t ↦
        let same : key x ≡ j = (eq_iff (key x) j).0 t in
        let here : get j (group_one m x) ≡ some (step (or_zero (d j) (get j m)) x) =
          rw same (ground (arith, eq_iff j j, get-alter j j (λ v. step v x) (d j) m)) in
        rw t (get-group j (group_one m x) xs ∙ rw here)
    | inr f ↦
        let here : get j (group_one m x) ≡ get j m =
          ground (arith, get-alter j (key x) (λ v. step v x) (d (key x)) m) in
        rw f (get-group j (group_one m x) xs ∙ rw here)
  ]

  -- A key that was absent has an entry when some item bears it, and its entry is the fold of those.
  pub accumulate-some :
      (j : String) (v : V) (xs : List A) → accumulate j (some v) xs ≡ some (foldl step v xs)
  accumulate-some j v [] = refl
  accumulate-some j v (x ∷ xs) = accumulate-some j (step v x) xs

  pub accumulate-none :
      (j : String) (xs : List A)
      → accumulate j none xs ≡ elim xs [ [] ↦ none | x ∷ r ↦ some (foldl step (d j) (x ∷ r)) ]
  accumulate-none j [] = refl
  accumulate-none j (x ∷ xs) = accumulate-some j (step (d j) x) xs

module _ {ℓ κ} {V : Type ℓ} {W : Type κ} (f : String → V → W) where
  -- A loop over the entries that rewrites each value.
  abbrev pub map_entries : Dict V → Dict W
  map_entries [] = []
  map_entries ((k, v) ∷ m) = (k, f k v) ∷ map_entries m

  pub get-map_entries :
      (k : String) (m : Dict V) → get k (map_entries m) ≡ Option.map (f k) (get k m)
  unfolding get
  get-map_entries k [] = refl
  get-map_entries k ((j, v) ∷ m) = elim (Bool-cases (j == k)) [
    | inl t ↦ let same : j ≡ k = (eq_iff j k).0 t in rw t (rw same)
    | inr e ↦ rw e (get-map_entries k m)
  ]

-- A map has one entry for each key.
abbrev pub IsMap {ℓ} : {V : Type ℓ} → Dict V → Type ℓ
IsMap [] = Unit
IsMap ((k, v) ∷ m) = (get k m ≡ none) × IsMap m

module _ {ℓ} {V : Type ℓ} where
  pub alter-IsMap : (k : String) (f : V → V) (d : V) (m : Dict V) → IsMap m → IsMap (alter k f d m)
  unfolding get alter
  alter-IsMap k f d [] _ = (refl, tt)
  alter-IsMap k f d ((j, v) ∷ m) (fresh, rest) = elim (Bool-cases (j == k)) [
    | inl t ↦ rw t (fresh, rest)
    | inr e ↦
        rw e (ground (arith, eq_iff j k, eq_iff k j, get-alter j k f d m), alter-IsMap k f d m rest)
  ]

module _ {ℓ κ} {A : Type ℓ} {V : Type κ} (key : A → String) (step : V → A → V)
    (d : String → V) where
  pub group-IsMap : (m : Dict V) (xs : List A) → IsMap m → IsMap (group key step d m xs)
  unfolding group
  group-IsMap m [] is_map = is_map
  group-IsMap m (x ∷ xs) is_map =
      group-IsMap (group_one key step d m x) xs
        (alter-IsMap (key x) (λ v. step v x) (d (key x)) m is_map)

module _ {ℓ} {V W : Type ℓ} (f : String → V → W) where
  pub map_entries-IsMap : (m : Dict V) → IsMap m → IsMap (map_entries f m)
  map_entries-IsMap [] _ = tt
  map_entries-IsMap ((k, v) ∷ m) (fresh, rest) =
      (get-map_entries f k m ∙ rw fresh refl, map_entries-IsMap m rest)
