-- ===== src/Collector/Explorer/Sums.antt =====
-- What the costs of the Cost Explorer are sums of.
use Prim.Native.String.{slice, len}
use text.Mathlib.Text.{starts_with}
use eks_financial_orchestrat.Common.{
  String, ◌≡◌, refl, sym, ap, ◌∙◌, Bool, false, not, inl, inr, Option, none, some, List, [], ◌∷◌,
  ◌++◌, foldl, select, arith, eq_iff, ◌==◌, if◌then◌else◌, Bool-cases, ◌&&◌,
}
use eks_financial_orchestrat.Common.Dict.{Dict, get, or_zero, get-alter}
use eks_financial_orchestrat.Common.Float.{Float, ◌⊕◌}
use eks_financial_orchestrat.Types.{Time}
use eks_financial_orchestrat.Collector.Costs.{AwsCostData}
use eks_financial_orchestrat.Collector.Correlate.{sum_of}
use eks_financial_orchestrat.Collector.Correlate.Sums.{total_of}
use eks_financial_orchestrat.Collector.Explorer.{
  CostGroup, ResultByTime, parse_amount, amount_of, add_service, add_tag, add_group, no_costs,
  parse_cost_explorer_output, trim_prefix, tag_key_prefix,
}

-- The groups of a service are those that name it first.
abbrev pub has_service : String → List String → Bool
has_service s [] = false
has_service s (k ∷ ks) = k == s

-- The groups of a tag are those that name it second, with or without the prefix.
abbrev pub has_tag : String → List String → Bool
has_tag t [] = false
has_tag t (k ∷ []) = false
has_tag t (k ∷ raw ∷ ks) =
    let tag = if starts_with raw "tag$" then slice raw 4 (len raw) else raw in
    not (tag == "") && (tag == t)

abbrev pub groups_of : List ResultByTime → List CostGroup
groups_of [] = []
groups_of (r ∷ rs) = r.groups ++ groups_of rs

module _ {F : Type 0} ⦃fl : Float F⦄ where
  get-add_service :
      (s : String) (ks : List String) (x : F) (m : Dict F)
      → get s (add_service ks x m)
        ≡ (if has_service s ks then some (or_zero (fl.of_nat 0) (get s m) ⊕ x) else get s m)
  get-add_service s [] x m = refl
  get-add_service s (k ∷ ks) x m =
      ground (arith, eq_iff k s, get-alter s k (λ t. t ⊕ x) (fl.of_nat 0) m)

  get-add_tag :
      (t : String) (ks : List String) (x : F) (m : Dict F)
      → get t (add_tag ks x m)
        ≡ (if has_tag t ks then some (or_zero (fl.of_nat 0) (get t m) ⊕ x) else get t m)
  get-add_tag t [] x m = refl
  get-add_tag t (k ∷ []) x m = refl
  get-add_tag t (k ∷ raw ∷ ks) x m =
      let tag = trim_prefix raw tag_key_prefix in
      ground (arith, eq_iff tag t, get-alter t tag (λ u. u ⊕ x) (fl.of_nat 0) m)

module _ {F : Type 0} ⦃fl : Float F⦄ (parse_float : String → Option F) where
  -- What counts for a group: its cost as a number.
  abbrev pub amount_in : Option (Option String) → F
  amount_in none = fl.of_nat 0
  amount_in (some none) = fl.of_nat 0
  amount_in (some (some text)) = elim (parse_float text) [ none ↦ fl.of_nat 0 | some x ↦ x ]

  abbrev pub amount : CostGroup → F
  amount g = amount_in (get "UnblendedCost" g.metrics)

  amount_of-amount : (g : CostGroup) → amount_of parse_float g ≡ amount g
  amount_of-amount g = amount_in_lem (get "UnblendedCost" g.metrics)
    where
      amount_in_lem : (o : Option (Option String)) → parse_amount parse_float o ≡ amount_in o
      amount_in_lem none = refl
      amount_in_lem (some none) = refl
      amount_in_lem (some (some text)) = elim (parse_float text) [ none ↦ refl | some x ↦ refl ]

  foldl-append {ℓ κ} :
      {A : Type ℓ} {B : Type κ} (f : B → A → B) (b : B) (xs ys : List A)
      → foldl f b (xs ++ ys) ≡ foldl f (foldl f b xs) ys
  foldl-append f b [] ys = refl
  foldl-append f b (x ∷ xs) ys = foldl-append f (f b x) xs ys

  -- The two loops are one over all groups.
  one_loop :
      (d : AwsCostData F) (rs : List ResultByTime)
      → foldl (λ d r. foldl (add_group parse_float) d r.groups) d rs
        ≡ foldl (add_group parse_float) d (groups_of rs)
  one_loop d [] = refl
  one_loop d (r ∷ rs) =
      one_loop (foldl (add_group parse_float) d r.groups) rs
      ∙ sym (foldl-append (add_group parse_float) d r.groups (groups_of rs))

  add_field : (List String → F → Dict F → Dict F) → Dict F → CostGroup → Dict F
  add_field add m g = add g.keys (amount g) m

  loop_fields :
      (d : AwsCostData F) (gs : List CostGroup)
      → foldl (add_group parse_float) d gs ≡ record d {
        total_cost = foldl (λ t g. t ⊕ amount g) d.total_cost gs;
        by_service = foldl (add_field add_service) d.by_service gs;
        by_tag = foldl (add_field add_tag) d.by_tag gs;
      }
  unfolding add_field
  loop_fields d [] = refl
  loop_fields d (g ∷ gs) = rw⁻¹ (amount_of-amount g) (loop_fields (add_group parse_float d g) gs)

  -- A sum that starts from an entry.
  abbrev summed : Option F → List CostGroup → Option F
  summed o [] = o
  summed o (g ∷ gs) = summed (some (or_zero (fl.of_nat 0) o ⊕ amount g)) gs

  summed-some :
      (x : F) (gs : List CostGroup) → summed (some x) gs ≡ some (foldl (λ t g. t ⊕ amount g) x gs)
  summed-some x [] = refl
  summed-some x (g ∷ gs) = summed-some (x ⊕ amount g) gs

  summed-none : (gs : List CostGroup) → summed none gs ≡ total_of amount gs
  summed-none [] = refl
  summed-none (g ∷ gs) = summed-some (fl.of_nat 0 ⊕ amount g) gs

  -- A loop that adds to the entries which a test picks.
  get-loop :
      (add : List String → F → Dict F → Dict F) (test : String → List String → Bool) (k : String)
      → ((ks : List String) (x : F) (m : Dict F)
          → get k (add ks x m)
            ≡ (if test k ks then some (or_zero (fl.of_nat 0) (get k m) ⊕ x) else get k m))
      → (m : Dict F) (gs : List CostGroup)
      → get k (foldl (add_field add) m gs) ≡ summed (get k m) (select (λ g. test k g.keys) gs)
  unfolding add_field
  get-loop add test k law m [] = refl
  get-loop add test k law m (g ∷ gs) =
      let rest = get-loop add test k law (add g.keys (amount g) m) gs in
      elim (Bool-cases (test k g.keys)) [
        | inl t ↦ rw t (rest ∙ rw (law g.keys (amount g) m, t))
        | inr f ↦ rw f (rest ∙ rw (law g.keys (amount g) m, f))
      ]

  module _ (results : List ResultByTime) (start end : Time) where
    abbrev parsed : AwsCostData F
    parsed = parse_cost_explorer_output parse_float results start end

    -- The total cost is the sum of the unblended costs of all groups, in the order of the response,
    -- where a missing cost or one that is no number counts as 0. The cost of a service is the sum over
    -- the groups that name it first, and that of a tag the sum over those that name it second, with
    -- or without the prefix "tag$"; a service or tag without groups has no entry, and the empty
    -- tag has none.
    pub parse_cost_explorer_output-sums :
        (parsed.total_cost ≡ sum_of amount (groups_of results))
        × ((service : String)
            → get service parsed.by_service
              ≡ total_of amount (select (λ g. has_service service g.keys) (groups_of results)))
        × ((tag : String)
            → get tag parsed.by_tag
              ≡ total_of amount (select (λ g. has_tag tag g.keys) (groups_of results)))
        × (parsed.is_approximate ≡ false)
    unfolding parse_cost_explorer_output get
    parse_cost_explorer_output-sums =
        let gs = groups_of results in
        let whole = one_loop (no_costs start end) results ∙ loop_fields (no_costs start end) gs in
        (
          ap (λ d. d.total_cost) whole,
          λ s.
              ap (λ d. get s d.by_service) whole
              ∙ get-loop add_service has_service s (get-add_service s) [] gs
              ∙ summed-none (select (λ g. has_service s g.keys) gs),
          λ t.
              ap (λ d. get t d.by_tag) whole
              ∙ get-loop add_tag has_tag t (get-add_tag t) [] gs
              ∙ summed-none (select (λ g. has_tag t g.keys) gs),
          ap (λ d. d.is_approximate) whole,
        )
