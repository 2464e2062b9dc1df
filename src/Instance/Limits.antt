-- ===== src/Instance/Limits.antt =====
-- How the recommended mix keeps to the constraints of the policies.
use mathlib.Core.Option.{some-injective}
use eks_financial_orchestrat.Common.{
  ℕ, zero, suc, ◌≡◌, refl, sym, ap, ◌∙◌, true, false, not, ◌&&◌, Option, none, some, List, [], ◌∷◌,
  get_elem?, arith,
}
use eks_financial_orchestrat.Common.Float.{Float, IsOrdered, IsNum, ◌⊕◌, ◌≼◌, ◌≺◌}
use eks_financial_orchestrat.Common.Dict.{get}
use eks_financial_orchestrat.Common.Result.{Result, ok}
use eks_financial_orchestrat.Types.{Time, InstanceMixSpec, FinancialPolicy}
use eks_financial_orchestrat.Instance.{InstanceMixAnalysis, hundred}
use eks_financial_orchestrat.Instance.Recommend.{
  Constraints, ChosenMix, OptimizationRecommendation, tighten_by, tighten, constraints_of,
  max_spot_of, choose_mix, recommend, generate_recommendation, recommended_for, share_now,
}

module _ {F : Type 0} ⦃fl : Float F⦄ (laws : IsOrdered F) where
  open laws use {num_of_le, le_trans, le_total, lt-eq-not-le, num_of_lt, of_nat_num}

  -- The constraints are numbers, and not looser than they were.
  abbrev Tighter : Constraints F → Constraints F → Type 0
  Tighter c d = (c.min_on_demand ≼ d.min_on_demand) × (d.max_spot ≼ c.max_spot)

  -- `d` is within the limits of a policy's mix, where these are numbers; a maximum of 0 is no limit.
  abbrev pub Within : InstanceMixSpec F → Constraints F → Type 0
  Within m d =
      (IsNum m.min_on_demand_percent → m.min_on_demand_percent ≼ d.min_on_demand)
      × (fl.of_nat 0 ≺ m.max_spot_percent → d.max_spot ≼ m.max_spot_percent)

  tighten_by-Tighter :
      (c : Constraints F) (o : Option (InstanceMixSpec F))
      → IsNum c.min_on_demand
      → IsNum c.max_spot
      → Tighter c (tighten_by c o)
  tighten_by-Tighter c none m n = (m, n)
  tighten_by-Tighter c (some x) m n = ground (
    arith,
    num_of_lt c.min_on_demand x.min_on_demand_percent,
    num_of_lt x.max_spot_percent c.max_spot,
    le_total c.min_on_demand x.min_on_demand_percent,
    le_total c.max_spot x.max_spot_percent,
    lt-eq-not-le c.min_on_demand x.min_on_demand_percent,
    lt-eq-not-le x.max_spot_percent c.max_spot,
  )

  tighten_by-Within :
      (c : Constraints F) (x : InstanceMixSpec F)
      → IsNum c.min_on_demand
      → IsNum c.max_spot
      → Within x (tighten_by c (some x))
  tighten_by-Within c x m n = ground (
    arith,
    num_of_lt (fl.of_nat 0) x.max_spot_percent,
    lt-eq-not-le c.min_on_demand x.min_on_demand_percent,
    lt-eq-not-le x.max_spot_percent c.max_spot,
    le_total c.min_on_demand x.min_on_demand_percent,
    le_total c.max_spot x.max_spot_percent,
  )

  tighten-Tighter :
      (c : Constraints F) (ps : List (FinancialPolicy F))
      → IsNum c.min_on_demand
      → IsNum c.max_spot
      → Tighter c (tighten c ps)
  tighten-Tighter c [] m n = (m, n)
  tighten-Tighter c (p ∷ ps) m n =
      let d = tighten_by c p.spec.instance_mix in
      let (lower, upper) = tighten_by-Tighter c p.spec.instance_mix m n in
      let (lower', upper') = tighten-Tighter d ps (num_of_le _ _ lower).1 (num_of_le _ _ upper).0 in
      (le_trans _ _ _ lower lower', le_trans _ _ _ upper' upper)

  Within-Tighter :
      (x : InstanceMixSpec F) (c d : Constraints F) → Within x c → Tighter c d → Within x d
  Within-Tighter x c d (lower, upper) (lower', upper') =
      (λ n. le_trans _ _ _ (lower n) lower', λ p. le_trans _ _ _ upper' (upper p))

  tighten-Within :
      (c : Constraints F) (ps : List (FinancialPolicy F)) (i : ℕ) (p : FinancialPolicy F)
      (x : InstanceMixSpec F)
      → IsNum c.min_on_demand
      → IsNum c.max_spot
      → get_elem? ps i ≡ some p
      → p.spec.instance_mix ≡ some x
      → Within x (tighten c ps)
  tighten-Within c [] i p x m n at_i has = cc
  tighten-Within c (q ∷ ps) zero p x m n at_i has =
      let same : q ≡ p = some-injective _ _ at_i in
      let mix : q.spec.instance_mix ≡ some x = rw same has in
      let (lower, upper) = tighten_by-Tighter c q.spec.instance_mix m n in
      let within : Within x (tighten_by c q.spec.instance_mix) =
        rw mix (tighten_by-Within c x m n) in
      Within-Tighter x (tighten_by c q.spec.instance_mix)
        (tighten (tighten_by c q.spec.instance_mix) ps) within
        (tighten-Tighter (tighten_by c q.spec.instance_mix) ps (num_of_le _ _ lower).1
          (num_of_le _ _ upper).0)
  tighten-Within c (q ∷ ps) (suc i) p x m n at_i has =
      let (lower, upper) = tighten_by-Tighter c q.spec.instance_mix m n in
      tighten-Within (tighten_by c q.spec.instance_mix) ps i p x (num_of_le _ _ lower).1
        (num_of_le _ _ upper).0 at_i has

  constraints_of-Within :
      (ps : List (FinancialPolicy F)) (i : ℕ) (p : FinancialPolicy F) (x : InstanceMixSpec F)
      → get_elem? ps i ≡ some p
      → p.spec.instance_mix ≡ some x
      → Within x (constraints_of ps)
  unfolding constraints_of
  constraints_of-Within ps i p x at_i has =
      tighten-Within _ ps i p x (of_nat_num 0) (of_nat_num 100) at_i has

  choose_mix_least :
      (c : Constraints F) (reserved : F)
      → fl.lt (choose_mix c reserved).on_demand c.min_on_demand ≡ false
  unfolding choose_mix
  choose_mix_least c reserved = ground (
    arith,
    num_of_lt c.min_on_demand c.min_on_demand,
    lt-eq-not-le c.min_on_demand c.min_on_demand,
  )

  -- Comparisons with a bound that lies on the other side.
  not_less_below : (x y z : F) → x ≼ y → fl.lt z y ≡ false → fl.lt z x ≡ false
  not_less_below x y z h k = ground (
    arith,
    num_of_lt z x,
    num_of_le x y,
    lt-eq-not-le z y,
    lt-eq-not-le z x,
    le_total y z,
    le_total z y,
    le_trans x y z,
  )

  not_less_above : (x y z : F) → y ≼ x → fl.lt y z ≡ false → fl.lt x z ≡ false
  not_less_above x y z h k = ground (
    arith,
    num_of_lt x z,
    num_of_le y x,
    lt-eq-not-le y z,
    lt-eq-not-le x z,
    le_total y z,
    le_total z y,
    le_trans z y x,
  )

  -- What the mark says of the spot part where the limits fit together.
  compliant_spot :
      (c : Constraints F) (m : ChosenMix F)
      → fl.lt hundred (c.min_on_demand ⊕ c.max_spot) ≡ false
      → (not (fl.lt m.on_demand c.min_on_demand) && not (fl.lt (max_spot_of c) m.spot)) ≡ true
      → fl.lt c.max_spot m.spot ≡ false
  compliant_spot c m loose flag = ground arith

  ok_inj : {E A : Type 0} {a b : A} → ◌≡◌ {A = Result E A} (ok a) (ok b) → a ≡ b
  ok_inj e = ground arith

  module _ (now : Time) (a : InstanceMixAnalysis F) (ps : List (FinancialPolicy F)) (i : ℕ)
      (p : FinancialPolicy F) (x : InstanceMixSpec F) where
    -- The on-demand part of a recommendation is not below the minimum of any of the policies, where
    -- this minimum is a number.
    pub generate_recommendation_on_demand :
        get_elem? ps i ≡ some p
        → p.spec.instance_mix ≡ some x
        → IsNum x.min_on_demand_percent
        → (r : OptimizationRecommendation F) × (on_demand : F) × (generate_recommendation now
              (some a)
              ps
            ≡ ok r)
          × (get "on_demand" r.recommended_mix ≡ some on_demand)
          × (¬ (on_demand ≺ x.min_on_demand_percent))
    unfolding generate_recommendation recommend get
    generate_recommendation_on_demand at_i has num =
        let (lower, _) = constraints_of-Within ps i p x at_i has in
        let kept =
          not_less_below x.min_on_demand_percent (constraints_of ps).min_on_demand
            (recommended_for a ps).on_demand (lower num)
            (choose_mix_least (constraints_of ps) (share_now "reserved" a)) in
        (recommend now a ps, (recommended_for a ps).on_demand, refl, refl, λ less. cc (less, kept))

    -- The spot part of a recommendation that is marked as compliant is not above the maximum of any
    -- of the policies, where this maximum is more than 0, if the strictest minimum and maximum of
    -- the policies do not exceed 100 together.
    pub generate_recommendation_spot :
        (r : OptimizationRecommendation F)
        → get_elem? ps i ≡ some p
        → p.spec.instance_mix ≡ some x
        → fl.of_nat 0 ≺ x.max_spot_percent
        → ¬ (fl.of_nat 100 ≺ ((constraints_of ps).min_on_demand ⊕ (constraints_of ps).max_spot))
        → generate_recommendation now (some a) ps ≡ ok r
        → r.policy_compliant ≡ true
        → (spot : F) × (get "spot" r.recommended_mix ≡ some spot) × (¬ (x.max_spot_percent ≺ spot))
    unfolding generate_recommendation recommend get
    generate_recommendation_spot r at_i has positive compatible made compliant =
        let (_, upper) = constraints_of-Within ps i p x at_i has in
        let c = constraints_of ps in
        let same : recommend now a ps ≡ r = ok_inj made in
        let flag : (recommend now a ps).policy_compliant ≡ true =
          ap (λ r. r.policy_compliant) same ∙ compliant in
        let loose : fl.lt hundred (c.min_on_demand ⊕ c.max_spot) ≡ false = ground arith in
        let capped : fl.lt c.max_spot (recommended_for a ps).spot ≡ false =
          compliant_spot c (recommended_for a ps) loose flag in
        let kept =
          not_less_above x.max_spot_percent c.max_spot (recommended_for a ps).spot (upper positive)
            capped in
        (
          (recommended_for a ps).spot,
          ap (λ r. get "spot" r.recommended_mix) (sym same),
          λ less. cc (less, kept),
        )
