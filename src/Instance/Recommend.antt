-- ===== src/Instance/Recommend.antt =====
-- pkg/instance/manager.go: `GenerateRecommendation`, which derives the instance mix that the policies
-- allow.
use eks_financial_orchestrat.Common.{
  ℕ, zero, suc, String, Bool, not, ◌&&◌, Option, none, some, List, [], ◌∷◌, ◌++◌, foldl,
  if◌then◌else◌,
}
use eks_financial_orchestrat.Common.Dict.{Dict, get, or_zero, map_entries}
use eks_financial_orchestrat.Common.Float.{Float, ◌⊕◌, ◌⊖◌, ◌⊗◌, ◌⊘◌}
use eks_financial_orchestrat.Common.Result.{Result, ok, err}
use eks_financial_orchestrat.Types.{Time, InstanceMixSpec, FinancialPolicy}
use eks_financial_orchestrat.Instance.{
  InstanceMixAnalysis, is_present, hundred, hourly_cost, monthly_hours, not_negative,
}

-- An affected node "on-demand-node-i" is given by its number i. The texts of the id and of the reason
-- are left out.
pub record OptimizationRecommendation (F : Type 0) : Type 0 where
  pub timestamp : Time
  pub current_mix : Dict F
  pub recommended_mix : Dict F
  pub expected_savings : F
  pub affected_nodes : List ℕ
  pub policy_compliant : Bool

-- The constraints of the policies: at least this much on demand, and at most that much spot.
pub record Constraints (F : Type 0) : Type 0 where
  pub min_on_demand : F
  pub max_spot : F

-- The parts of the recommended mix.
pub record ChosenMix (F : Type 0) : Type 0 where
  pub on_demand : F
  pub spot : F
  pub reserved : F

-- The numbers from 1 to n.
abbrev pub numbers : ℕ → List ℕ
numbers zero = []
numbers (suc n) = numbers n ++ (suc n ∷ [])

module _ {F : Type 0} ⦃fl : Float F⦄ where
  abbrev pub tighten_by : Constraints F → Option (InstanceMixSpec F) → Constraints F
  tighten_by c none = c
  tighten_by c (some mix) =
      let lower = mix.min_on_demand_percent in
      let upper = mix.max_spot_percent in
      record {
        min_on_demand = if fl.lt c.min_on_demand lower then lower else c.min_on_demand;
        max_spot =
            if fl.lt (fl.of_nat 0) upper && fl.lt upper c.max_spot then upper else c.max_spot;
      }

  -- The loop over the policies. The allowed types that it collects are not used.
  abbrev pub tighten : Constraints F → List (FinancialPolicy F) → Constraints F
  tighten c [] = c
  tighten c (p ∷ ps) = tighten (tighten_by c p.spec.instance_mix) ps

  unfoldable pub constraints_of : List (FinancialPolicy F) → Constraints F
  constraints_of ps = tighten (record { min_on_demand = fl.of_nat 0; max_spot = hundred }) ps

  -- On demand takes priority.
  abbrev pub max_spot_of : Constraints F → F
  max_spot_of c =
      if fl.lt hundred (c.min_on_demand ⊕ c.max_spot) then hundred ⊖ c.min_on_demand else c.max_spot

  abbrev pub at_most : F → F → F
  at_most bound x = if fl.lt bound x then bound else x

  -- The mix, for the present percentage of reserved nodes.
  unfoldable pub choose_mix : Constraints F → F → ChosenMix F
  choose_mix c reserved_now =
      let least = c.min_on_demand in
      let reserved = at_most (hundred ⊖ least) reserved_now in
      let spot = not_negative (at_most ((hundred ⊖ least) ⊖ reserved) (max_spot_of c)) in
      let on_demand = (hundred ⊖ spot) ⊖ reserved in
      let spot' = not_negative ((hundred ⊖ least) ⊖ reserved) in
      if fl.lt on_demand least
      then record { on_demand = least; spot = spot'; reserved = reserved }
      else record { on_demand = on_demand; spot = spot; reserved = reserved }

  abbrev pub mix_entries : ChosenMix F → Dict F
  mix_entries m =
      ("on_demand", m.on_demand)
      ∷ ("spot", m.spot)
      ∷ (if fl.lt (fl.of_nat 0) m.reserved then ("reserved", m.reserved) ∷ [] else [])

  abbrev pub mix_cost : F → Dict F → F
  mix_cost nodes mix =
      foldl (λ t e. t ⊕ (((nodes ⊗ e.1) ⊘ hundred) ⊗ hourly_cost e.0) ⊗ monthly_hours) (fl.of_nat 0)
        mix

  abbrev pub affected : InstanceMixAnalysis F → F → F → List ℕ
  affected a spot_now spot =
      let count = fl.to_int (((spot ⊖ spot_now) ⊘ hundred) ⊗ fl.of_nat a.total_nodes) in
      if is_present (get "on_demand" a.by_purchase_option) && fl.lt spot_now spot
      then numbers count
      else []

  abbrev pub current_mix_of : InstanceMixAnalysis F → Dict F
  current_mix_of a = map_entries (λ _ s. s.percentage) a.by_purchase_option

  abbrev pub share_now : String → InstanceMixAnalysis F → F
  share_now option a = or_zero (fl.of_nat 0) (get option (current_mix_of a))

  abbrev pub recommended_for : InstanceMixAnalysis F → List (FinancialPolicy F) → ChosenMix F
  recommended_for a ps = choose_mix (constraints_of ps) (share_now "reserved" a)

  unfoldable pub recommend :
      Time → InstanceMixAnalysis F → List (FinancialPolicy F) → OptimizationRecommendation F
  recommend now a ps =
      let c = constraints_of ps in
      let mix = recommended_for a ps in
      record {
        timestamp = now;
        current_mix = current_mix_of a;
        recommended_mix = mix_entries mix;
        expected_savings =
            not_negative (a.current_cost ⊖ mix_cost (fl.of_nat a.total_nodes) (mix_entries mix));
        affected_nodes = affected a (share_now "spot" a) mix.spot;
        policy_compliant =
            not (fl.lt mix.on_demand c.min_on_demand) && not (fl.lt (max_spot_of c) mix.spot);
      }

  -- `GenerateRecommendation`; a nil analysis is the error.
  unfoldable pub generate_recommendation :
      Time
      → Option (InstanceMixAnalysis F)
      → List (FinancialPolicy F)
      → Result String (OptimizationRecommendation F)
  unfolding recommend
  generate_recommendation now none ps = err "analysis must not be nil"
  generate_recommendation now (some a) ps = ok (recommend now a ps)
