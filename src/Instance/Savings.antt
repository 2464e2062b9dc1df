-- ===== src/Instance/Savings.antt =====
-- pkg/instance/savings.go: `EvaluateSavingsPlans`. The records of the last 30 days, where there is a cost
-- store, are known by the answer of `GetDailyCosts`, as their total costs.
use eks_financial_orchestrat.Common.{
  ℕ, String, Option, none, some, List, [], ◌∷◌, foldl, length, if◌then◌else◌,
}
use eks_financial_orchestrat.Common.Float.{Float, ◌⊕◌, ◌⊖◌, ◌⊗◌, ◌⊘◌}
use eks_financial_orchestrat.Common.Result.{Result, ok, err}
use eks_financial_orchestrat.Types.{Time}

pub record SavingsPlanRecommendation (F : Type 0) : Type 0 where
  pub timestamp : Time
  pub analysis_period_days : ℕ
  pub current_monthly_cost : F
  pub estimated_savings : F
  pub recommended_plan : String
  pub commitment_amount : F
  pub coverage_percent : F

module _ {F : Type 0} ⦃fl : Float F⦄ where
  -- The plan with a discount of the monthly cost.
  abbrev pub plan_of : Time → F → String → F → F → SavingsPlanRecommendation F
  plan_of now monthly plan discount coverage =
      let savings = monthly ⊗ discount in
      record {
        timestamp = now;
        analysis_period_days = 30;
        current_monthly_cost = monthly;
        estimated_savings = if fl.lt savings (fl.of_nat 0) then fl.of_nat 0 else savings;
        recommended_plan = plan;
        commitment_amount = monthly ⊗ (fl.of_nat 1 ⊖ discount);
        coverage_percent = coverage;
      }

  abbrev pub no_plan : Time → SavingsPlanRecommendation F
  no_plan now = record {
    timestamp = now;
    analysis_period_days = 30;
    current_monthly_cost = fl.of_nat 0;
    estimated_savings = fl.of_nat 0;
    recommended_plan = "savings_plan";
    commitment_amount = fl.of_nat 0;
    coverage_percent = fl.of_nat 0;
  }

  abbrev pub monthly_of : List F → F
  monthly_of costs =
      foldl (λ t c. t ⊕ c) (fl.of_nat 0) costs ⊘ fl.of_nat (length costs) ⊗ fl.of_nat 30

  abbrev pub better_plan : Time → F → SavingsPlanRecommendation F
  better_plan now monthly =
      if fl.lt (monthly ⊗ fl.ratio 25 100) (monthly ⊗ fl.ratio 35 100)
      then plan_of now monthly "reserved_instance" (fl.ratio 35 100) (fl.of_nat 80)
      else plan_of now monthly "savings_plan" (fl.ratio 25 100) (fl.of_nat 70)

  abbrev pub plan_for : Time → List F → SavingsPlanRecommendation F
  plan_for now [] = no_plan now
  plan_for now (c ∷ cs) = better_plan now (monthly_of (c ∷ cs))

  -- `EvaluateSavingsPlans`
  unfoldable pub evaluate_savings_plans :
      Time → Option (Result String (List F)) → Result String (SavingsPlanRecommendation F)
  evaluate_savings_plans now none = ok (plan_for now [])
  evaluate_savings_plans now (some (err e)) = err e
  evaluate_savings_plans now (some (ok costs)) = ok (plan_for now costs)
