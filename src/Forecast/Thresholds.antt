-- ===== src/Forecast/Thresholds.antt =====
-- pkg/forecast/forecaster.go: `CheckThresholds`. A policy is a pointer that may be nil.
pub mod Breaches
use eks_financial_orchestrat.Common.{Option, none, some, List, [], ◌∷◌, ◌++◌, if◌then◌else◌}
use eks_financial_orchestrat.Common.Float.{Float, ◌⊗◌, ◌⊘◌}
use eks_financial_orchestrat.Types.{FinancialPolicy}
use eks_financial_orchestrat.Forecast.{ForecastPeriod, CostForecast, ThresholdBreach}

module _ {F : Type 0} ⦃fl : Float F⦄ where
  abbrev pub threshold_value : F → F → F
  threshold_value limit pct = limit ⊗ pct ⊘ fl.of_nat 100

  abbrev pub breach_of : CostForecast F → F → ForecastPeriod F → F → ThresholdBreach F
  breach_of f limit p pct = record {
    namespace = f.namespace;
    threshold_pct = pct;
    budget_limit = limit;
    forecasted_cost = p.forecasted_cost;
    period_days = p.days;
  }

  -- The three loops, from the inside.
  abbrev pub over_thresholds :
      CostForecast F → F → ForecastPeriod F → List F → List (ThresholdBreach F)
  over_thresholds f limit p [] = []
  over_thresholds f limit p (pct ∷ pcts) =
      let rest = over_thresholds f limit p pcts in
      if fl.lt (threshold_value limit pct) p.forecasted_cost
      then breach_of f limit p pct ∷ rest
      else rest

  abbrev pub over_periods :
      CostForecast F → F → List F → List (ForecastPeriod F) → List (ThresholdBreach F)
  over_periods f limit pcts [] = []
  over_periods f limit pcts (p ∷ ps) =
      over_thresholds f limit p pcts ++ over_periods f limit pcts ps

  -- The body of the loop over the policies. (Without thresholds the inner loops add nothing.)
  abbrev pub policy_breaches :
      CostForecast F → Option (FinancialPolicy F) → List (ThresholdBreach F)
  policy_breaches f none = []
  policy_breaches f (some p) =
      let limit = p.spec.budget.monthly_limit in
      if fl.le limit (fl.of_nat 0)
      then []
      else over_periods f limit p.spec.budget.alert_thresholds f.periods

  abbrev pub over_policies :
      CostForecast F → List (Option (FinancialPolicy F)) → List (ThresholdBreach F)
  over_policies f [] = []
  over_policies f (p ∷ ps) = policy_breaches f p ++ over_policies f ps

  -- `CheckThresholds`, whose error is always nil
  unfoldable pub check_thresholds :
      Option (CostForecast F) → List (Option (FinancialPolicy F)) → List (ThresholdBreach F)
  check_thresholds none policies = []
  check_thresholds (some f) policies = over_policies f policies
