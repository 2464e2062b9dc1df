-- ===== src/Exporter/Values.antt =====
-- What a scrape of the exporter reports after an update.
use eks_financial_orchestrat.Common.{
  ℕ, ◌≡◌, refl, ◌∙◌, arith, String, Option, none, some, List, [], ◌∷◌, ◌==◌, eq_iff, if◌then◌else◌,
}
use eks_financial_orchestrat.Common.Dict.{Dict, get, IsMap}
use eks_financial_orchestrat.Collector.Costs.{AggregatedCosts, NamespaceCost}
use eks_financial_orchestrat.Forecast.{CostForecast, ForecastPeriod}
use eks_financial_orchestrat.Exporter.{
  GaugeVec, Metrics, team_label, set_costs, set_periods, update_cost_metrics,
  update_forecast_metrics,
}

-- The cost of a namespace under its team, and nothing under another.
abbrev pub under_team : {F : Type 0} → String → NamespaceCost F → Option F
under_team team cost = if team_label cost == team then some cost.total_cost else none

abbrev pub or_else : {A : Type 0} → Option A → Option A → Option A
or_else none o = o
or_else (some a) o = some a

abbrev pub cost_reported : {F : Type 0} → String → Dict (NamespaceCost F) → String → Option F
cost_reported namespace costs team = elim (get namespace costs) [
  | none ↦ none
  | some cost ↦ under_team team cost
]

abbrev pub bound_of : {F : Type 0} → String → ForecastPeriod F → Option F
bound_of bound p =
    if "upper" == bound
    then some p.upper_bound
    else if "lower" == bound
    then some p.lower_bound
    else if "forecasted" == bound
    then some p.forecasted_cost
    else none

-- The last period of a label counts.
abbrev pub period_reported :
    {F : Type 0} → (ℕ → String) → String → String → List (ForecastPeriod F) → Option F
period_reported label period bound [] = none
period_reported label period bound (p ∷ ps) =
    or_else (period_reported label period bound ps)
      (if label p.days == period then bound_of bound p else none)

module _ {G F : Type 0} (gauge : GaugeVec G F) where
  value-set_costs :
      (namespace team : String) (costs : Dict (NamespaceCost F)) (g : G)
      → IsMap costs
      → gauge.value namespace team (set_costs gauge costs g)
        ≡ or_else (cost_reported namespace costs team) (gauge.value namespace team g)
  unfolding get set_costs
  value-set_costs namespace team [] g _ = refl
  value-set_costs namespace team ((k, c) ∷ costs) g (fresh, rest) = ground (
    arith,
    eq_iff k namespace,
    eq_iff (team_label c) team,
    value-set_costs namespace team costs (gauge.set k (team_label c) c.total_cost g) rest,
    gauge.value-set namespace team k (team_label c) c.total_cost g,
  )

  value-set_periods :
      (label : ℕ → String) (period bound : String) (ps : List (ForecastPeriod F)) (g : G)
      → gauge.value period bound (set_periods gauge label ps g)
        ≡ or_else (period_reported label period bound ps) (gauge.value period bound g)
  unfolding set_periods
  value-set_periods label period bound [] g = refl
  value-set_periods label period bound (p ∷ ps) g =
      let l = label p.days in
      let g1 = gauge.set l "forecasted" p.forecasted_cost g in
      let g2 = gauge.set l "lower" p.lower_bound g1 in
      let g3 = gauge.set l "upper" p.upper_bound g2 in
      ground (
        arith,
        eq_iff l period,
        eq_iff "forecasted" bound,
        eq_iff "lower" bound,
        eq_iff "upper" bound,
        value-set_periods label period bound ps g3,
        gauge.value-set period bound l "upper" p.upper_bound g2,
        gauge.value-set period bound l "lower" p.lower_bound g1,
        gauge.value-set period bound l "forecasted" p.forecasted_cost g,
      )

  module _ {C : Type 0} where
    -- When the namespaces of the costs are the keys of a map, the update leaves for each pair of a
    -- namespace and a team the total cost of the namespace if its costs are of that team, where
    -- "unallocated" stands for no team, and otherwise no value, also where there was one before.
    -- Every other metric is as it was.
    pub update_cost_metrics-value :
        (namespace team : String) (costs : AggregatedCosts F) (m : Metrics G F C)
        → IsMap costs.by_namespace
        → (gauge.value namespace team (update_cost_metrics gauge (some costs) m).cost_per_namespace
            ≡ cost_reported namespace costs.by_namespace team)
          × (update_cost_metrics gauge (some costs) m ≡ record m {
            cost_per_namespace = (update_cost_metrics gauge (some costs) m).cost_per_namespace;
          })
    unfolding update_cost_metrics
    update_cost_metrics-value namespace team costs m unique = (
      value-set_costs namespace team costs.by_namespace (gauge.reset m.cost_per_namespace) unique
          ∙ ground (arith, gauge.value-reset namespace team m.cost_per_namespace),
      refl,
    )

    -- The update leaves for each pair of a period and a bound what the last period of that label has
    -- for the bound "forecasted", "lower" or "upper", and no value for other pairs.
    pub update_forecast_metrics-value :
        (label : ℕ → String) (period bound : String) (fc : CostForecast F) (m : Metrics G F C)
        → gauge.value period bound (update_forecast_metrics gauge label (some fc) m).forecasted_cost
          ≡ period_reported label period bound fc.periods
    unfolding update_forecast_metrics
    update_forecast_metrics-value label period bound fc m =
        value-set_periods label period bound fc.periods (gauge.reset m.forecasted_cost)
        ∙ ground (arith, gauge.value-reset period bound m.forecasted_cost)
