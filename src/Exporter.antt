-- ===== src/Exporter.antt =====
-- The Prometheus exporter of pkg/metrics/exporter.go. Gauges and counters are those of the package
-- client_golang, behind an interface: a vector of gauges with two labels holds a value for some pairs
-- of label values.
use eks_financial_orchestrat.Common.{
  ℕ, suc, ◌≡◌, String, Bool, Option, none, some, List, [], ◌∷◌, ◌&&◌, ◌==◌, if◌then◌else◌,
}
use eks_financial_orchestrat.Common.Dict.{Dict}
use eks_financial_orchestrat.Collector.Costs.{AggregatedCosts, NamespaceCost}
use eks_financial_orchestrat.Forecast.{CostForecast, ForecastPeriod}
pub mod Values
pub mod Correlated
mod Tests

-- `prometheus.GaugeVec`: `value a b` is what a scrape reports for the label values `a` and `b`, and
-- `set a b` is `WithLabelValues(a, b).Set`.
pub record GaugeVec (G F : Type 0) : Type 0 where
  pub reset : G → G
  pub set : String → String → F → G → G
  pub value : String → String → G → Option F
  pub value-reset : (a b : String) (g : G) → value a b (reset g) ≡ none
  pub value-set :
      (a b c d : String) (x : F) (g : G)
      → value a b (set c d x g) ≡ (if (c == a) && (d == b) then some x else value a b g)

-- `prometheus.Counter`
pub record Counter (C : Type 0) : Type 0 where
  pub inc : C → C
  pub count : C → ℕ
  pub count-inc : (c : C) → count (inc c) ≡ suc (count c)

-- The options of a metric, with the names of its labels.
pub record Opts : Type 0 where
  pub name : String
  pub help : String
  pub labels : List String

abbrev pub cost_per_namespace_opts : Opts
cost_per_namespace_opts = record {
  name = "eks_fo_cost_per_namespace_dollars";
  help = "Current cost in dollars per namespace";
  labels = "namespace" ∷ "team" ∷ [];
}

abbrev pub cost_per_instance_type_opts : Opts
cost_per_instance_type_opts = record {
  name = "eks_fo_cost_per_instance_type_dollars";
  help = "Current cost in dollars per instance type";
  labels = "instance_type" ∷ "purchase_option" ∷ [];
}

abbrev pub budget_usage_percent_opts : Opts
budget_usage_percent_opts = record {
  name = "eks_fo_budget_usage_percent";
  help = "Budget usage percentage per namespace";
  labels = "namespace" ∷ "policy_name" ∷ [];
}

abbrev pub forecasted_cost_opts : Opts
forecasted_cost_opts = record {
  name = "eks_fo_forecasted_cost_dollars";
  help = "Forecasted cost in dollars";
  labels = "period" ∷ "bound" ∷ [];
}

abbrev pub optimization_savings_opts : Opts
optimization_savings_opts = record {
  name = "eks_fo_optimization_savings_dollars";
  help = "Total savings from optimization actions in dollars";
  labels = [];
}

abbrev pub aws_auth_errors_opts : Opts
aws_auth_errors_opts = record {
  name = "eks_fo_aws_auth_errors_total";
  help = "Total number of AWS authentication errors";
  labels = [];
}

abbrev pub notification_failures_opts : Opts
notification_failures_opts = record {
  name = "eks_fo_notification_failures_total";
  help = "Total number of notification delivery failures";
  labels = [];
}

-- `RegisterMetrics`: `must_register` is that of the default registry, which a name that is already
-- taken makes panic.
unfoldable pub register_metrics : {R : Type 0} → (R → List Opts → R) → R → R
register_metrics must_register registry = must_register registry (
    cost_per_namespace_opts ∷ cost_per_instance_type_opts ∷ budget_usage_percent_opts
    ∷ forecasted_cost_opts ∷ optimization_savings_opts ∷ aws_auth_errors_opts
    ∷ notification_failures_opts ∷ [])

-- The variables of the package. The gauges of instance types, budget usage and savings are registered
-- but nothing sets them.
pub record Metrics (G F C : Type 0) : Type 0 where
  pub cost_per_namespace : G
  pub cost_per_instance_type : G
  pub budget_usage_percent : G
  pub forecasted_cost : G
  pub optimization_savings : F
  pub aws_auth_errors : C
  pub notification_failures : C

-- The label of a namespace without a team.
abbrev pub team_label : {F : Type 0} → NamespaceCost F → String
team_label cost = if cost.team == "" then "unallocated" else cost.team

module _ {G F : Type 0} (gauge : GaugeVec G F) where
  -- `for nsName, nsCost := range costs.ByNamespace { ... }`
  unfoldable pub set_costs : Dict (NamespaceCost F) → G → G
  set_costs [] g = g
  set_costs ((namespace, cost) ∷ costs) g =
      set_costs costs (gauge.set namespace (team_label cost) cost.total_cost g)

  -- `for _, period := range fc.Periods { ... }`, where `label` is `fmt.Sprintf("%dd", days)`
  unfoldable pub set_periods : (label : ℕ → String) → List (ForecastPeriod F) → G → G
  set_periods label [] g = g
  set_periods label (p ∷ ps) g =
      let g1 = gauge.set (label p.days) "forecasted" p.forecasted_cost g in
      let g2 = gauge.set (label p.days) "lower" p.lower_bound g1 in
      let g3 = gauge.set (label p.days) "upper" p.upper_bound g2 in set_periods label ps g3

  module _ {C : Type 0} where
    -- `none` is the nil pointer.
    unfoldable pub update_cost_metrics : Option (AggregatedCosts F) → Metrics G F C → Metrics G F C
    update_cost_metrics none m = m
    update_cost_metrics (some costs) m = record m {
      cost_per_namespace = set_costs costs.by_namespace (gauge.reset m.cost_per_namespace);
    }

    unfoldable pub update_forecast_metrics :
        (label : ℕ → String) → Option (CostForecast F) → Metrics G F C → Metrics G F C
    update_forecast_metrics label none m = m
    update_forecast_metrics label (some fc) m = record m {
      forecasted_cost = set_periods label fc.periods (gauge.reset m.forecasted_cost);
    }

module _ {G F C : Type 0} (counter : Counter C) where
  unfoldable pub increment_aws_auth_errors : Metrics G F C → Metrics G F C
  increment_aws_auth_errors m = record m { aws_auth_errors = counter.inc m.aws_auth_errors }

  unfoldable pub increment_notification_failures : Metrics G F C → Metrics G F C
  increment_notification_failures m = record m {
    notification_failures = counter.inc m.notification_failures;
  }
