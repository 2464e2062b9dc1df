-- ===== src/Exporter/Tests.antt =====
-- Updates of the exporter's metrics, where a vector of gauges is the function of its label values.
use eks_financial_orchestrat.Common.{
  ℕ, suc, ◌≡◌, refl, String, Bool, true, false, not, Option, none, some, List, [], ◌∷◌, ◌&&◌, ◌||◌,
  ◌==◌, ◌++◌, map, if◌then◌else◌, select,
}
use eks_financial_orchestrat.Common.Dict.{get}
use eks_financial_orchestrat.Collector.Costs.{
  AggregatedCosts, NamespaceCost, PodMetrics, ClusterMetrics, AwsCostData,
}
use eks_financial_orchestrat.Forecast.{CostForecast}
use eks_financial_orchestrat.Exporter.{
  GaugeVec, Counter, Metrics, register_metrics, update_cost_metrics, update_forecast_metrics,
  increment_aws_auth_errors, increment_notification_failures, set_periods,
}
use eks_financial_orchestrat.Common.Fixed.{Fixed, whole, fixed_float}
use eks_financial_orchestrat.Collector.Correlate.{correlate_and_aggregate, cost_in, pod_costs}
use eks_financial_orchestrat.Exporter.Correlated.{pods_reported, update_cost_metrics-correlated}
use eks_financial_orchestrat.Exporter.Values.{cost_reported, update_cost_metrics-value}

abbrev Gauges : Type 0
Gauges = String → String → Option ℕ

abbrev gauge_table : (F : Type 0) → GaugeVec (String → String → Option F) F
gauge_table F = record {
  reset = λ g a b. none;
  set = λ c d x g a b. if (c == a) && (d == b) then some x else g a b;
  value = λ a b g. g a b;
  value-reset = λ a b g. refl;
  value-set = λ a b c d x g. refl;
}

abbrev gauges : GaugeVec Gauges ℕ
gauges = gauge_table ℕ

abbrev counter : Counter ℕ
counter = record { inc = λ c. suc c; count = λ c. c; count-inc = λ c. refl }

abbrev cost_of : String → String → ℕ → NamespaceCost ℕ
cost_of namespace team total = record {
  namespace = namespace;
  team = team;
  direct_cost = total;
  shared_cost = 0;
  total_cost = total;
  by_service = [];
  by_pod = [];
  is_approximate = false;
}

abbrev costs : AggregatedCosts ℕ
costs = record {
  timestamp = 1;
  by_namespace = ("shop", cost_of "shop" "core" 5) ∷ ("batch", cost_of "batch" "" 7) ∷ [];
  by_team = [];
  total_cost = 12;
}

-- Before the update there is a cost of a namespace that is no more.
abbrev metrics : Metrics Gauges ℕ ℕ
metrics = record {
  cost_per_namespace = λ a b. if a == "old" then some 3 else none;
  cost_per_instance_type = λ a b. none;
  budget_usage_percent = λ a b. none;
  forecasted_cost = λ a b. none;
  optimization_savings = 0;
  aws_auth_errors = 0;
  notification_failures = 0;
}

exported_costs :
    (gauges.value "batch" "unallocated"
        (update_cost_metrics gauges (some costs) metrics).cost_per_namespace
      ≡ cost_reported "batch" costs.by_namespace "unallocated")
    × (update_cost_metrics gauges (some costs) metrics ≡ record metrics {
      cost_per_namespace = (update_cost_metrics gauges (some costs) metrics).cost_per_namespace;
    })
unfolding get
exported_costs =
    update_cost_metrics-value gauges "batch" "unallocated" costs metrics (refl, (refl, tt))

cost_reported_batch : cost_reported "batch" costs.by_namespace "unallocated" ≡ some 7
unfolding get
cost_reported_batch = refl

abbrev forecast : CostForecast ℕ
forecast = record {
  generated_at = 1;
  namespace = "shop";
  periods =
      record { days = 7; forecasted_cost = 10; lower_bound = 8; upper_bound = 12; confidence = 95 }
      ∷ [];
}

abbrev day_label : ℕ → String
day_label days = "7d"

update_forecast_metrics_upper :
    gauges.value "7d" "upper"
      (update_forecast_metrics gauges day_label (some forecast) metrics).forecasted_cost
    ≡ some 12
unfolding update_forecast_metrics set_periods
update_forecast_metrics_upper = refl

increments :
    increment_notification_failures counter (increment_aws_auth_errors counter metrics)
    ≡ record metrics { aws_auth_errors = 1; notification_failures = 1 }
unfolding increment_notification_failures increment_aws_auth_errors
increments = refl

-- The default registry accepts the metrics: their names are all different.
abbrev lists_name : String → List String → Bool
lists_name name [] = false
lists_name name (n ∷ ns) = (n == name) || lists_name name ns

abbrev distinct : List String → Bool
distinct [] = true
distinct (n ∷ ns) = not (lists_name n ns) && distinct ns

register_metrics-distinct :
    distinct (register_metrics (λ names opts. names ++ map (λ o. o.name) opts) []) ≡ true
unfolding register_metrics
register_metrics-distinct = refl

abbrev pod : String → ℕ → PodMetrics Fixed
pod name cpu = record {
  name = name;
  namespace = "shop";
  node_name = "n1";
  cpu_usage = whole cpu;
  mem_usage = whole 1;
  net_usage = whole 0;
  storage = whole 0;
  labels = some (("team", "blue") ∷ []);
}

abbrev cluster : ClusterMetrics Fixed
cluster = record { timestamp = 1; pods = pod "a" 1 ∷ pod "b" 3 ∷ []; nodes = [] }

abbrev aws : AwsCostData Fixed
aws = record {
  start_time = 0;
  end_time = 1;
  by_service = [];
  by_tag = [];
  total_cost = whole 12;
  is_approximate = false;
}

abbrev stale : Metrics (String → String → Option Fixed) Fixed ℕ
stale = record {
  cost_per_namespace = λ a b. some (whole 9);
  cost_per_instance_type = λ a b. none;
  budget_usage_percent = λ a b. none;
  forecasted_cost = λ a b. none;
  optimization_savings = whole 0;
  aws_auth_errors = 0;
  notification_failures = 0;
}

abbrev exported : Metrics (String → String → Option Fixed) Fixed ℕ
exported =
    update_cost_metrics (gauge_table Fixed)
      (some (correlate_and_aggregate 1 (some cluster) (some aws))) stale

update_cost_metrics-correlated_example :
    ((gauge_table Fixed).value "shop" "blue" exported.cost_per_namespace
      ≡ pods_reported
          (cost_in (pod_costs cluster.pods (whole 12)))
          "blue"
          (select (λ p. p.namespace == "shop") cluster.pods))
    × (exported ≡ record stale { cost_per_namespace = exported.cost_per_namespace })
update_cost_metrics-correlated_example =
    update_cost_metrics-correlated (gauge_table Fixed) 1 (some cluster) (some aws) "shop" "blue"
      stale
