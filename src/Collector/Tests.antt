-- ===== src/Collector/Tests.antt =====
-- Runs of the collector's parts.
mod Cycles
use eks_financial_orchestrat.Common.{
  ℕ, String, ◌≡◌, ◌≢◌, refl, true, false, none, some, List, [], ◌∷◌, inr, inl, ltb, if◌then◌else◌,
  select, length, ◌==◌,
}
use eks_financial_orchestrat.Common.Int.{◌+ℤ◌}
use eks_financial_orchestrat.Common.Dict.{Dict, get}
use eks_financial_orchestrat.Common.Fixed.{Fixed, whole, milli, fixed_float}
use eks_financial_orchestrat.Collector.Backoff.{CallError, Calls, retry_with_backoff}
use eks_financial_orchestrat.Collector.Backoff.Ends.{EndsAt, retry_with_backoff_ends}
use eks_financial_orchestrat.Collector.Costs.{
  PodMetrics, ClusterMetrics, AwsCostData, NamespaceCost, AggregatedCosts,
}
use eks_financial_orchestrat.Collector.Correlate.{
  correlate_and_aggregate, team_of, pod_costs, cost_in, sum_of,
}
use eks_financial_orchestrat.Collector.Correlate.Sums.{
  IsNamespaceEntry, IsTeamEntry, correlate_namespaces, correlate_teams,
}
use eks_financial_orchestrat.Collector.SharedCosts.{
  allocate_shared_costs_with_labels, recipients, is_system, is_system_namespace, direct_sum,
}
use eks_financial_orchestrat.Collector.SharedCosts.Allocation.{
  IsSettled, allocate_shared_costs_unshared, allocate_shared_costs_settles,
  allocate_shared_costs_totals,
}
use eks_financial_orchestrat.Collector.SharedCosts.Allocation

abbrev throttled : CallError
throttled = record { api_code = some "Throttling"; http_status = none; text = "rate exceeded" }

abbrev calls : Calls Fixed
calls = record {
  outcome = λ i. if ltb i 2 then some throttled else none;
  done = λ i. false;
  random = λ i. milli 500;
}

retry_with_backoff_ends_example : (k : ℕ) × EndsAt calls 5 k (retry_with_backoff calls 5)
retry_with_backoff_ends_example = retry_with_backoff_ends calls 5

abbrev pod : String → String → ℕ → PodMetrics Fixed
pod name ns cpu = record {
  name = name;
  namespace = ns;
  node_name = "n1";
  cpu_usage = whole cpu;
  mem_usage = whole 1;
  net_usage = whole 0;
  storage = whole 0;
  labels = some (("team", "blue") ∷ []);
}

abbrev pods : List (PodMetrics Fixed)
pods = pod "a" "shop" 1 ∷ pod "b" "shop" 2 ∷ pod "dns" "kube-system" 1 ∷ []

abbrev metrics : ClusterMetrics Fixed
metrics = record { timestamp = 1; pods = pods; nodes = [] }

abbrev aws : AwsCostData Fixed
aws = record {
  start_time = 0;
  end_time = 1;
  by_service = [];
  by_tag = [];
  total_cost = whole 12;
  is_approximate = true;
}

abbrev cost : PodMetrics Fixed → Fixed
cost = cost_in (pod_costs pods (whole 12))

correlate_namespaces_example :
    IsNamespaceEntry cost true "shop"
      (pod "a" "shop" 1 ∷ pod "b" "shop" 2 ∷ [])
      (get "shop" (correlate_and_aggregate 1 (some metrics) (some aws)).by_namespace)
correlate_namespaces_example = correlate_namespaces 1 (some metrics) (some aws) "shop"

correlate_teams_example :
    IsTeamEntry cost "blue"
      (select (λ p. team_of p == "blue") pods)
      (get "blue" (correlate_and_aggregate 1 (some metrics) (some aws)).by_team)
correlate_teams_example = correlate_teams 1 (some metrics) (some aws) "blue"

abbrev entry : String → ℕ → NamespaceCost Fixed
entry ns direct = record {
  namespace = ns;
  team = "";
  direct_cost = whole direct;
  shared_cost = whole 0;
  total_cost = whole direct;
  by_service = [];
  by_pod = [];
  is_approximate = false;
}

abbrev aggregated : Dict (NamespaceCost Fixed) → AggregatedCosts Fixed
aggregated m = record { timestamp = 1; by_namespace = m; by_team = []; total_cost = whole 16 }

abbrev costs : AggregatedCosts Fixed
costs = aggregated (
    ("shop", entry "shop" 3)
    ∷ ("kube-system", entry "kube-system" 4)
    ∷ ("docs", entry "docs" 9)
    ∷ [])

nothing_shared :
    fixed_float.eq (Allocation.shared [] (aggregated (("shop", entry "shop" 3) ∷ []))) (whole 0)
    ≡ true
unfolding is_system_namespace get
nothing_shared = refl

some_shared : fixed_float.eq (Allocation.shared [] costs) (whole 0) ≡ false
unfolding is_system_namespace get ◌+ℤ◌
some_shared = refl

some_paying : Allocation.paying [] costs ≢ []
unfolding is_system_namespace get
some_paying = λ e. cc

found_shop : get "shop" costs.by_namespace ≡ some (entry "shop" 3)
unfolding get
found_shop = refl

unshared_without_recipient :
    allocate_shared_costs_with_labels (some (aggregated (("shop", entry "shop" 3) ∷ []))) []
    ≡ some (aggregated (("shop", entry "shop" 3) ∷ []))
unshared_without_recipient =
    allocate_shared_costs_unshared [] (aggregated (("shop", entry "shop" 3) ∷ []))
      (inr (inl nothing_shared))

allocate_shared_costs_settles_example :
    (r : AggregatedCosts Fixed) × (new : NamespaceCost Fixed) × (allocate_shared_costs_with_labels
        (some costs)
        []
      ≡ some r)
    × (get "shop" r.by_namespace ≡ some new)
    × IsSettled
        (Allocation.is_shared [] "shop")
        (Allocation.shared [] costs)
        (sum_of (λ e. e.1.direct_cost) (Allocation.paying [] costs))
        (length (Allocation.paying [] costs))
        (entry "shop" 3)
        new
allocate_shared_costs_settles_example =
    allocate_shared_costs_settles [] costs "shop" (entry "shop" 3) some_shared some_paying
      found_shop

allocate_shared_costs_totals_example :
    (r : AggregatedCosts Fixed) × (allocate_shared_costs_with_labels (some costs) [] ≡ some r)
    × (r.total_cost ≡ sum_of (λ e. e.1.total_cost) (Allocation.receiving [] r.by_namespace))
    × ((team : String)
        → Allocation.IsTeamEntry team
            (Allocation.team_entries team (Allocation.receiving [] r.by_namespace))
            (get team r.by_team))
allocate_shared_costs_totals_example = allocate_shared_costs_totals [] costs some_shared some_paying
