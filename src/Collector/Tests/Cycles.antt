-- ===== src/Collector/Tests/Cycles.antt =====
-- Runs of the cost sources, the store and the scheduler.
use eks_financial_orchestrat.Common.{
  ℕ, String, ◌≡◌, refl, false, Option, none, some, List, [], ◌∷◌, ◌++◌, select,
}
use eks_financial_orchestrat.Common.Dict.{get}
use eks_financial_orchestrat.Common.Fixed.{Fixed, whole, fixed_float}
use eks_financial_orchestrat.Common.Result.{ok, err}
use eks_financial_orchestrat.Collector.Costs.{PodMetrics, ClusterMetrics, AwsCostData}
use eks_financial_orchestrat.Collector.Cache.{new_cost_cache, fetch_aws_costs}
use eks_financial_orchestrat.Collector.Cache.Fresh.{
  Calls, Returns, cache_after, last_good, fetch_aws_costs-Returns,
}
use eks_financial_orchestrat.Collector.Correlate.{correlate_and_aggregate, sum_of}
use eks_financial_orchestrat.Collector.Correlate.Sums.{total_of}
use eks_financial_orchestrat.Collector.Explorer.{
  CostGroup, ResultByTime, parse_cost_explorer_output,
}
use eks_financial_orchestrat.Collector.Explorer.Sums.{
  amount, has_service, has_tag, groups_of, parse_cost_explorer_output-sums,
}
use eks_financial_orchestrat.Collector.SharedCosts.{allocate_shared_costs_with_labels}
use eks_financial_orchestrat.Collector.Store.{CostRow, store_cost_records}
use eks_financial_orchestrat.Collector.Store.Direct.{store_cost_records-allocate}
use eks_financial_orchestrat.Collector.Metrics.{PodUsage, Answers, detect_purchase_option}
use eks_financial_orchestrat.Collector.Scheduler.{CycleInput, start}
use eks_financial_orchestrat.Collector.Scheduler.Cycles.{cycles, start_cycles}

abbrev bill : ℕ → AwsCostData Fixed
bill total = record {
  start_time = 0;
  end_time = 10;
  by_service = [];
  by_tag = [];
  total_cost = whole total;
  is_approximate = false;
}

-- Good data at the time 5, and a failed call since then.
abbrev calls : Calls Fixed String
calls = (9, err "timeout") ∷ (5, ok (bill 12)) ∷ []

fetch_aws_costs-Returns_example :
    Returns {E = String} 10
      (err "throttled")
      (last_good calls)
      (fetch_aws_costs (some (err "throttled")) (cache_after calls) 10).0
fetch_aws_costs-Returns_example = fetch_aws_costs-Returns calls 10 (err "throttled")

abbrev parse : String → Option Fixed
parse text = some (whole 3)

abbrev group_for : List String → CostGroup
group_for keys = record { keys = keys; metrics = ("UnblendedCost", some "3.00") ∷ [] }

abbrev results : List ResultByTime
results =
    record { groups = group_for ("AmazonEC2" ∷ "tag$blue" ∷ []) ∷ group_for ("AmazonS3" ∷ []) ∷ [] }
    ∷ record { groups = group_for ("AmazonEC2" ∷ "red" ∷ []) ∷ [] }
    ∷ []

parse_cost_explorer_output-sums_example :
    let parsed = parse_cost_explorer_output parse results 0 10 in
    (parsed.total_cost ≡ sum_of (λ g. amount parse g) (groups_of results))
    × ((service : String)
        → get service parsed.by_service
          ≡ total_of
              (λ g. amount parse g)
              (select (λ g. has_service service g.keys) (groups_of results)))
    × ((tag : String)
        → get tag parsed.by_tag
          ≡ total_of (λ g. amount parse g) (select (λ g. has_tag tag g.keys) (groups_of results)))
    × (parsed.is_approximate ≡ false)
parse_cost_explorer_output-sums_example = parse_cost_explorer_output-sums parse results 0 10

abbrev pod : String → String → ℕ → PodMetrics Fixed
pod name ns cpu = record {
  name = name;
  namespace = ns;
  node_name = "n1";
  cpu_usage = whole cpu;
  mem_usage = whole 1;
  net_usage = whole 0;
  storage = whole 0;
  labels = none;
}

abbrev metrics : ClusterMetrics Fixed
metrics = record {
  timestamp = 1;
  pods = pod "a" "shop" 1 ∷ pod "dns" "kube-system" 1 ∷ [];
  nodes = [];
}

-- A table that takes all rows.
abbrev take_rows :
    List (CostRow Fixed) → List (CostRow Fixed) → (ℕ → Option String) × List (CostRow Fixed)
take_rows rows table = (λ i. none, table ++ rows)

store_cost_records-allocate_example :
    let correlated = correlate_and_aggregate 10 (some metrics) (some (bill 12)) in
    store_cost_records take_rows (allocate_shared_costs_with_labels (some correlated) []) []
    ≡ store_cost_records take_rows (some correlated) []
store_cost_records-allocate_example =
    store_cost_records-allocate take_rows 10 (some metrics) (some (bill 12)) [] []

abbrev usage : PodUsage
usage = record {
  name = "a";
  namespace = "shop";
  containers = record { cpu_milli = 500; memory = 1024 } ∷ [];
}

abbrev answers : Answers
answers = record {
  pod_usages = ok (usage ∷ []);
  pods = ok [];
  node_usages = ok [];
  nodes = ok [];
  namespaces = err "forbidden";
}

-- Three cycles: with AWS's answer, with an error of AWS, and with one of the cluster.
abbrev inputs : List (CycleInput Fixed String)
inputs =
    record { now = 10; cluster = answers; answer = some (ok (bill 12)) }
    ∷ record { now = 20; cluster = answers; answer = some (err "throttled") }
    ∷ record {
      now = 30;
      cluster = record answers { pods = err "forbidden" };
      answer = some (ok (bill 13));
    }
    ∷ []

start_cycles_example :
    (start take_rows inputs (record { cache = some new_cost_cache; database = [] })).database
    ≡ cycles take_rows inputs none []
start_cycles_example = start_cycles take_rows inputs []

spot_node : detect_purchase_option (("karpenter.sh/capacity-type", "spot") ∷ []) [] ≡ "spot"
unfolding detect_purchase_option get
spot_node = refl

unknown_capacity :
    detect_purchase_option (("karpenter.sh/capacity-type", "reserved") ∷ []) [] ≡ "on_demand"
unfolding detect_purchase_option get
unknown_capacity = refl
