-- ===== src/Collector/Correlate.antt =====
-- pkg/collector/correlate.go: the AWS cost is spread over the pods by their share of CPU and memory,
-- and summed by namespace, service and team. `now` is `time.Now().UTC()`.
pub mod Sums
use Prim.Native.String.{◌++◌}
use eks_financial_orchestrat.Common.{
  ℕ, String, Bool, false, not, ◌&&◌, Option, none, some, List, [], ◌∷◌, foldl, nat_eq, length, ◌==◌,
  if◌then◌else◌,
}
use eks_financial_orchestrat.Common.Dict.{Dict, get, put, alter, or_zero, group, map_entries}
use eks_financial_orchestrat.Common.Float.{Float, ◌⊕◌, ◌⊗◌, ◌⊘◌}
use eks_financial_orchestrat.Types.{Time}
use eks_financial_orchestrat.Collector.Costs.{
  PodMetrics, ClusterMetrics, AwsCostData, NamespaceCost, TeamCost, AggregatedCosts,
}

-- The first of the keys that has a text, which is not empty.
abbrev first_label : String → Dict String → List String → String
first_label fallback labels [] = fallback
first_label fallback labels (k ∷ ks) =
    let v = or_zero "" (get k labels) in
    let rest = first_label fallback labels ks in if not (v == "") then v else rest

-- `podLabelOrDefault`
unfoldable pub pod_label_or_default : Option (Dict String) → String → List String → String
pod_label_or_default none fallback keys = fallback
pod_label_or_default (some labels) fallback keys = first_label fallback labels keys

module _ {F : Type 0} ⦃fl : Float F⦄ where
  -- `calculatePodWeight`
  unfoldable pub calculate_pod_weight : F → F → F → F → ℕ → F
  calculate_pod_weight pod_cpu pod_mem total_cpu total_mem pod_count =
      let cpu_zero = fl.eq total_cpu (fl.of_nat 0) in
      let mem_zero = fl.eq total_mem (fl.of_nat 0) in
      if nat_eq pod_count 0
      then fl.of_nat 0
      else if cpu_zero && mem_zero
      then fl.of_nat 1 ⊘ fl.of_nat pod_count
      else if cpu_zero
      then pod_mem ⊘ total_mem
      else if mem_zero
      then pod_cpu ⊘ total_cpu
      else (pod_cpu ⊘ total_cpu) ⊗ fl.ratio 1 2 ⊕ (pod_mem ⊘ total_mem) ⊗ fl.ratio 1 2

  abbrev pub sum_of {ℓ} : {A : Type ℓ} → (A → F) → List A → F
  sum_of f xs = foldl (λ t x. t ⊕ f x) (fl.of_nat 0) xs

  abbrev pub pod_key : PodMetrics F → String
  pod_key p = p.namespace ++ ("/" ++ p.name)

  -- The share of a pod in the whole cost.
  abbrev pub pod_share : List (PodMetrics F) → F → PodMetrics F → F
  pod_share pods total p =
      calculate_pod_weight p.cpu_usage p.mem_usage (sum_of (λ p. p.cpu_usage) pods)
        (sum_of (λ p. p.mem_usage) pods) (length pods)
      ⊗ total

  -- The loop that fills `podCosts`.
  unfoldable pub pod_costs : List (PodMetrics F) → F → Dict F
  pod_costs pods total = foldl (λ m p. put (pod_key p) (pod_share pods total p) m) [] pods

  abbrev pub service_of : PodMetrics F → String
  service_of p = pod_label_or_default p.labels "unknown" ("app" ∷ "service" ∷ [])

  abbrev pub team_of : PodMetrics F → String
  team_of p = pod_label_or_default p.labels "unknown" ("team" ∷ [])

  abbrev pub new_namespace : Bool → String → NamespaceCost F
  new_namespace approximate ns = record {
    namespace = ns;
    team = "";
    direct_cost = fl.of_nat 0;
    shared_cost = fl.of_nat 0;
    total_cost = fl.of_nat 0;
    by_service = [];
    by_pod = [];
    is_approximate = approximate;
  }

  abbrev pub new_team : String → TeamCost F
  new_team team = record {
    team = team;
    direct_cost = fl.of_nat 0;
    indirect_cost = fl.of_nat 0;
    total_cost = fl.of_nat 0;
    namespaces = [];
  }

  module _ (cost_of : PodMetrics F → F) where
    -- The body of the loop on the entry of the pod's namespace, and on that of its team.
    abbrev pub add_to_namespace : NamespaceCost F → PodMetrics F → NamespaceCost F
    add_to_namespace c p = record c {
      direct_cost = c.direct_cost ⊕ cost_of p;
      by_pod = put p.name (cost_of p) c.by_pod;
      by_service = alter (service_of p) (λ t. t ⊕ cost_of p) (fl.of_nat 0) c.by_service;
      team = if c.team == "" then team_of p else c.team;
    }

    abbrev pub add_to_team : TeamCost F → PodMetrics F → TeamCost F
    add_to_team c p = record c {
      direct_cost = c.direct_cost ⊕ cost_of p;
      namespaces = alter p.namespace (λ t. t ⊕ cost_of p) (fl.of_nat 0) c.namespaces;
    }

  abbrev pub finish_namespace : String → NamespaceCost F → NamespaceCost F
  finish_namespace _ c = record c { total_cost = c.direct_cost }

  abbrev pub finish_team : String → TeamCost F → TeamCost F
  finish_team _ c = record c { total_cost = c.direct_cost }

  abbrev pub cost_in : Dict F → PodMetrics F → F
  cost_in costs p = or_zero (fl.of_nat 0) (get (pod_key p) costs)

  -- The body of `correlateAndAggregate` past the guards for nil.
  unfoldable pub aggregate : Time → List (PodMetrics F) → F → Bool → AggregatedCosts F
  aggregate now pods total approximate =
      let costs = pod_costs pods total in
      let cost_of = cost_in costs in
      let by_namespace =
        map_entries finish_namespace (
          group (λ p. p.namespace) (add_to_namespace cost_of) (new_namespace approximate) []
            pods) in
      let by_team =
        map_entries finish_team (group team_of (add_to_team cost_of) new_team [] pods) in
      record {
        timestamp = now;
        by_namespace = by_namespace;
        by_team = by_team;
        total_cost = sum_of (λ e. e.1.total_cost) by_namespace;
      }

  -- A nil pointer stands for an empty record.
  abbrev pub pods_of : Option (ClusterMetrics F) → List (PodMetrics F)
  pods_of none = []
  pods_of (some m) = m.pods

  abbrev pub aws_total : Option (AwsCostData F) → F
  aws_total none = fl.of_nat 0
  aws_total (some c) = c.total_cost

  abbrev pub aws_approximate : Option (AwsCostData F) → Bool
  aws_approximate none = false
  aws_approximate (some c) = c.is_approximate

  -- `correlateAndAggregate`, whose error is always nil
  unfoldable pub correlate_and_aggregate :
      Time → Option (ClusterMetrics F) → Option (AwsCostData F) → AggregatedCosts F
  unfolding aggregate
  correlate_and_aggregate now metrics costs =
      aggregate now (pods_of metrics) (aws_total costs) (aws_approximate costs)
