-- ===== src/Collector/Metrics.antt =====
-- pkg/collector/collector.go: the metrics of pods and nodes, and the calls of `CostCollector` around
-- the other files. What the Kubernetes API answers to each list call is an argument; a quantity is
-- known by its `MilliValue` (CPU) or its `Value` (memory), which are not negative.
use Prim.Native.String.{◌++◌}
use eks_financial_orchestrat.Common.{
  ℕ, String, Option, none, some, List, [], map, foldl, ◌==◌, if◌then◌else◌,
}
use eks_financial_orchestrat.Common.Dict.{Dict, get, put, or_zero}
use eks_financial_orchestrat.Common.Float.{Float, ◌⊕◌, ◌⊘◌}
use eks_financial_orchestrat.Common.Result.{Result, ok, err, ◌>>=◌, map_err}
use eks_financial_orchestrat.Types.{Time}
use eks_financial_orchestrat.Collector.Costs.{
  CurData, PodMetrics, NodeMetrics, ClusterMetrics, AggregatedCosts,
}
use eks_financial_orchestrat.Collector.Cache.{
  FetchError, not_configured, bucket_not_configured, cur_failed,
}
use eks_financial_orchestrat.Collector.SharedCosts.{allocate_shared_costs_with_labels}

-- The usage or the capacity of a container or node.
pub record Resources : Type 0 where
  pub cpu_milli : ℕ
  pub memory : ℕ

pub record PodUsage : Type 0 where
  pub name : String
  pub namespace : String
  pub containers : List Resources

pub record NodeUsage : Type 0 where
  pub name : String
  pub usage : Resources

pub record Pod : Type 0 where
  pub name : String
  pub namespace : String
  pub node_name : String
  pub labels : Option (Dict String)

pub record Node : Type 0 where
  pub name : String
  pub labels : Option (Dict String)
  pub annotations : Option (Dict String)
  pub capacity : Resources

pub data MetricsError : Type 0 where
  listing_pod_metrics listing_pods listing_node_metrics listing_nodes : String → MetricsError

abbrev pub on_demand : String
on_demand = "on_demand"

-- A switch on two texts of a label, which falls through to `rest`.
abbrev pub capacity_type : String → String → Option String → String → String
capacity_type spot demand none rest = rest
capacity_type spot demand (some c) rest =
    if c == spot then "spot" else if c == demand then on_demand else rest

-- `detectPurchaseOption`
unfoldable pub detect_purchase_option : Dict String → Dict String → String
detect_purchase_option labels annotations = elim (get "finops.eks.io/purchase-option" labels) [
  | some o ↦ o
  | none ↦ elim (get "finops.eks.io/purchase-option" annotations) [
    | some o ↦ o
    | none ↦
        capacity_type "spot" "on-demand" (get "karpenter.sh/capacity-type" labels)
          (capacity_type "SPOT" "ON_DEMAND" (get "eks.amazonaws.com/capacityType" labels) on_demand)
  ]
]

-- `podLookup`
abbrev pub pod_lookup : List Pod → Dict Pod
pod_lookup pods = foldl (λ m p. put (p.namespace ++ ("/" ++ p.name)) p m) [] pods

-- `nodeLookup`
abbrev pub node_lookup : List Node → Dict Node
node_lookup nodes = foldl (λ m n. put n.name n m) [] nodes

-- What the cluster answers to the five list calls of a cycle.
pub record Answers : Type 0 where
  pub pod_usages : Result String (List PodUsage)
  pub pods : Result String (List Pod)
  pub node_usages : Result String (List NodeUsage)
  pub nodes : Result String (List Node)
  pub namespaces : Result String (List (String × Dict String))

-- The labels of the namespaces; none of them after an error.
abbrev pub namespace_labels : Result String (List (String × Dict String)) → Dict (Dict String)
namespace_labels (err e) = []
namespace_labels (ok nss) = foldl (λ m e. put e.0 e.1 m) [] nss

module _ {F : Type 0} ⦃fl : Float F⦄ where
  -- `quantityToFloat64Cores`
  abbrev pub quantity_to_float64_cores : ℕ → F
  quantity_to_float64_cores milli = fl.of_nat milli ⊘ fl.of_nat 1000

  -- `quantityToFloat64Bytes`
  abbrev pub quantity_to_float64_bytes : ℕ → F
  quantity_to_float64_bytes value = fl.of_nat value

  abbrev pub pod_cores : List Resources → F
  pod_cores cs = foldl (λ t c. t ⊕ quantity_to_float64_cores c.cpu_milli) (fl.of_nat 0) cs

  abbrev pub pod_bytes : List Resources → F
  pod_bytes cs = foldl (λ t c. t ⊕ quantity_to_float64_bytes c.memory) (fl.of_nat 0) cs

  abbrev pub pod_metrics : PodUsage → Option Pod → PodMetrics F
  pod_metrics u found = record {
    name = u.name;
    namespace = u.namespace;
    node_name = elim found [ none ↦ "" | some p ↦ p.node_name ];
    cpu_usage = pod_cores u.containers;
    mem_usage = pod_bytes u.containers;
    net_usage = fl.of_nat 0;
    storage = fl.of_nat 0;
    labels = elim found [ none ↦ none | some p ↦ p.labels ];
  }

  -- `collectPodMetrics`
  unfoldable pub collect_pod_metrics :
      Result String (List PodUsage)
      → Result String (List Pod)
      → Result MetricsError (List (PodMetrics F))
  collect_pod_metrics usages listed = map_err listing_pod_metrics usages >>= λ us.
      map_err listing_pods listed >>= λ pods.
      ok (map (λ u. pod_metrics u (get (u.namespace ++ ("/" ++ u.name)) (pod_lookup pods))) us)

  abbrev pub node_metrics : NodeUsage → Option Node → NodeMetrics F
  node_metrics u none = record {
    name = u.name;
    instance_type = "";
    purchase_option = "";
    cpu_capacity = fl.of_nat 0;
    cpu_usage = quantity_to_float64_cores u.usage.cpu_milli;
    mem_capacity = fl.of_nat 0;
    mem_usage = quantity_to_float64_bytes u.usage.memory;
    net_usage = fl.of_nat 0;
    storage = fl.of_nat 0;
    labels = none;
  }
  node_metrics u (some n) = record {
    name = u.name;
    instance_type = or_zero "" (get "node.kubernetes.io/instance-type" (or_zero [] n.labels));
    purchase_option = detect_purchase_option (or_zero [] n.labels) (or_zero [] n.annotations);
    cpu_capacity = quantity_to_float64_cores n.capacity.cpu_milli;
    cpu_usage = quantity_to_float64_cores u.usage.cpu_milli;
    mem_capacity = quantity_to_float64_bytes n.capacity.memory;
    mem_usage = quantity_to_float64_bytes u.usage.memory;
    net_usage = fl.of_nat 0;
    storage = fl.of_nat 0;
    labels = n.labels;
  }

  -- `collectNodeMetrics`
  unfoldable pub collect_node_metrics :
      Result String (List NodeUsage)
      → Result String (List Node)
      → Result MetricsError (List (NodeMetrics F))
  collect_node_metrics usages listed = map_err listing_node_metrics usages >>= λ us.
      map_err listing_nodes listed >>= λ nodes.
      ok (map (λ u. node_metrics u (get u.name (node_lookup nodes))) us)

  -- `CollectClusterMetrics`
  unfoldable pub collect_cluster_metrics : Time → Answers → Result MetricsError (ClusterMetrics F)
  unfolding collect_pod_metrics collect_node_metrics
  collect_cluster_metrics now a = collect_pod_metrics a.pod_usages a.pods >>= λ pods.
      collect_node_metrics a.node_usages a.nodes >>= λ nodes.
      ok (record { timestamp = now; pods = pods; nodes = nodes })

  -- `AllocateSharedCosts`, with a Kubernetes client; an error only for nil costs
  unfoldable pub allocate_costs :
      Result String (List (String × Dict String))
      → Option (AggregatedCosts F)
      → Option (AggregatedCosts F)
  allocate_costs answer costs = allocate_shared_costs_with_labels costs (namespace_labels answer)

  -- `FetchCURData`, with the result of `FetchCUR` where there is a fetcher
  unfoldable pub fetch_cur_data :
      {E : Type 0} → Option (Result E (CurData F)) → String → Result (FetchError E) (CurData F)
  fetch_cur_data none bucket = err not_configured
  fetch_cur_data (some answer) bucket =
      if bucket == "" then err bucket_not_configured else map_err cur_failed answer
