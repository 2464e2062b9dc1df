-- ===== src/Instance.antt =====
-- pkg/instance/manager.go and types.go: `DefaultInstanceManager`. The lists of nodes and pods that the
-- Kubernetes client returns, and its eviction call over a state, are parameters.
mod Tests
pub mod Recommend
pub mod Apply
pub mod Savings
pub mod Limits
pub mod Nodes
use eks_financial_orchestrat.Common.{
  ℕ, zero, suc, ◌+◌, ◌-◌, String, Bool, true, false, not, ◌&&◌, ◌||◌, Option, none, some, List, [],
  ◌∷◌, ◌++◌, foldl, any, ltb, length, ◌==◌, if◌then◌else◌,
}
use eks_financial_orchestrat.Common.Dict.{Dict, get, or_zero, group, map_entries}
use eks_financial_orchestrat.Common.Float.{Float, ◌⊕◌, ◌⊖◌, ◌⊗◌, ◌⊘◌}
use eks_financial_orchestrat.Common.Result.{Result, ok, err}
use eks_financial_orchestrat.Types.{Time, InstanceMixSpec, FinancialPolicy}

pub record PurchaseOptionStats (F : Type 0) : Type 0 where
  pub count : ℕ
  pub percentage : F
  pub cost : F

pub record InstanceMixAnalysis (F : Type 0) : Type 0 where
  pub timestamp : Time
  pub total_nodes : ℕ
  pub by_purchase_option : Dict (PurchaseOptionStats F)
  pub current_cost : F
  pub optimal_cost : F
  pub potential_savings : F

-- What the code reads of nodes and pods. A nil map is empty.
pub record Node : Type 0 where
  pub labels : Dict String

pub record Pod : Type 0 where
  pub name : String
  pub namespace : String
  pub annotations : Dict String
  pub owner_kinds : List String

abbrev pub purchase_option_labels : List String
purchase_option_labels =
    "eks.amazonaws.com/capacityType" ∷ "karpenter.sh/capacity-type"
    ∷ "finops.eks.io/purchase-option" ∷ []

-- `normalizePurchaseOption`
unfoldable pub normalize_purchase_option : String → String
normalize_purchase_option raw =
    if (raw == "ON_DEMAND")
      || ((raw == "on-demand") || ((raw == "ondemand") || (raw == "OnDemand")))
    then "on_demand"
    else if (raw == "SPOT") || (raw == "Spot")
    then "spot"
    else if (raw == "RESERVED") || (raw == "Reserved")
    then "reserved"
    else if raw == ""
    then "on_demand"
    else raw

abbrev classify_by : Dict String → List String → String
classify_by labels [] = "on_demand"
classify_by labels (k ∷ ks) =
    let v = or_zero "" (get k labels) in
    let rest = classify_by labels ks in if not (v == "") then normalize_purchase_option v else rest

-- `classifyNode`
unfoldable pub classify_node : Node → String
classify_node n = classify_by n.labels purchase_option_labels

abbrev pub is_present {ℓ} : {A : Type ℓ} → Option A → Bool
is_present none = false
is_present (some v) = true

-- The loop body of `HandleSpotInterruption` skips the pods that pass this test.
unfoldable pub is_skipped : Pod → Bool
is_skipped p =
    is_present (get "kubernetes.io/config.mirror" p.annotations)
    || any (λ k. k == "DaemonSet") p.owner_kinds

-- The eviction call, with its error, over a state of the cluster.
module _ {S : Type 0} (evict : String → String → S → Option String × S) where
  unfoldable pub evict_all : S → List Pod → S
  evict_all s [] = s
  evict_all s (p ∷ ps) =
      let next = (evict p.namespace p.name s).1 in
      let skipped = evict_all s ps in
      let evicted = evict_all next ps in if is_skipped p then skipped else evicted

  -- `HandleSpotInterruption`, whose error is always nil, for the answer to the listing of the node's
  -- pods.
  unfoldable pub handle_spot_interruption : Result String (List Pod) → S → S
  handle_spot_interruption (err e) s = s
  handle_spot_interruption (ok pods) s = evict_all s pods

module _ {F : Type 0} ⦃fl : Float F⦄ where
  abbrev pub hundred : F
  hundred = fl.of_nat 100

  -- `estimatedHourlyCost`, where an unknown option costs as much as on demand.
  abbrev pub hourly_cost : String → F
  hourly_cost option =
      if option == "spot"
      then fl.ratio 70 1000
      else if option == "reserved"
      then fl.ratio 120 1000
      else fl.ratio 192 1000

  abbrev pub monthly_hours : F
  monthly_hours = fl.of_nat 730

  abbrev pub count_node : PurchaseOptionStats F → Node → PurchaseOptionStats F
  count_node s n = record s { count = s.count + 1 }

  abbrev pub no_stats : String → PurchaseOptionStats F
  no_stats _ = record { count = 0; percentage = fl.of_nat 0; cost = fl.of_nat 0 }

  abbrev pub rate : ℕ → String → PurchaseOptionStats F → PurchaseOptionStats F
  rate total option s = record s {
    percentage =
        if ltb 0 total then (fl.of_nat s.count ⊘ fl.of_nat total) ⊗ hundred else s.percentage;
    cost = (fl.of_nat s.count ⊗ hourly_cost option) ⊗ monthly_hours;
  }

  abbrev pub not_negative : F → F
  not_negative x = if fl.lt x (fl.of_nat 0) then fl.of_nat 0 else x

  -- `AnalyzeInstanceMix`, once the nodes are listed. `on_demand` and `spot` are the node counts of the
  -- cheapest mix with 20 % on demand.
  unfoldable pub analyze_instance_mix : Time → List Node → InstanceMixAnalysis F
  analyze_instance_mix now nodes =
      let total = length nodes in
      let stats = map_entries (rate total) (group classify_node count_node no_stats [] nodes) in
      let current = foldl (λ t e. t ⊕ e.1.cost) (fl.of_nat 0) stats in
      let spot = fl.to_int (fl.of_nat total ⊗ (fl.of_nat 1 ⊖ fl.ratio 20 100)) in
      let on_demand = total - spot in
      let optimal =
        (fl.of_nat on_demand ⊗ hourly_cost "on_demand") ⊗ monthly_hours
        ⊕ (fl.of_nat spot ⊗ hourly_cost "spot") ⊗ monthly_hours in
      record {
        timestamp = now;
        total_nodes = total;
        by_purchase_option = stats;
        current_cost = current;
        optimal_cost = optimal;
        potential_savings = not_negative (current ⊖ optimal);
      }
