-- ===== src/Collector/SharedCosts.antt =====
-- pkg/collector/shared_costs.go: the cost of system namespaces is spread over the others. A list of
-- names stands for the entries that it names, in their order; nil maps are empty.
pub mod Allocation
use eks_financial_orchestrat.Common.{
  ℕ, String, Bool, true, not, ◌&&◌, ◌||◌, Option, none, some, List, [], ◌∷◌, select, nat_eq, length,
  ◌==◌, if◌then◌else◌,
}
use eks_financial_orchestrat.Common.Dict.{Dict, get, put, or_zero, group, map_entries}
use eks_financial_orchestrat.Common.Float.{Float, ◌⊕◌, ◌⊗◌, ◌⊘◌}
use eks_financial_orchestrat.Collector.Costs.{NamespaceCost, TeamCost, AggregatedCosts}
use eks_financial_orchestrat.Collector.Correlate.{sum_of, new_team}

abbrev pub shared_label_key : String
shared_label_key = "finops.eks.io/shared"

abbrev pub unallocated_team : String
unallocated_team = "unallocated"

-- `systemNamespaces[ns]`
abbrev pub is_well_known : String → Bool
is_well_known ns = (ns == "kube-system") || ((ns == "kube-public") || (ns == "kube-node-lease"))

-- `isSystemNamespace`
unfoldable pub is_system_namespace : String → Dict String → Bool
is_system_namespace ns labels =
    is_well_known ns || (or_zero "" (get shared_label_key labels) == "true")

abbrev pub Entry : Type 0 → Type 0
Entry F = String × NamespaceCost F

abbrev pub is_system : Dict (Dict String) → String → Bool
is_system labels ns = is_system_namespace ns (or_zero [] (get ns labels))

module _ {F : Type 0} ⦃fl : Float F⦄ where
  abbrev pub systems : Dict (Dict String) → Dict (NamespaceCost F) → Dict (NamespaceCost F)
  systems labels m = select (λ e. is_system labels e.0) m

  abbrev pub recipients : Dict (Dict String) → Dict (NamespaceCost F) → Dict (NamespaceCost F)
  recipients labels m = select (λ e. not (is_system labels e.0)) m

  abbrev pub direct_sum : Dict (NamespaceCost F) → F
  direct_sum m = sum_of (λ e. e.1.direct_cost) m

  -- The share of one of `count` recipients, whose direct costs are `direct` in all.
  abbrev pub share_of : F → F → ℕ → NamespaceCost F → F
  share_of shared direct count c =
      if fl.eq direct (fl.of_nat 0)
      then shared ⊘ fl.of_nat count
      else shared ⊗ (c.direct_cost ⊘ direct)

  abbrev pub receive : F → NamespaceCost F → NamespaceCost F
  receive share c =
      let received = c.shared_cost ⊕ share in
      record c { shared_cost = received; total_cost = c.direct_cost ⊕ received }

  -- What the two loops make of an entry.
  abbrev pub settle : Dict (Dict String) → F → F → ℕ → String → NamespaceCost F → NamespaceCost F
  settle labels shared direct count ns c =
      if is_system labels ns
      then record c { total_cost = fl.of_nat 0 }
      else receive (share_of shared direct count c) c

  abbrev pub team_for : Entry F → String
  team_for e = if e.1.team == "" then unallocated_team else e.1.team

  abbrev pub add_namespace : TeamCost F → Entry F → TeamCost F
  add_namespace t e =
      let direct = t.direct_cost ⊕ e.1.direct_cost in
      let indirect = t.indirect_cost ⊕ e.1.shared_cost in
      record t {
        direct_cost = direct;
        indirect_cost = indirect;
        total_cost = direct ⊕ indirect;
        namespaces = put e.0 e.1.total_cost t.namespaces;
      }

  -- The body past the guards.
  unfoldable pub allocate : Dict (Dict String) → AggregatedCosts F → AggregatedCosts F
  allocate labels costs =
      let m = costs.by_namespace in
      let paying = recipients labels m in
      let shared = direct_sum (systems labels m) in
      let settled = map_entries (settle labels shared (direct_sum paying) (length paying)) m in
      let paid = recipients labels settled in
      record costs {
        by_namespace = settled;
        by_team = group team_for add_namespace new_team [] paid;
        total_cost = sum_of (λ e. e.1.total_cost) paid;
      }

  -- Nothing to share, or nobody to share it with.
  abbrev pub is_unshared : Dict (Dict String) → AggregatedCosts F → Bool
  is_unshared labels costs =
      nat_eq (length costs.by_namespace) 0
      || (fl.eq (direct_sum (systems labels costs.by_namespace)) (fl.of_nat 0)
          || nat_eq (length (recipients labels costs.by_namespace)) 0)

  -- `allocateSharedCostsWithLabels`; the three guards for maps return the costs as they are.
  unfoldable pub allocate_shared_costs_with_labels :
      Option (AggregatedCosts F) → Dict (Dict String) → Option (AggregatedCosts F)
  unfolding allocate
  allocate_shared_costs_with_labels none labels = none
  allocate_shared_costs_with_labels (some costs) labels =
      some (if is_unshared labels costs then costs else allocate labels costs)

  -- `allocateSharedCosts`
  unfoldable pub allocate_shared_costs : Option (AggregatedCosts F) → Option (AggregatedCosts F)
  unfolding allocate_shared_costs_with_labels
  allocate_shared_costs costs = allocate_shared_costs_with_labels costs []
