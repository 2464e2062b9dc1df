-- ===== src/Collector/Correlate/Sums.antt =====
-- What the entries of `correlateAndAggregate` are sums of.
use eks_financial_orchestrat.Common.{
  String, ◌≡◌, refl, sym, ap, subst, ◌∙◌, ◌≢◌, Bool, Option, none, some, List, [], ◌∷◌, foldl,
  arith, eq_iff, ◌==◌, if◌then◌else◌, select,
}
use mathlib.Core.Option
use eks_financial_orchestrat.Common.Dict.{
  Dict, alter, get, put, or_zero, group, accumulate, get-group, accumulate-none, get-map_entries,
}
use eks_financial_orchestrat.Common.Float.{Float, ◌⊕◌}
use eks_financial_orchestrat.Types.{Time}
use eks_financial_orchestrat.Collector.Costs.{
  PodMetrics, ClusterMetrics, AwsCostData, NamespaceCost, TeamCost, AggregatedCosts,
}
use eks_financial_orchestrat.Collector.Correlate.{
  pod_label_or_default, sum_of, pod_costs, service_of, team_of, new_namespace, new_team,
  add_to_namespace, add_to_team, finish_namespace, finish_team, aggregate, cost_in, pods_of,
  aws_total, aws_approximate, correlate_and_aggregate,
}

-- A pod's team is never the empty text.
pub team_of-nonempty : {F : Type 0} ⦃fl : Float F⦄ (p : PodMetrics F) → team_of p ≢ ""
unfolding pod_label_or_default
team_of-nonempty p = go p.labels
  where
    go : (l : Option (Dict String)) → pod_label_or_default l "unknown" ("team" ∷ []) ≢ ""
    go none = λ e. ground (arith, eq_iff "unknown" "")
    go (some l) = λ e. ground (arith, eq_iff "unknown" "", eq_iff (or_zero "" (get "team" l)) "")

module _ {F : Type 0} ⦃fl : Float F⦄ where
  -- The sum over a list, where the empty list has none.
  abbrev pub total_of {ℓ} : {A : Type ℓ} → (A → F) → List A → Option F
  total_of f [] = none
  total_of f (x ∷ xs) = some (sum_of f (x ∷ xs))

  module _ (cost_of : PodMetrics F → F) where
    pub record IsNamespaceSum (approx : Bool) (ns : String) (p : PodMetrics F)
        (ps : List (PodMetrics F)) (c : NamespaceCost F) : Type 0 where
      pub namespace : c.namespace ≡ ns
      pub team : c.team ≡ team_of p
      pub direct : c.direct_cost ≡ sum_of cost_of (p ∷ ps)
      pub shared : c.shared_cost ≡ fl.of_nat 0
      pub total : c.total_cost ≡ c.direct_cost
      pub services :
          (service : String)
          → get service c.by_service
            ≡ total_of cost_of (select (λ p. service_of p == service) (p ∷ ps))
      pub approximate : c.is_approximate ≡ approx

    -- The entry of a namespace whose pods are given.
    abbrev pub IsNamespaceEntry :
        Bool → String → List (PodMetrics F) → Option (NamespaceCost F) → Type 0
    IsNamespaceEntry approximate ns [] o = o ≡ none
    IsNamespaceEntry approximate ns (p ∷ ps) o =
        (c : NamespaceCost F) × (o ≡ some c) × IsNamespaceSum approximate ns p ps c

    pub record IsTeamSum (name : String) (ps : List (PodMetrics F)) (c : TeamCost F) : Type 0 where
      pub team : c.team ≡ name
      pub direct : c.direct_cost ≡ sum_of cost_of ps
      pub indirect : c.indirect_cost ≡ fl.of_nat 0
      pub total : c.total_cost ≡ c.direct_cost
      pub namespaces :
          (ns : String)
          → get ns c.namespaces ≡ total_of cost_of (select (λ p. p.namespace == ns) ps)

    abbrev pub IsTeamEntry : String → List (PodMetrics F) → Option (TeamCost F) → Type 0
    IsTeamEntry team [] o = o ≡ none
    IsTeamEntry team (p ∷ ps) o = (c : TeamCost F) × (o ≡ some c) × IsTeamSum team (p ∷ ps) c

    -- Grouping costs by a key.
    get-sums :
        (key : PodMetrics F → String) (k : String) (ps : List (PodMetrics F))
        → get k (group key (λ t p. t ⊕ cost_of p) (λ _. fl.of_nat 0) [] ps)
          ≡ total_of cost_of (select (λ p. key p == k) ps)
    unfolding get
    get-sums key k ps =
        get-group key (λ t p. t ⊕ cost_of p) (λ _. fl.of_nat 0) k [] ps
        ∙ go (select (λ p. key p == k) ps)
      where
        go :
            (ps : List (PodMetrics F))
            → accumulate key (λ t p. t ⊕ cost_of p) (λ _. fl.of_nat 0) k none ps
              ≡ total_of cost_of ps
        go [] = refl
        go (p ∷ ps) = accumulate-none key (λ t p. t ⊕ cost_of p) (λ _. fl.of_nat 0) k (p ∷ ps)

    -- What the loop leaves in an entry, field by field.
    namespace_fold :
        (c : NamespaceCost F) (ps : List (PodMetrics F))
        → c.team ≢ ""
        → foldl (add_to_namespace cost_of) c ps ≡ record c {
          direct_cost = foldl (λ t p. t ⊕ cost_of p) c.direct_cost ps;
          by_pod = foldl (λ m p. put p.name (cost_of p) m) c.by_pod ps;
          by_service = group service_of (λ t p. t ⊕ cost_of p) (λ _. fl.of_nat 0) c.by_service ps;
        }
    unfolding group
    namespace_fold c [] h = refl
    namespace_fold c (p ∷ ps) h =
        let kept : (if c.team == "" then team_of p else c.team) ≡ c.team =
          ground (arith, eq_iff c.team "") in
        let rest = namespace_fold (add_to_namespace cost_of c p) ps (λ e. h (sym kept ∙ e)) in
        rw kept (rw kept at rest)

    team_fold :
        (c : TeamCost F) (ps : List (PodMetrics F))
        → foldl (add_to_team cost_of) c ps ≡ record c {
          direct_cost = foldl (λ t p. t ⊕ cost_of p) c.direct_cost ps;
          namespaces =
              group (λ p. p.namespace) (λ t p. t ⊕ cost_of p) (λ _. fl.of_nat 0) c.namespaces ps;
        }
    unfolding group
    team_fold c [] = refl
    team_fold c (p ∷ ps) = team_fold (add_to_team cost_of c p) ps

    namespace_sum :
        (approx : Bool) (ns : String) (p : PodMetrics F) (ps : List (PodMetrics F))
        → IsNamespaceSum approx ns p ps (
            finish_namespace ns
              (foldl (add_to_namespace cost_of) (new_namespace approx ns) (p ∷ ps)))
    unfolding get group alter
    namespace_sum approx ns p ps =
        let first = add_to_namespace cost_of (new_namespace approx ns) p in
        let whole = namespace_fold first ps (team_of-nonempty p) in
        record {
          namespace = ap (λ c. c.namespace) whole;
          team = ap (λ c. c.team) whole;
          direct = ap (λ c. c.direct_cost) whole;
          shared = ap (λ c. c.shared_cost) whole;
          total = refl;
          services = λ service.
              ap (λ c. get service c.by_service) whole ∙ get-sums service_of service (p ∷ ps);
          approximate = ap (λ c. c.is_approximate) whole;
        }

    team_sum :
        (team : String) (ps : List (PodMetrics F))
        → IsTeamSum team ps (finish_team team (foldl (add_to_team cost_of) (new_team team) ps))
    team_sum team ps =
        let whole = team_fold (new_team team) ps in
        record {
          team = ap (λ c. c.team) whole;
          direct = ap (λ c. c.direct_cost) whole;
          indirect = ap (λ c. c.indirect_cost) whole;
          total = refl;
          namespaces =
              λ ns. ap (λ c. get ns c.namespaces) whole ∙ get-sums (λ p. p.namespace) ns ps;
        }

    namespace_entry :
        (approx : Bool) (ns : String) (ps : List (PodMetrics F))
        → IsNamespaceEntry approx ns ps (
            Option.map (finish_namespace ns) (
              accumulate
                (λ p. p.namespace)
                (add_to_namespace cost_of)
                (new_namespace approx)
                ns
                none
                ps))
    namespace_entry approx ns [] = refl
    namespace_entry approx ns (p ∷ ps) = (
      finish_namespace ns (foldl (add_to_namespace cost_of) (new_namespace approx ns) (p ∷ ps)),
      ap (Option.map (finish_namespace ns)) (
          accumulate-none (λ p. p.namespace) (add_to_namespace cost_of) (new_namespace approx) ns
            (p ∷ ps)),
      namespace_sum approx ns p ps,
    )

    team_entry :
        (team : String) (ps : List (PodMetrics F))
        → IsTeamEntry team ps (
            Option.map
              (finish_team team)
              (accumulate team_of (add_to_team cost_of) new_team team none ps))
    team_entry team [] = refl
    team_entry team (p ∷ ps) = (
      finish_team team (foldl (add_to_team cost_of) (new_team team) (p ∷ ps)),
      ap (Option.map (finish_team team))
          (accumulate-none team_of (add_to_team cost_of) new_team team (p ∷ ps)),
      team_sum team (p ∷ ps),
    )

  module _ (now : Time) (metrics : Option (ClusterMetrics F)) (costs : Option (AwsCostData F)) where
    abbrev result : AggregatedCosts F
    result = correlate_and_aggregate now metrics costs

    abbrev cost_of : PodMetrics F → F
    cost_of = cost_in (pod_costs (pods_of metrics) (aws_total costs))

    -- A namespace has an entry exactly when it has pods. Its direct and total cost are the sum of
    -- the costs of its pods in their order, its cost by service the sums for each service label, and
    -- its team the team of its first pod, whatever the other pods cost. It has no shared cost, and
    -- is approximate when the AWS data is.
    pub correlate_namespaces :
        (ns : String)
        → IsNamespaceEntry cost_of
            (aws_approximate costs)
            ns
            (select (λ p. p.namespace == ns) (pods_of metrics))
            (get ns result.by_namespace)
    unfolding correlate_and_aggregate aggregate get
    correlate_namespaces ns =
        let approx = aws_approximate costs in
        let pods = pods_of metrics in
        let step = add_to_namespace cost_of in
        let grouped = get-group (λ p. p.namespace) step (new_namespace approx) ns [] pods in
        subst (IsNamespaceEntry cost_of approx ns (select (λ p. p.namespace == ns) pods))
          (sym (
            get-map_entries finish_namespace ns
              (group (λ p. p.namespace) step (new_namespace approx) [] pods)
            ∙ ap (Option.map (finish_namespace ns)) grouped))
          (namespace_entry cost_of approx ns (select (λ p. p.namespace == ns) pods))

    -- A team has an entry exactly when a pod is labelled with it (with "unknown" for no label). Its
    -- direct and total cost are the sum of the costs of its pods, over all namespaces and in their
    -- order, with a sum for each namespace; it has no indirect cost.
    pub correlate_teams :
        (team : String)
        → IsTeamEntry cost_of team
            (select (λ p. team_of p == team) (pods_of metrics))
            (get team result.by_team)
    unfolding correlate_and_aggregate aggregate get
    correlate_teams team =
        let pods = pods_of metrics in
        let step = add_to_team cost_of in
        let grouped = get-group team_of step new_team team [] pods in
        subst (IsTeamEntry cost_of team (select (λ p. team_of p == team) pods))
          (sym (
            get-map_entries finish_team team (group team_of step new_team [] pods)
            ∙ ap (Option.map (finish_team team)) grouped))
          (team_entry cost_of team (select (λ p. team_of p == team) pods))
