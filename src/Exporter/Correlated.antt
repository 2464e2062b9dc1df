-- ===== src/Exporter/Correlated.antt =====
-- The exporter on the costs that the collector correlates.
use eks_financial_orchestrat.Common.{
  ◌≡◌, refl, ◌∙◌, String, Bool, Option, none, some, List, [], ◌∷◌, ◌==◌, eq_iff, arith,
  if◌then◌else◌, select,
}
use eks_financial_orchestrat.Common.Dict.{get, IsMap, group, group-IsMap, map_entries-IsMap}
use eks_financial_orchestrat.Common.Float.{Float}
use eks_financial_orchestrat.Types.{Time}
use eks_financial_orchestrat.Collector.Costs.{
  PodMetrics, ClusterMetrics, AwsCostData, NamespaceCost,
}
use eks_financial_orchestrat.Collector.Correlate.{
  sum_of, pod_costs, team_of, new_namespace, add_to_namespace, finish_namespace, aggregate, cost_in,
  pods_of, aws_total, aws_approximate, correlate_and_aggregate,
}
use eks_financial_orchestrat.Collector.Correlate.Sums.{
  IsNamespaceSum, IsNamespaceEntry, correlate_namespaces, team_of-nonempty,
}
use eks_financial_orchestrat.Exporter.{GaugeVec, Metrics, team_label, update_cost_metrics}
use eks_financial_orchestrat.Exporter.Values.{under_team, update_cost_metrics-value}

module _ {F : Type 0} ⦃fl : Float F⦄ where
  -- The sum of the costs of the pods of a namespace, under the team of the first of them.
  abbrev pub pods_reported : (PodMetrics F → F) → String → List (PodMetrics F) → Option F
  pods_reported cost_of team [] = none
  pods_reported cost_of team (p ∷ ps) =
      if team_of p == team then some (sum_of cost_of (p ∷ ps)) else none

  correlate_and_aggregate-IsMap :
      (now : Time) (metrics : Option (ClusterMetrics F)) (costs : Option (AwsCostData F))
      → IsMap (correlate_and_aggregate now metrics costs).by_namespace
  unfolding correlate_and_aggregate aggregate
  correlate_and_aggregate-IsMap now metrics costs =
      map_entries-IsMap finish_namespace
        (group (λ p. p.namespace)
          (add_to_namespace (cost_in (pod_costs (pods_of metrics) (aws_total costs))))
          (new_namespace (aws_approximate costs)) [] (pods_of metrics))
        (group-IsMap (λ p. p.namespace)
          (add_to_namespace (cost_in (pod_costs (pods_of metrics) (aws_total costs))))
          (new_namespace (aws_approximate costs)) [] (pods_of metrics) tt)

  under_team-pods :
      (cost_of : PodMetrics F → F) (approx : Bool) (ns team : String) (p : PodMetrics F)
      (ps : List (PodMetrics F)) (c : NamespaceCost F)
      → IsNamespaceSum cost_of approx ns p ps c
      → under_team team c ≡ pods_reported cost_of team (p ∷ ps)
  under_team-pods cost_of approx ns team p ps c is =
      let label : team_label c ≡ team_of p =
        ground (arith, is.team, team_of-nonempty p, eq_iff c.team "") in
      rw (label, is.total, is.direct) refl

  entry-pods :
      (cost_of : PodMetrics F → F) (approx : Bool) (ns team : String) (ps : List (PodMetrics F))
      (o : Option (NamespaceCost F))
      → IsNamespaceEntry cost_of approx ns ps o
      → elim o [ none ↦ none | some c ↦ under_team team c ] ≡ pods_reported cost_of team ps
  entry-pods cost_of approx ns team [] o e = rw e refl
  entry-pods cost_of approx ns team (p ∷ ps) o (c, e, is) =
      rw e (under_team-pods cost_of approx ns team p ps c is)

  -- After the export of correlated costs there is a value for a namespace and a team exactly when
  -- the namespace has pods and the first of them is of that team; it is the sum of the costs of the
  -- namespace's pods. So no value from before is left. Every other metric is as it was.
  pub update_cost_metrics-correlated :
      {G C : Type 0} (gauge : GaugeVec G F) (now : Time) (metrics : Option (ClusterMetrics F))
      (costs : Option (AwsCostData F)) (namespace team : String) (m : Metrics G F C)
      → (gauge.value namespace team
            (update_cost_metrics gauge
              (some (correlate_and_aggregate now metrics costs))
              m).cost_per_namespace
          ≡ pods_reported
              (cost_in (pod_costs (pods_of metrics) (aws_total costs)))
              team
              (select (λ p. p.namespace == namespace) (pods_of metrics)))
        × (update_cost_metrics gauge (some (correlate_and_aggregate now metrics costs)) m
            ≡ record m {
              cost_per_namespace =
                  (update_cost_metrics gauge
                    (some (correlate_and_aggregate now metrics costs))
                    m).cost_per_namespace;
            })
  update_cost_metrics-correlated gauge now metrics costs namespace team m =
      let aggregated = correlate_and_aggregate now metrics costs in
      let (value, kept) =
        update_cost_metrics-value gauge namespace team aggregated m
          (correlate_and_aggregate-IsMap now metrics costs) in
      (
        value
            ∙ entry-pods (cost_in (pod_costs (pods_of metrics) (aws_total costs)))
                (aws_approximate costs) namespace team
                (select (λ p. p.namespace == namespace) (pods_of metrics))
                (get namespace aggregated.by_namespace)
                (correlate_namespaces now metrics costs namespace),
        kept,
      )
