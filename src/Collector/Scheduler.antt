-- ===== src/Collector/Scheduler.antt =====
-- pkg/collector/scheduler.go: a cycle of the cost collection, which calls `CostCollector` and
-- `CostStore`, and the loop over the cycles. The interfaces are those that cmd/orchestrator wires:
-- the collector of this package and the TimescaleDB store. The clock is read once in a cycle.
pub mod Cycles
use eks_financial_orchestrat.Common.{ℕ, String, Option, none, some, List, [], ◌∷◌}
use eks_financial_orchestrat.Common.Dict.{Dict}
use eks_financial_orchestrat.Common.Float.{Float}
use eks_financial_orchestrat.Common.Result.{Result, ok, err}
use eks_financial_orchestrat.Types.{Time}
use eks_financial_orchestrat.Collector.Costs.{ClusterMetrics, AwsCostData, AggregatedCosts}
use eks_financial_orchestrat.Collector.Cache.{CostCache, FetchError, fetch_aws_costs}
use eks_financial_orchestrat.Collector.Correlate.{correlate_and_aggregate}
use eks_financial_orchestrat.Collector.Metrics.{
  MetricsError, Answers, collect_cluster_metrics, allocate_costs,
}
use eks_financial_orchestrat.Collector.Store.{CostRow, StoreError, store_cost_records}

-- `E` is the type of the errors of the AWS fetcher.
pub data CycleError (E : Type 0) : Type 0 where
  metrics_failed : MetricsError → CycleError E
  costs_failed : FetchError E → CycleError E
  allocation_failed : CycleError E
  store_failed : StoreError → CycleError E

-- What a cycle meets: the clock, the cluster, and `FetchCosts` where a fetcher is configured.
pub record CycleInput (F E : Type 0) : Type 0 where
  pub now : Time
  pub cluster : Answers
  pub answer : Option (Result E (AwsCostData F))

-- What the cycles share: the cache, and the database.
pub record CycleState (F S : Type 0) : Type 0 where
  pub cache : Option (CostCache F)
  pub database : S

abbrev pub stored : {E S : Type 0} → Option StoreError × S → Option (CycleError E) × S
stored (none, s) = (none, s)
stored (some e, s) = (some (store_failed e), s)

module _ {F E S : Type 0} ⦃fl : Float F⦄
    (send : List (CostRow F) → S → (ℕ → Option String) × S) where
  -- Steps 4 and 5.
  abbrev pub persist : CycleInput F E → AggregatedCosts F → S → Option (CycleError E) × S
  persist i correlated s = elim (allocate_costs i.cluster.namespaces (some correlated)) [
    | none ↦ (some allocation_failed, s)
    | some c ↦ stored (store_cost_records send (some c) s)
  ]

  -- Steps 3 to 5, after the AWS costs were fetched.
  abbrev pub with_costs :
      CycleInput F E
      → ClusterMetrics F
      → Result (FetchError E) (AwsCostData F)
      → S
      → Option (CycleError E) × S
  with_costs i m (err e) s = (some (costs_failed e), s)
  with_costs i m (ok d) s = persist i (correlate_and_aggregate i.now (some m) (some d)) s

  abbrev pub with_metrics :
      CycleInput F E
      → Result MetricsError (ClusterMetrics F)
      → CycleState F S
      → Option (CycleError E) × CycleState F S
  with_metrics i (err e) s = (some (metrics_failed e), s)
  with_metrics i (ok m) s =
      let (fetched, cache) = fetch_aws_costs i.answer s.cache i.now in
      let (failure, database) = with_costs i m fetched s.database in
      (failure, record { cache = cache; database = database })

  -- `RunOnce`
  unfoldable pub run_once : CycleInput F E → CycleState F S → Option (CycleError E) × CycleState F S
  run_once i s = with_metrics i (collect_cluster_metrics i.now i.cluster) s

  -- `Start`, over the first cycle and those of the ticks before the context is done: an error is
  -- logged, and the loop goes on. `ctx.Err()`, which it returns, is left out.
  unfoldable pub start : List (CycleInput F E) → CycleState F S → CycleState F S
  start [] s = s
  start (i ∷ is) s = start is (run_once i s).1
