-- ===== src/Collector/Scheduler/Cycles.antt =====
-- What the loop over the cycles leaves in the database, described without a cache and without shared
-- costs.
use eks_financial_orchestrat.Common.{
  ℕ, ◌-◌, String, ◌≡◌, refl, ap, ◌∙◌, Option, none, some, List, [], ◌∷◌, arith, ltb, true, false,
  length, if◌then◌else◌,
}
use eks_financial_orchestrat.Common.Float.{Float}
use eks_financial_orchestrat.Common.Result.{Result, ok, err}
use eks_financial_orchestrat.Types.{Time}
use eks_financial_orchestrat.Collector.Costs.{ClusterMetrics, AwsCostData, AggregatedCosts}
use eks_financial_orchestrat.Collector.Cache.{
  CostCache, FetchError, new_cost_cache, set_cached, approximate, fall_back, fetch_aws_costs,
  default_cache_ttl,
}
use eks_financial_orchestrat.Collector.Cache.Fresh.{
  Holds, Returns, fresh, stale, nothing, fall_back-Returns,
}
use eks_financial_orchestrat.Collector.Correlate.{correlate_and_aggregate}
use eks_financial_orchestrat.Collector.SharedCosts.{allocate_shared_costs_with_labels}
use eks_financial_orchestrat.Collector.Metrics.{
  MetricsError, collect_cluster_metrics, allocate_costs, namespace_labels,
}
use eks_financial_orchestrat.Collector.Store.{
  CostRow, StoreError, rows_of, send_rows, first_failure, store_cost_records,
}
use eks_financial_orchestrat.Collector.Store.Direct.{store_cost_records-allocate}
use eks_financial_orchestrat.Collector.Scheduler.{
  CycleInput, CycleState, stored, persist, with_costs, with_metrics, run_once, start,
}

module _ {F : Type 0} where
  -- The costs that a cycle works on, by AWS's answer and the last good one before.
  abbrev pub usable :
      {E : Type 0}
      → Time
      → Option (Result E (AwsCostData F))
      → Option (Time × AwsCostData F)
      → Option (AwsCostData F)
  usable now none last = none
  usable now (some (ok d)) last = some d
  usable now (some (err e)) none = none
  usable now (some (err e)) (some (t, d)) =
      if ltb default_cache_ttl (now - t) then none else some (approximate d)

  abbrev pub latest :
      {E : Type 0}
      → Time
      → Option (Result E (AwsCostData F))
      → Option (Time × AwsCostData F)
      → Option (Time × AwsCostData F)
  latest now (some (ok d)) last = some (now, d)
  latest now (some (err e)) last = last
  latest now none last = last

-- The scheduler's state stands for the last good answer and the database.
abbrev StandsFor : {F S : Type 0} → Option (Time × AwsCostData F) × S → CycleState F S → Type 0
StandsFor {F = F} (last, s) st =
    (c : CostCache F) × (st.cache ≡ some c)
    × (c.ttl ≡ default_cache_ttl)
    × Holds last c
    × (st.database ≡ s)

module _ {F S : Type 0} ⦃fl : Float F⦄ (send : List (CostRow F) → S → (ℕ → Option String) × S) where
  abbrev pub deliver : List (CostRow F) → S → S
  deliver [] s = s
  deliver (r ∷ rs) s = (send (r ∷ rs) s).1

  abbrev pub charge : Time → ClusterMetrics F → Option (AwsCostData F) → S → S
  charge now m none s = s
  charge now m (some d) s = deliver (rows_of (correlate_and_aggregate now (some m) (some d))) s

  store_cost_records-deliver :
      (E : Type 0) (costs : AggregatedCosts F) (s : S)
      → (stored {E = E} (store_cost_records send (some costs) s)).1 ≡ deliver (rows_of costs) s
  unfolding store_cost_records
  store_cost_records-deliver E costs s = go (rows_of costs)
    where
      failure : (o : Option StoreError) (s' : S) → (stored {E = E} (o, s')).1 ≡ s'
      failure none s' = refl
      failure (some e) s' = refl

      go : (rs : List (CostRow F)) → (stored {E = E} (send_rows send rs s)).1 ≡ deliver rs s
      go [] = refl
      go (r ∷ rs) =
          failure (first_failure (send (r ∷ rs) s).0 0 (length (r ∷ rs))) (send (r ∷ rs) s).1

  module _ {E : Type 0} where
    -- A cycle on the last good answer and the database.
    abbrev pub cycle :
        CycleInput F E
        → Result MetricsError (ClusterMetrics F)
        → Option (Time × AwsCostData F)
        → S
        → Option (Time × AwsCostData F) × S
    cycle i (err e) last s = (last, s)
    cycle i (ok m) last s =
        (latest i.now i.answer last, charge i.now m (usable i.now i.answer last) s)

    abbrev pub cycles : List (CycleInput F E) → Option (Time × AwsCostData F) → S → S
    cycles [] last s = s
    cycles (i ∷ is) last s =
        let (last', s') = cycle i (collect_cluster_metrics i.now i.cluster) last s in
        cycles is last' s'

    persist-charge :
        (i : CycleInput F E) (m : ClusterMetrics F) (d : AwsCostData F) (s : S)
        → (persist send i (correlate_and_aggregate i.now (some m) (some d)) s).1
          ≡ charge i.now m (some d) s
    unfolding allocate_costs allocate_shared_costs_with_labels
    persist-charge i m d s =
        let correlated = correlate_and_aggregate i.now (some m) (some d) in
        ap (λ r. (stored {E = E} r).1)
          (store_cost_records-allocate send i.now (some m) (some d)
            (namespace_labels i.cluster.namespaces) s)
        ∙ store_cost_records-deliver E correlated s

    fetch-Holds :
        (answer : Option (Result E (AwsCostData F))) (c : CostCache F) (now : Time)
        (last : Option (Time × AwsCostData F))
        → c.ttl ≡ default_cache_ttl
        → Holds last c
        → (c' : CostCache F) × ((fetch_aws_costs answer (some c) now).1 ≡ some c')
          × (c'.ttl ≡ default_cache_ttl)
          × Holds (latest now answer last) c'
    unfolding fetch_aws_costs
    fetch-Holds none c now last ttl h = (c, refl, ttl, h)
    fetch-Holds (some (ok d)) c now last ttl h = (set_cached c now d, refl, ttl, (refl, refl))
    fetch-Holds (some (err e)) c now last ttl h = (c, refl, ttl, h)

    fallen_back :
        (i : CycleInput F E) (m : ClusterMetrics F) (s : S) (e : E)
        (last : Option (Time × AwsCostData F)) (r : Result (FetchError E) (AwsCostData F))
        → Returns i.now (err e) last r
        → (with_costs send i m r s).1 ≡ charge i.now m (usable i.now (some (err e)) last) s
    fallen_back i m s _ _ _ (fresh e t d soon) =
        let test : ltb default_cache_ttl (i.now - t) ≡ false = ground arith in
        rw test (persist-charge i m (approximate d) s)
    fallen_back i m s _ _ _ (stale e t d late) =
        let test : ltb default_cache_ttl (i.now - t) ≡ true = ground arith in rw test refl
    fallen_back i m s _ _ _ (nothing e) = refl

    fetch-charge :
        (i : CycleInput F E) (answer : Option (Result E (AwsCostData F))) (m : ClusterMetrics F)
        (c : CostCache F) (last : Option (Time × AwsCostData F)) (s : S)
        → c.ttl ≡ default_cache_ttl
        → Holds last c
        → (with_costs send i m (fetch_aws_costs answer (some c) i.now).0 s).1
          ≡ charge i.now m (usable i.now answer last) s
    unfolding fetch_aws_costs
    fetch-charge i none m c last s ttl h = refl
    fetch-charge i (some (ok d)) m c last s ttl h = persist-charge i m d s
    fetch-charge i (some (err e)) m c last s ttl h =
        fallen_back i m s e last (fall_back e (some c) i.now)
          (fall_back-Returns e c i.now last ttl h)

    run_once-StandsFor :
        (i : CycleInput F E) (last : Option (Time × AwsCostData F)) (s : S) (st : CycleState F S)
        → StandsFor (last, s) st
        → StandsFor
            (cycle i (collect_cluster_metrics i.now i.cluster) last s)
            (run_once send i st).1
    unfolding run_once
    run_once-StandsFor i last s st (c, same, ttl, h, here) =
        go (collect_cluster_metrics i.now i.cluster)
      where
        go :
            (r : Result MetricsError (ClusterMetrics F))
            → StandsFor (cycle i r last s) (with_metrics send i r st).1
        go (err e) = (c, same, ttl, h, here)
        go (ok m) =
            let (c', kept, ttl', h') = fetch-Holds i.answer c i.now last ttl h in
            let paid = fetch-charge i i.answer m c last s ttl h in
            rw (same, here) (c', kept, ttl', h', paid)

    start-StandsFor :
        (is : List (CycleInput F E)) (last : Option (Time × AwsCostData F)) (s : S)
        (st : CycleState F S)
        → StandsFor (last, s) st
        → (start send is st).database ≡ cycles is last s
    unfolding start
    start-StandsFor [] last s st (c, same, ttl, h, here) = here
    start-StandsFor (i ∷ is) last s st r =
        let next = cycle i (collect_cluster_metrics i.now i.cluster) last s in
        start-StandsFor is next.0 next.1 (run_once send i st).1 (run_once-StandsFor i last s st r)

    -- The database after any cycles, from an empty cache, is that of a description without a cache
    -- and without shared costs: a cycle whose metrics were collected sends the rows of the correlated
    -- costs, on AWS's answer or, if AWS failed, on the last good answer of at most 30 minutes before,
    -- marked as approximate. Any other cycle leaves the database as it is, and a cycle that fails
    -- keeps no later one from being run.
    pub start_cycles :
        (is : List (CycleInput F E)) (s : S)
        → (start send is (record { cache = some new_cost_cache; database = s })).database
          ≡ cycles is none s
    unfolding new_cost_cache
    start_cycles is s =
        start-StandsFor is none s (record { cache = some new_cost_cache; database = s })
          (new_cost_cache, refl, refl, refl, refl)
