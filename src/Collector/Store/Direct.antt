-- ===== src/Collector/Store/Direct.antt =====
-- What reaches the table of the shared costs.
use eks_financial_orchestrat.Common.{
  ℕ, String, ◌≡◌, refl, ◌≢◌, Bool, Bool-cases, inl, inr, Option, some, List, [], ◌∷◌, ◌==◌,
  if◌then◌else◌, All,
}
use eks_financial_orchestrat.Common.Dict.{Dict, alter, put, group, map_entries}
use eks_financial_orchestrat.Common.Float.{Float}
use eks_financial_orchestrat.Types.{Time}
use eks_financial_orchestrat.Collector.Costs.{
  PodMetrics, ClusterMetrics, AwsCostData, NamespaceCost, AggregatedCosts,
}
use eks_financial_orchestrat.Collector.Correlate.{
  aggregate, correlate_and_aggregate, add_to_namespace, new_namespace, finish_namespace,
}
use eks_financial_orchestrat.Collector.SharedCosts.{
  settle, share_of, receive, is_system, is_unshared, allocate, allocate_shared_costs_with_labels,
}
use eks_financial_orchestrat.Collector.Store.{
  CostRow, namespace_rows, entries_rows, rows_of, store_cost_records,
}

module _ {F : Type 0} ⦃fl : Float F⦄ where
  abbrev HasPods : String × NamespaceCost F → Type 0
  HasPods e = e.1.by_pod ≢ []

  put-nonempty : (k : String) (v : F) (m : Dict F) → put k v m ≢ []
  unfolding put alter
  put-nonempty k v [] = λ e. cc
  put-nonempty k v ((j, w) ∷ m) = elim (Bool-cases (j == k)) [
    | inl t ↦ λ e. cc (rw t at e)
    | inr f ↦ λ e. cc (rw f at e)
  ]

  module _ (cost_of : PodMetrics F → F) (approx : Bool) where
    alter-HasPods :
        (k : String) (p : PodMetrics F) (m : Dict (NamespaceCost F))
        → All HasPods m
        → All HasPods (alter k (λ c. add_to_namespace cost_of c p) (new_namespace approx k) m)
    unfolding alter
    alter-HasPods k p [] h = (put-nonempty p.name (cost_of p) [], tt)
    alter-HasPods k p ((j, c) ∷ m) (h, hs) = elim (Bool-cases (j == k)) [
      | inl t ↦ rw t (put-nonempty p.name (cost_of p) c.by_pod, hs)
      | inr f ↦ rw f (h, alter-HasPods k p m hs)
    ]

    group-HasPods :
        (ps : List (PodMetrics F)) (m : Dict (NamespaceCost F))
        → All HasPods m
        → All HasPods
            (group (λ p. p.namespace) (add_to_namespace cost_of) (new_namespace approx) m ps)
    unfolding group
    group-HasPods [] m h = h
    group-HasPods (p ∷ ps) m h = group-HasPods ps _ (alter-HasPods p.namespace p m h)

  finish-HasPods :
      (m : Dict (NamespaceCost F)) → All HasPods m → All HasPods (map_entries finish_namespace m)
  finish-HasPods [] h = tt
  finish-HasPods ((k, c) ∷ m) (h, hs) = (h, finish-HasPods m hs)

  correlate-HasPods :
      (now : Time) (metrics : Option (ClusterMetrics F)) (costs : Option (AwsCostData F))
      → All HasPods (correlate_and_aggregate now metrics costs).by_namespace
  unfolding correlate_and_aggregate aggregate
  correlate-HasPods now metrics costs = finish-HasPods _ (group-HasPods _ _ _ [] tt)

  abbrev reprice : NamespaceCost F → F → F → NamespaceCost F
  reprice c shared total = record c { shared_cost = shared; total_cost = total }

  -- The rows of pods do not depend on the namespace's shared and total cost.
  namespace_rows-reprice :
      (now : Time) (ns : String) (c : NamespaceCost F) (shared total : F) (ps : Dict F)
      → ps ≢ []
      → namespace_rows now ns (reprice c shared total) ps ≡ namespace_rows now ns c ps
  namespace_rows-reprice now ns c shared total [] h = elim (h refl) [ ]
  namespace_rows-reprice now ns c shared total (p ∷ ps) h = refl

  settle-reprice :
      (labels : Dict (Dict String)) (shared direct : F) (count : ℕ) (ns : String)
      (c : NamespaceCost F)
      → (x : F) × (y : F) × (settle labels shared direct count ns c ≡ reprice c x y)
  settle-reprice labels shared direct count ns c = elim (Bool-cases (is_system labels ns)) [
    | inl t ↦ (c.shared_cost, fl.of_nat 0, rw t refl)
    | inr f ↦
        let paid = receive (share_of shared direct count c) c in
        (paid.shared_cost, paid.total_cost, rw f refl)
  ]

  entries_rows-settle :
      (now : Time) (labels : Dict (Dict String)) (shared direct : F) (count : ℕ)
      (m : Dict (NamespaceCost F))
      → All HasPods m
      → entries_rows now (map_entries (settle labels shared direct count) m) ≡ entries_rows now m
  entries_rows-settle now labels shared direct count [] h = refl
  entries_rows-settle now labels shared direct count ((ns, c) ∷ m) (h, hs) =
      let rest = entries_rows-settle now labels shared direct count m hs in
      let (x, y, e) = settle-reprice labels shared direct count ns c in
      rw e (rw (namespace_rows-reprice now ns c x y c.by_pod h) (rw rest refl))

  rows_of-allocate :
      (labels : Dict (Dict String)) (c : AggregatedCosts F)
      → All HasPods c.by_namespace
      → rows_of (if is_unshared labels c then c else allocate labels c) ≡ rows_of c
  unfolding rows_of allocate
  rows_of-allocate labels c h = elim (Bool-cases (is_unshared labels c)) [
    | inl t ↦ rw t refl
    | inr f ↦ rw f (entries_rows-settle c.timestamp labels _ _ _ c.by_namespace h)
  ]

  -- Whatever pods, AWS costs and labels there are, storing the correlated costs after the shared
  -- costs were allocated sends the rows that storing them before would send, with the same answer
  -- and the same new state: no row carries a shared cost.
  pub store_cost_records-allocate :
      {S : Type 0} (send : List (CostRow F) → S → (ℕ → Option String) × S) (now : Time)
      (metrics : Option (ClusterMetrics F)) (costs : Option (AwsCostData F))
      (labels : Dict (Dict String)) (s : S)
      → let correlated = correlate_and_aggregate now metrics costs in
        store_cost_records send (allocate_shared_costs_with_labels (some correlated) labels) s
        ≡ store_cost_records send (some correlated) s
  unfolding store_cost_records allocate_shared_costs_with_labels
  store_cost_records-allocate send now metrics costs labels s =
      let correlated = correlate_and_aggregate now metrics costs in
      rw (rows_of-allocate labels correlated (correlate-HasPods now metrics costs)) refl
