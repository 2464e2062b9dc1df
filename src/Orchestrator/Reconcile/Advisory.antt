-- ===== src/Orchestrator/Reconcile/Advisory.antt =====
-- pkg/orchestrator/controller.go: the instance manager has no say in advisory mode.
use eks_financial_orchestrat.Common.{
  String, ◌≡◌, ◌≢◌, refl, false, Option, List, eq_iff, arith, ◌==◌,
}
use eks_financial_orchestrat.Common.Float.{Float}
use eks_financial_orchestrat.Common.Result.{Result, ok, err}
use eks_financial_orchestrat.Sql.{QueryError}
use eks_financial_orchestrat.Types.{Time, FinancialPolicy, policy_mode_automatic}
use eks_financial_orchestrat.Collector.Costs.{DailyCostRecord}
use eks_financial_orchestrat.Orchestrator.{Instances, OrchestratorReconciler, Library}
use eks_financial_orchestrat.Orchestrator.Reconcile.{
  by_mode, act, with_records, with_policy, reconcile,
}

abbrev pub with_instances :
    {F S : Type 0}
    → OrchestratorReconciler F S
    → Option (Instances F S)
    → OrchestratorReconciler F S
with_instances r m = record r { instances = m }

module _ {F S : Type 0} ⦃fl : Float F⦄ (r : OrchestratorReconciler F S) (lib : Library F)
    (now : Time) where
  by_mode-advisory :
      (m : Option (Instances F S)) (fp : FinancialPolicy F) (s : S)
      → fp.spec.mode ≢ policy_mode_automatic
      → by_mode (with_instances r m) lib now fp s ≡ by_mode r lib now fp s
  by_mode-advisory m fp s h =
      let test : (fp.spec.mode == policy_mode_automatic) ≡ false =
        ground (arith, eq_iff fp.spec.mode policy_mode_automatic) in
      rw test refl

  with_records-advisory :
      (m : Option (Instances F S)) (fp : FinancialPolicy F)
      (answer : Result QueryError (List (DailyCostRecord F))) (s : S)
      → fp.spec.mode ≢ policy_mode_automatic
      → with_records (with_instances r m) lib now fp answer s ≡ with_records r lib now fp answer s
  with_records-advisory m fp (err e) s h = refl
  with_records-advisory m fp (ok records) s h =
      rw (with_records, act, by_mode-advisory m fp _ h) refl

  -- For a policy that is not in automatic mode, the result of a reconciliation and all its effects
  -- are the same whatever the instance manager is and does, also when there is none: no
  -- recommendation is applied.
  pub reconcile-advisory :
      (m : Option (Instances F S)) (namespace name : String) (s : S) (fp : FinancialPolicy F)
      → r.client.get namespace name s ≡ ok fp
      → fp.spec.mode ≢ policy_mode_automatic
      → reconcile (with_instances r m) lib now namespace name s
        ≡ reconcile r lib now namespace name s
  unfolding reconcile
  reconcile-advisory m namespace name s fp found h =
      let answer = r.query_cost_records (lib.start_of_month now) now fp.spec.target_namespace s in
      rw (found, with_policy, with_records-advisory m fp answer s h) refl
