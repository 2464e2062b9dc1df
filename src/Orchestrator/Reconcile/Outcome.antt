-- ===== src/Orchestrator/Reconcile/Outcome.antt =====
-- pkg/orchestrator/controller.go: what a reconciliation leaves of the policy.
use eks_financial_orchestrat.Common.{
  ◌*◌, String, ◌≡◌, ◌≢◌, refl, ap, ◌∙◌, inl, inr, false, Bool-cases, Option, none, some, List,
  eq_iff, arith, ◌==◌, if◌then◌else◌,
}
use eks_financial_orchestrat.Common.Float.{Float, ◌⊗◌, ◌⊘◌}
use eks_financial_orchestrat.Common.Result.{Result, ok, err}
use eks_financial_orchestrat.Types.{
  Time, FinancialPolicy, policy_mode_automatic, policy_phase_error, breach_action_alert,
}
use eks_financial_orchestrat.Kube.{ApiError, IsApiServer}
use eks_financial_orchestrat.Collector.Costs.{DailyCostRecord}
use eks_financial_orchestrat.Collector.Correlate.{sum_of}
use eks_financial_orchestrat.Alerting.{Alert}
use eks_financial_orchestrat.Audit.{AuditLogEntry}
use eks_financial_orchestrat.Instance.Apply.{OptimizationResult, audit}
use eks_financial_orchestrat.Instance.Recommend.{OptimizationRecommendation}
use eks_financial_orchestrat.Orchestrator.{Instances, OrchestratorReconciler, Library}
use eks_financial_orchestrat.Orchestrator.Actions.{
  alert_if, alert_on_breach, then_audit, execute_breach_action, apply_if_saving, applied,
  recommendation, apply_automatic_optimization, handle_optimization_failure, breach_alert,
  breach_entry, failure_alert, failure_entry,
}
use eks_financial_orchestrat.Orchestrator.Reconcile.{
  Evaluation, update_failed, Reconciled, evaluate, evaluated, evaluation_entry, on_breach,
  after_optimization, by_mode, act, updated, with_records, with_policy, reconcile,
}

-- The alert manager, the audit log and the instance manager do not write policies.
pub record KeepsPolicies {F S : Type 0} (r : OrchestratorReconciler F S) : Type 0 where
  pub alerts :
      (send : Alert F → S → Option String × S)
      → r.send_alert ≡ some send
      → (a : Alert F) (s : S) (ns n : String) → r.client.get ns n (send a s).1 ≡ r.client.get ns n s
  pub entries :
      (write : AuditLogEntry F → S → Option String × S)
      → r.write_entry ≡ some write
      → (e : AuditLogEntry F) (s : S) (ns n : String)
      → r.client.get ns n (write e s).1 ≡ r.client.get ns n s
  pub applications :
      (m : Instances F S)
      → r.instances ≡ some m
      → (rec : OptimizationRecommendation F) (s : S) (ns n : String)
      → r.client.get ns n (m.apply rec s).1 ≡ r.client.get ns n s

module _ {F S : Type 0} ⦃fl : Float F⦄ (r : OrchestratorReconciler F S) (now : Time)
    (ns n : String) where
  -- The policy is on the server with the spec it had. Its status has the sum of the costs, the part
  -- of the monthly limit that they are, in percent (0 without a positive limit), and the time.
  pub record IsEvaluated (fp : FinancialPolicy F) (records : List (DailyCostRecord F)) (s : S)
      : Type 0 where
    pub stored : FinancialPolicy F
    pub reads : r.client.get ns n s ≡ ok stored
    pub spec : stored.spec ≡ fp.spec
    pub cost : stored.status.current_cost ≡ sum_of (λ d. d.total_cost) records
    pub usage : stored.status.budget_usage_percent ≡ (
        let limit = fp.spec.budget.monthly_limit in
        if fl.lt (fl.of_nat 0) limit
        then sum_of (λ d. d.total_cost) records ⊘ limit ⊗ fl.of_nat 100
        else fl.of_nat 0)
    pub evaluated_at : stored.status.last_evaluated ≡ some now
    pub phase : stored.status.phase ≡ fp.status.phase
    pub conditions : stored.status.conditions ≡ fp.status.conditions

  -- How a reconciliation ends that could read the policy and its costs.
  pub data Ends (fp : FinancialPolicy F) (records : List (DailyCostRecord F))
      : Reconciled × S → Type 0 where
    rejected :
        (p : FinancialPolicy F) (before s : S) (failure : ApiError)
        → r.client.status_update p before ≡ (err failure, s)
        → Ends fp records (err (update_failed failure), s)
    requeued :
        (s : S) → IsEvaluated fp records s → Ends fp records (ok (some (5 * 60 * 1_000_000_000)), s)

module _ {F S : Type 0} ⦃fl : Float F⦄ (r : OrchestratorReconciler F S) (keeps : KeepsPolicies r)
    (lib : Library F) (now : Time) (ns n : String) where
  -- The policy is the same in both states.
  abbrev Same : S → S → Type 0
  Same s s' = r.client.get ns n s' ≡ r.client.get ns n s

  alert-Same :
      (alerts : Option (Alert F → S → Option String × S))
      → r.send_alert ≡ alerts
      → (a : Alert F) (s : S) → Same s (alert_if alerts a s).1
  alert-Same none e a s = refl
  alert-Same (some send) e a s = keeps.alerts send e a s ns n

  audit-Same :
      (writer : Option (AuditLogEntry F → S → Option String × S))
      → r.write_entry ≡ writer
      → (entry : AuditLogEntry F) (s : S) → Same s (audit writer entry s)
  audit-Same none e entry s = refl
  audit-Same (some write) e entry s = keeps.entries write e entry s ns n

  then_audit-Same :
      (entry : AuditLogEntry F) (s : S) (o : Option String × S)
      → Same s o.1
      → Same s (then_audit r.write_entry entry o).1
  then_audit-Same entry s (some failure, s') h = h
  then_audit-Same entry s (none, s') h = audit-Same r.write_entry refl entry s' ∙ h

  alert_on_breach-Same :
      (fp : FinancialPolicy F) (a : Alert F) (s : S)
      → Same s (alert_on_breach r.send_alert fp a s).1
  alert_on_breach-Same fp a s =
      elim (Bool-cases (fp.spec.budget.breach_action == breach_action_alert)) [
        | inl t ↦ rw t (alert-Same r.send_alert refl a s)
        | inr f ↦ rw f refl
      ]

  breach-Same :
      (fp : FinancialPolicy F) (e : Evaluation F) (s : S) → Same s (on_breach r lib now fp e s)
  unfolding execute_breach_action
  breach-Same fp e s = elim (Bool-cases e.breached) [
    | inr f ↦ rw f refl
    | inl t ↦
        let a = breach_alert lib now fp e.cost e.usage in
        rw t (
          then_audit-Same (breach_entry now fp e.cost e.usage) s
            (alert_on_breach r.send_alert fp a s) (alert_on_breach-Same fp a s))
  ]

  applied-state : (o : Result String (OptimizationResult F) × S) → (applied o).1 ≡ o.1
  applied-state (ok result, s) = refl
  applied-state (err e, s) = refl

  saving-Same :
      (m : Instances F S)
      → r.instances ≡ some m
      → (rec : Result String (OptimizationRecommendation F)) (s : S)
      → Same s (apply_if_saving m rec s).1
  saving-Same m here (err e) s = refl
  saving-Same m here (ok rec) s = elim (Bool-cases (fl.le rec.expected_savings (fl.of_nat 0))) [
    | inl t ↦ rw t refl
    | inr f ↦ rw (f, applied-state (m.apply rec s)) (keeps.applications m here rec s ns n)
  ]

  optimization-Same :
      (m : Option (Instances F S))
      → r.instances ≡ m
      → (fp : FinancialPolicy F) (s : S) → Same s (apply_automatic_optimization m fp s).1
  unfolding apply_automatic_optimization
  optimization-Same none here fp s = refl
  optimization-Same (some m) here fp s = saving-Same m here (recommendation m fp s) s

  after-Same :
      (fp : FinancialPolicy F) (o : Option String × S)
      → Same o.1 (after_optimization r lib now fp o)
  unfolding handle_optimization_failure
  after-Same fp (none, s) = refl
  after-Same fp (some failure, s) =
      let logged = audit r.write_entry (failure_entry now fp failure) s in
      alert-Same r.send_alert refl (failure_alert lib now fp failure) logged
      ∙ audit-Same r.write_entry refl (failure_entry now fp failure) s

  by_mode-Same : (fp : FinancialPolicy F) (s : S) → Same s (by_mode r lib now fp s)
  by_mode-Same fp s = elim (Bool-cases (fp.spec.mode == policy_mode_automatic)) [
    | inl t ↦ rw t (
        after-Same fp (apply_automatic_optimization r.instances fp s)
        ∙ optimization-Same r.instances refl fp s)
    | inr f ↦ rw f refl
  ]

  act-Same : (fp : FinancialPolicy F) (e : Evaluation F) (s : S) → Same s (act r lib now fp e s)
  act-Same fp e s =
      let breached = on_breach r lib now fp e s in
      audit-Same r.write_entry refl (evaluation_entry now fp e) (by_mode r lib now fp breached)
      ∙ by_mode-Same fp breached
      ∙ breach-Same fp e s

  updated-Ends :
      IsApiServer r.client
      → (fp : FinancialPolicy F) (records : List (DailyCostRecord F)) (s : S) → fp.namespace ≡ ns
      → fp.name ≡ n
      → r.client.get ns n s ≡ ok fp
      → (o : Result ApiError (FinancialPolicy F) × S)
      → r.client.status_update (evaluated now fp (evaluate fp records)) s ≡ o
      → Ends r now ns n fp records (updated o)
  updated-Ends server fp records s same_ns same_n here (err failure, s') h =
      rejected (evaluated now fp (evaluate fp records)) s s' failure h
  updated-Ends server fp records s same_ns same_n here (ok q, s') h =
      let found : r.client.get fp.namespace fp.name s ≡ ok fp =
        ap (λ a. r.client.get a fp.name s) same_ns ∙ ap (λ a. r.client.get ns a s) same_n ∙ here in
      let (stored, reads, _, spec, status) =
        server.status_update_stores (evaluated now fp (evaluate fp records)) q fp s s' h found in
      requeued s' (record {
        stored = stored;
        reads = rw (same_ns, same_n) at reads;
        spec = spec;
        cost = ap (λ t. t.current_cost) status;
        usage = ap (λ t. t.budget_usage_percent) status;
        evaluated_at = ap (λ t. t.last_evaluated) status;
        phase = ap (λ t. t.phase) status;
        conditions = ap (λ t. t.conditions) status;
      })

  -- On a server that keeps its laws, with an alert manager, an audit log and an instance manager
  -- that do not write policies: when the policy can be read, is not in the phase Error and its
  -- costs can be read, a reconciliation comes to its end whatever the breach action, the
  -- optimization and the audit log return. If the status update is accepted, the reconciliation is
  -- to be repeated after 5 minutes, and the policy on the server has in its status the sum of the
  -- costs since the start of the month, its percentage of the monthly limit (0 if that is not
  -- positive) and the time of the evaluation; its spec, its phase and its conditions are what they
  -- were, so a failed optimization does not switch its mode. Otherwise the server refused a
  -- status update, and its error is returned.
  pub reconcile-Ends :
      IsApiServer r.client
      → (s : S) (fp : FinancialPolicy F) (records : List (DailyCostRecord F))
      → r.client.get ns n s ≡ ok fp
      → fp.status.phase ≢ "Error"
      → r.query_cost_records (lib.start_of_month now) now fp.spec.target_namespace s ≡ ok records
      → Ends r now ns n fp records (reconcile r lib now ns n s)
  unfolding reconcile
  reconcile-Ends server s fp records found phase answered =
      let e = evaluate fp records in
      let test : (fp.status.phase == policy_phase_error) ≡ false =
        ground (arith, eq_iff fp.status.phase policy_phase_error) in
      let (same_ns, same_n) = server.get_names ns n s fp found in
      let kept : r.client.get ns n (act r lib now fp e s) ≡ ok fp = act-Same fp e s ∙ found in
      rw (found, with_policy, test, answered, with_records)
        (updated-Ends server fp records (act r lib now fp e s) same_ns same_n kept
          (r.client.status_update (evaluated now fp e) (act r lib now fp e s)) refl)
