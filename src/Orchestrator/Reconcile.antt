-- ===== src/Orchestrator/Reconcile.antt =====
-- pkg/orchestrator/controller.go: `Reconcile`.
pub mod Outcome
pub mod Advisory
use eks_financial_orchestrat.Common.{
  ℕ, ◌*◌, String, Bool, Option, none, some, List, [], ◌∷◌, foldl, any, ◌==◌, if◌then◌else◌,
}
use eks_financial_orchestrat.Common.Float.{Float, ◌⊕◌, ◌⊗◌, ◌⊘◌}
use eks_financial_orchestrat.Common.Result.{Result, ok, err}
use eks_financial_orchestrat.Sql.{QueryError}
use eks_financial_orchestrat.Types.{
  Time, FinancialPolicy, policy_phase_error, policy_mode_automatic,
}
use eks_financial_orchestrat.Kube.{ApiError, not_found, other}
use eks_financial_orchestrat.Collector.Costs.{DailyCostRecord}
use eks_financial_orchestrat.Audit.{AuditLogEntry, text, number, flag}
use eks_financial_orchestrat.Instance.Apply.{audit}
use eks_financial_orchestrat.Orchestrator.{OrchestratorReconciler, Library}
use eks_financial_orchestrat.Orchestrator.Actions.{
  system_entry, execute_breach_action, apply_automatic_optimization,
  generate_advisory_recommendation, handle_optimization_failure,
}

pub data ReconcileError : Type 0 where
  fetch_failed : ApiError → ReconcileError
  query_failed : QueryError → ReconcileError
  update_failed : ApiError → ReconcileError

-- `ctrl.Result`, by the time after which the request is made again, or the error.
abbrev pub Reconciled : Type 0
Reconciled = Result ReconcileError (Option ℕ)

-- 5 minutes, in nanoseconds
abbrev pub requeue_after : ℕ
requeue_after = 5 * 60 * 1_000_000_000

-- What a policy is evaluated to.
pub record Evaluation (F : Type 0) : Type 0 where
  pub cost : F
  pub usage : F
  pub breached : Bool

abbrev pub updated : {F S : Type 0} → Result ApiError (FinancialPolicy F) × S → Reconciled × S
updated (ok fp, s) = (ok (some requeue_after), s)
updated (err e, s) = (err (update_failed e), s)

module _ {F : Type 0} ⦃fl : Float F⦄ where
  abbrev pub current_cost_of : List (DailyCostRecord F) → F
  current_cost_of records = foldl (λ t r. t ⊕ r.total_cost) (fl.of_nat 0) records

  abbrev pub usage_of : F → F → F
  usage_of limit cost =
      if fl.lt (fl.of_nat 0) limit then cost ⊘ limit ⊗ fl.of_nat 100 else fl.of_nat 0

  abbrev pub is_breached : F → List F → Bool
  is_breached usage thresholds = any (λ t. fl.le t usage) thresholds

  abbrev pub evaluate : FinancialPolicy F → List (DailyCostRecord F) → Evaluation F
  evaluate fp records =
      let cost = current_cost_of records in
      let usage = usage_of fp.spec.budget.monthly_limit cost in
      record {
        cost = cost;
        usage = usage;
        breached = is_breached usage fp.spec.budget.alert_thresholds;
      }

  abbrev pub evaluation_entry : Time → FinancialPolicy F → Evaluation F → AuditLogEntry F
  evaluation_entry now fp e =
      system_entry now "policy_evaluate" fp.name fp.namespace
        (("current_cost", number e.cost)
          ∷ ("budget_limit", number fp.spec.budget.monthly_limit)
          ∷ ("budget_usage_pct", number e.usage)
          ∷ ("breach_detected", flag e.breached)
          ∷ ("mode", text fp.spec.mode)
          ∷ [])
        "" "success"

  -- The policy whose status is updated.
  abbrev pub evaluated : Time → FinancialPolicy F → Evaluation F → FinancialPolicy F
  evaluated now fp e =
      let status = fp.status in
      record fp {
        status = record status {
          current_cost = e.cost;
          budget_usage_percent = e.usage;
          last_evaluated = some now;
        };
      }

  module _ {S : Type 0} (r : OrchestratorReconciler F S) (lib : Library F) (now : Time) where
    -- The breach action, whose error is only logged.
    abbrev pub on_breach : FinancialPolicy F → Evaluation F → S → S
    on_breach fp e s =
        if e.breached
        then (execute_breach_action r.send_alert r.write_entry lib now fp e.cost e.usage s).1
        else s

    abbrev pub after_optimization : FinancialPolicy F → Option String × S → S
    after_optimization fp (none, s) = s
    after_optimization fp (some failure, s) =
        handle_optimization_failure r.send_alert r.write_entry lib now fp failure s

    abbrev pub by_mode : FinancialPolicy F → S → S
    by_mode fp s =
        if fp.spec.mode == policy_mode_automatic
        then after_optimization fp (apply_automatic_optimization r.instances fp s)
        else generate_advisory_recommendation r.instances fp s

    -- All that a reconciliation does before it updates the status.
    abbrev pub act : FinancialPolicy F → Evaluation F → S → S
    act fp e s = audit r.write_entry (evaluation_entry now fp e) (by_mode fp (on_breach fp e s))

    abbrev pub with_records :
        FinancialPolicy F → Result QueryError (List (DailyCostRecord F)) → S → Reconciled × S
    with_records fp (err e) s = (err (query_failed e), s)
    with_records fp (ok records) s =
        let e = evaluate fp records in
        updated (r.client.status_update (evaluated now fp e) (act fp e s))

    abbrev pub with_policy : Result ApiError (FinancialPolicy F) → S → Reconciled × S
    with_policy (err not_found) s = (ok none, s)
    with_policy (err (other e)) s = (err (fetch_failed (other e)), s)
    with_policy (ok fp) s =
        let rest =
          with_records fp
            (r.query_cost_records (lib.start_of_month now) now fp.spec.target_namespace s) s in
        if fp.status.phase == policy_phase_error then (ok none, s) else rest

    -- `Reconcile`, of the policy with a namespace and a name
    unfoldable pub reconcile : String → String → S → Reconciled × S
    reconcile namespace name s = with_policy (r.client.get namespace name s) s
