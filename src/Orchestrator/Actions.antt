-- ===== src/Orchestrator/Actions.antt =====
-- pkg/orchestrator/controller.go: the breach actions, and the optimization of the instance mix.
use Prim.Native.String.{◌++◌}
use eks_financial_orchestrat.Common.{String, Option, none, some, [], ◌∷◌, ◌==◌, if◌then◌else◌}
use eks_financial_orchestrat.Common.Float.{Float}
use eks_financial_orchestrat.Common.Result.{Result, ok, err, ◌>>=◌, map_err}
use eks_financial_orchestrat.Types.{
  Time, FinancialPolicy, breach_action_alert, policy_mode_advisory,
}
use eks_financial_orchestrat.Alerting.{Alert}
use eks_financial_orchestrat.Audit.{AuditLogEntry, Details, text, number}
use eks_financial_orchestrat.Instance.Recommend.{OptimizationRecommendation}
use eks_financial_orchestrat.Instance.Apply.{OptimizationResult, audit}
use eks_financial_orchestrat.Orchestrator.{Instances, Library}

module _ {F : Type 0} ⦃fl : Float F⦄ where
  abbrev pub system_entry :
      Time → String → String → String → Details F → String → String → AuditLogEntry F
  system_entry now action name namespace details reason result = record {
    id = "";
    timestamp = now;
    actor = "system";
    action = action;
    resource_type = "FinancialPolicy";
    resource_name = name;
    namespace = namespace;
    details = details;
    reason = reason;
    expected_savings = fl.of_nat 0;
    result = result;
  }

  abbrev pub breach_alert : Library F → Time → FinancialPolicy F → F → F → Alert F
  breach_alert lib now fp cost usage = record {
    id = "breach-" ++ (fp.name ++ ("-" ++ lib.digits now));
    timestamp = now;
    severity = "warning";
    category = "budget";
    namespace = fp.spec.target_namespace;
    current_cost = cost;
    budget_limit = fp.spec.budget.monthly_limit;
    usage_percent = usage;
    message =
        "Budget breach detected: "
        ++ (lib.one_decimal usage
            ++ ("% of $" ++ (lib.two_decimals fp.spec.budget.monthly_limit ++ " limit")));
    recommended_action = "Review namespace spending and consider scaling down resources";
  }

  abbrev pub breach_entry : Time → FinancialPolicy F → F → F → AuditLogEntry F
  breach_entry now fp cost usage =
      system_entry now "breach_action" fp.name fp.spec.target_namespace
        (("breach_action", text fp.spec.budget.breach_action)
          ∷ ("current_cost", number cost)
          ∷ ("budget_usage_pct", number usage)
          ∷ ("budget_limit", number fp.spec.budget.monthly_limit)
          ∷ [])
        "" "success"

  abbrev pub failure_entry : Time → FinancialPolicy F → String → AuditLogEntry F
  failure_entry now fp failure =
      system_entry now "optimization_failure" fp.name fp.spec.target_namespace
        (("previous_mode", text fp.spec.mode) ∷ ("new_mode", text policy_mode_advisory) ∷ [])
        failure "failure"

  abbrev pub failure_alert : Library F → Time → FinancialPolicy F → String → Alert F
  failure_alert lib now fp failure = record {
    id = "opt-fail-" ++ (fp.name ++ ("-" ++ lib.digits now));
    timestamp = now;
    severity = "critical";
    category = "policy";
    namespace = fp.spec.target_namespace;
    current_cost = fl.of_nat 0;
    budget_limit = fl.of_nat 0;
    usage_percent = fl.of_nat 0;
    message =
        "Automatic optimization failed for policy "
        ++ (fp.name ++ (": " ++ (failure ++ ". Switching to advisory mode.")));
    recommended_action = "Investigate the optimization failure and manually review recommendations";
  }

  module _ {S : Type 0} where
    -- The alert, where there is an alert manager.
    abbrev pub alert_if : Option (Alert F → S → Option String × S) → Alert F → S → Option String × S
    alert_if none a s = (none, s)
    alert_if (some send) a s = send a s

    -- The entry follows, unless the alert was not sent.
    abbrev pub then_audit :
        Option (AuditLogEntry F → S → Option String × S)
        → AuditLogEntry F
        → Option String × S
        → Option String × S
    then_audit writer e (some failure, s) = (some ("sending breach alert: " ++ failure), s)
    then_audit writer e (none, s) = (none, audit writer e s)

    -- The switch on the action: only "alert" does anything but log.
    abbrev pub alert_on_breach :
        Option (Alert F → S → Option String × S)
        → FinancialPolicy F
        → Alert F
        → S
        → Option String × S
    alert_on_breach alerts fp a s =
        if fp.spec.budget.breach_action == breach_action_alert
        then alert_if alerts a s
        else (none, s)

    -- `executeBreachAction`
    unfoldable pub execute_breach_action :
        Option (Alert F → S → Option String × S)
        → Option (AuditLogEntry F → S → Option String × S)
        → Library F
        → Time
        → FinancialPolicy F
        → F
        → F
        → S
        → Option String × S
    execute_breach_action alerts writer lib now fp cost usage s =
        then_audit writer (breach_entry now fp cost usage)
          (alert_on_breach alerts fp (breach_alert lib now fp cost usage) s)

    -- The recommendation for one policy.
    abbrev pub recommendation :
        Instances F S → FinancialPolicy F → S → Result String (OptimizationRecommendation F)
    recommendation m fp s =
        map_err (λ e. "analyzing instance mix: " ++ e) (m.analyze s) >>= λ analysis.
        map_err (λ e. "generating recommendation: " ++ e) (m.generate analysis (fp ∷ []))

    abbrev pub applied : Result String (OptimizationResult F) × S → Option String × S
    applied (ok result, s) = (none, s)
    applied (err e, s) = (some ("applying recommendation: " ++ e), s)

    abbrev pub apply_if_saving :
        Instances F S → Result String (OptimizationRecommendation F) → S → Option String × S
    apply_if_saving m (err e) s = (some e, s)
    apply_if_saving m (ok rec) s =
        if fl.le rec.expected_savings (fl.of_nat 0) then (none, s) else applied (m.apply rec s)

    -- `applyAutomaticOptimization`
    unfoldable pub apply_automatic_optimization :
        Option (Instances F S) → FinancialPolicy F → S → Option String × S
    apply_automatic_optimization none fp s = (none, s)
    apply_automatic_optimization (some m) fp s = apply_if_saving m (recommendation m fp s) s

    -- `generateAdvisoryRecommendation`, which only logs
    abbrev pub generate_advisory_recommendation : Option (Instances F S) → FinancialPolicy F → S → S
    generate_advisory_recommendation m fp s = s

    -- `handleOptimizationFailure`
    unfoldable pub handle_optimization_failure :
        Option (Alert F → S → Option String × S)
        → Option (AuditLogEntry F → S → Option String × S)
        → Library F
        → Time
        → FinancialPolicy F
        → String
        → S
        → S
    handle_optimization_failure alerts writer lib now fp failure s =
        (alert_if alerts (failure_alert lib now fp failure)
          (audit writer (failure_entry now fp failure) s)).1
