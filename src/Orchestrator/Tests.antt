-- ===== src/Orchestrator/Tests.antt =====
-- A run of the orchestrator in which everything but the API server fails.
use mathlib.Core.Option.{some-injective}
use eks_financial_orchestrat.Common.{
  String, ◌≡◌, ◌≢◌, refl, sym, ap, arith, eq_iff, Option, none, some, [], ◌∷◌,
}
use eks_financial_orchestrat.Common.Int.{◌+ℤ◌, ◌-ℤ◌, ◌*ℤ◌, quot}
use eks_financial_orchestrat.Common.Fixed.{Fixed, whole, fixed_float}
use eks_financial_orchestrat.Common.Result.{ok, err}
use eks_financial_orchestrat.Kube.Single.{Policy, Slot, server, server-IsApiServer}
use eks_financial_orchestrat.Types.{policy_mode_automatic, policy_phase_error}
use eks_financial_orchestrat.Collector.Costs.{DailyCostRecord}
use eks_financial_orchestrat.Alerting.{Alert}
use eks_financial_orchestrat.Audit.{AuditLogEntry}
use eks_financial_orchestrat.Orchestrator.{Instances, OrchestratorReconciler, Library}
use eks_financial_orchestrat.Orchestrator.Actions.{
  execute_breach_action, apply_automatic_optimization, handle_optimization_failure,
}
use eks_financial_orchestrat.Orchestrator.Reconcile.{requeue_after, reconcile}
use eks_financial_orchestrat.Orchestrator.Reconcile.Advisory.{with_instances, reconcile-advisory}
use eks_financial_orchestrat.Orchestrator.Reconcile.Outcome.{KeepsPolicies, Ends, reconcile-Ends}

abbrev lib : Library Fixed
lib = record {
  digits = λ n. "1";
  one_decimal = λ x. "1.0";
  two_decimals = λ x. "1.00";
  start_of_month = λ t. 0;
}

abbrev day_cost : DailyCostRecord Fixed
day_cost = record {
  date = 1;
  namespace = "shop";
  total_cost = whole 60;
  day_of_week = 1;
  day_of_month = 1;
}

abbrev no_alert : Alert Fixed → Slot → Option String × Slot
no_alert a s = (some "no channel", s)

abbrev no_entry : AuditLogEntry Fixed → Slot → Option String × Slot
no_entry e s = (some "no database", s)

abbrev instances : Instances Fixed Slot
instances = record {
  analyze = λ s. err "no nodes";
  generate = λ analysis policies. err "no analysis";
  apply = λ rec s. (err "no permission", s);
}

abbrev reconciler : OrchestratorReconciler Fixed Slot
reconciler = record {
  client = server;
  query_cost_records = λ start end namespace s. ok (day_cost ∷ day_cost ∷ []);
  send_alert = some no_alert;
  write_entry = some no_entry;
  instances = some instances;
}

reconciler-KeepsPolicies : KeepsPolicies reconciler
reconciler-KeepsPolicies = record {
  alerts =
      λ send e a s ns n. ap (λ f. server.get ns n (f a s).1) (sym (some-injective no_alert send e));
  entries = λ write e entry s ns n.
      ap (λ f. server.get ns n (f entry s).1) (sym (some-injective no_entry write e));
  applications = λ m e rec s ns n.
      ap (λ m. server.get ns n (m.apply rec s).1) (sym (some-injective instances m e));
}

abbrev policy : String → Policy
policy mode = record {
  name = "budget";
  namespace = "finops";
  annotations = none;
  resource_version = "";
  spec = record {
    target_namespace = "shop";
    budget = record {
      monthly_limit = whole 100;
      alert_thresholds = whole 50 ∷ whole 100 ∷ [];
      breach_action = "alert";
    };
    instance_mix = none;
    mode = mode;
    alerting = none;
    version = 1;
  };
  status = record {
    phase = "Active";
    current_cost = whole 0;
    budget_usage_percent = whole 0;
    last_evaluated = none;
    conditions = [];
  };
}

is_not_failed : "Active" ≢ policy_phase_error
is_not_failed = λ e. ground (arith, eq_iff "Active" policy_phase_error)

is_advisory : "advisory" ≢ policy_mode_automatic
is_advisory = λ e. ground (arith, eq_iff "advisory" policy_mode_automatic)

reconcile-Ends_example :
    Ends reconciler 9 "finops" "budget"
      (policy "automatic")
      (day_cost ∷ day_cost ∷ [])
      (reconcile reconciler lib 9 "finops" "budget" (some (policy "automatic")))
reconcile-Ends_example =
    reconcile-Ends reconciler reconciler-KeepsPolicies lib 9 "finops" "budget" server-IsApiServer
      (some (policy "automatic")) (policy "automatic") (day_cost ∷ day_cost ∷ []) refl is_not_failed
      refl

without_instances :
    reconcile (with_instances reconciler none) lib 9 "finops" "budget" (some (policy "advisory"))
    ≡ reconcile reconciler lib 9 "finops" "budget" (some (policy "advisory"))
without_instances =
    reconcile-advisory reconciler lib 9 none "finops" "budget" (some (policy "advisory"))
      (policy "advisory") refl is_advisory

requeued :
    (reconcile reconciler lib 9 "finops" "budget" (some (policy "automatic"))).0
    ≡ ok (some requeue_after)
unfolding reconcile execute_breach_action apply_automatic_optimization handle_optimization_failure
    ◌+ℤ◌ ◌-ℤ◌ ◌*ℤ◌ quot
requeued = refl
