-- ===== src/Types.antt =====
-- The custom resource `FinancialPolicy` of api/v1alpha1/financialpolicy_types.go. Enumerations are
-- Go strings, so a resource can hold any text; a time is a number of nanoseconds, counted from Go's
-- zero time. Of the Kubernetes object metadata the fields that the program uses are kept. References
-- are left out: DeepCopy has the structs with them. The constants of optimizationaction_types.go are
-- here too.
use eks_financial_orchestrat.Common.{ℕ, String, Bool, Option, List, [], nat_eq}
use eks_financial_orchestrat.Common.Dict.{Dict, or_zero}

abbrev pub Time : Type 0
Time = ℕ

-- `IsZero`
abbrev pub is_zero : Time → Bool
is_zero t = nat_eq t 0

abbrev pub policy_mode_automatic : String
policy_mode_automatic = "automatic"

abbrev pub policy_mode_advisory : String
policy_mode_advisory = "advisory"

abbrev pub breach_action_alert : String
breach_action_alert = "alert"

abbrev pub breach_action_throttle : String
breach_action_throttle = "throttle"

abbrev pub breach_action_block_deployments : String
breach_action_block_deployments = "block_deployments"

abbrev pub policy_phase_active : String
policy_phase_active = "Active"

abbrev pub policy_phase_error : String
policy_phase_error = "Error"

abbrev pub policy_phase_rolled_back : String
policy_phase_rolled_back = "RolledBack"

abbrev pub policy_phase_validating : String
policy_phase_validating = "Validating"

abbrev pub action_type_instance_mix_change : String
action_type_instance_mix_change = "instance_mix_change"

abbrev pub action_type_spot_migration : String
action_type_spot_migration = "spot_migration"

abbrev pub action_type_savings_plan_recommendation : String
action_type_savings_plan_recommendation = "savings_plan_recommendation"

abbrev pub action_type_budget_enforcement : String
action_type_budget_enforcement = "budget_enforcement"

abbrev pub action_result_pending : String
action_result_pending = "pending"

abbrev pub action_result_approved : String
action_result_approved = "approved"

abbrev pub action_result_applied : String
action_result_applied = "applied"

abbrev pub action_result_failed : String
action_result_failed = "failed"

abbrev pub action_result_rolled_back : String
action_result_rolled_back = "rolled_back"

pub record BudgetSpec (F : Type 0) : Type 0 where
  pub monthly_limit : F
  pub alert_thresholds : List F
  pub breach_action : String

pub record InstanceMixSpec (F : Type 0) : Type 0 where
  pub min_on_demand_percent : F
  pub max_spot_percent : F
  pub allowed_instance_types : List String

pub record AlertingChannelSpec : Type 0 where
  pub channel_type : String
  pub config : Dict String

pub record SilenceWindowSpec : Type 0 where
  pub start : Time
  pub end : Time
  pub reason : String

pub record AlertingSpec : Type 0 where
  pub channels : List AlertingChannelSpec
  pub silence_windows : List SilenceWindowSpec

pub record FinancialPolicySpec (F : Type 0) : Type 0 where
  pub target_namespace : String
  pub budget : BudgetSpec F
  pub instance_mix : Option (InstanceMixSpec F)
  pub mode : String
  pub alerting : Option AlertingSpec
  pub version : ℕ

pub record PolicyCondition : Type 0 where
  pub condition_type : String
  pub status : String
  pub last_transition_time : Time
  pub reason : String
  pub message : String

pub record FinancialPolicyStatus (F : Type 0) : Type 0 where
  pub phase : String
  pub current_cost : F
  pub budget_usage_percent : F
  pub last_evaluated : Option Time
  pub conditions : List PolicyCondition

-- `annotations` is `none` for the nil map.
pub record FinancialPolicy (F : Type 0) : Type 0 where
  pub name : String
  pub namespace : String
  pub annotations : Option (Dict String)
  pub resource_version : String
  pub spec : FinancialPolicySpec F
  pub status : FinancialPolicyStatus F

-- Reading a nil map is reading an empty one.
abbrev pub annotations_of : {F : Type 0} → FinancialPolicy F → Dict String
annotations_of p = or_zero [] p.annotations
