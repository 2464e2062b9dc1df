-- ===== src/DeepCopy/Policy.antt =====
-- The deep copies of FinancialPolicy and its parts, of api/v1alpha1/zz_generated.deepcopy.go.
-- `deep_copy_into_x` gives what `in.DeepCopyInto(out)` leaves in `*out`. Those of Kubernetes are
-- parameters: `time` of `metav1.Time`, `object_meta` of `ObjectMeta`, `list_meta` of `ListMeta`.
use eks_financial_orchestrat.Common.{ℕ, String, none, some}
use eks_financial_orchestrat.Types.{Time, SilenceWindowSpec, PolicyCondition}
use eks_financial_orchestrat.DeepCopy.Structs.{
  BudgetSpecOf, InstanceMixSpecOf, AlertingChannelSpecOf, AlertingSpecOf, FinancialPolicySpecOf,
  FinancialPolicyStatusOf, TypeMeta, FinancialPolicyOf, FinancialPolicyListOf, CostReportSpecOf,
  NamespaceCostSummaryOf, TeamCostSummary, CostReportStatusOf, CostReportOf, CostReportListOf,
  OptimizationActionSpecOf, OptimizationActionStatusOf, OptimizationActionOf,
  OptimizationActionListOf,
}
use eks_financial_orchestrat.DeepCopy.Object.{
  Object, as_object, financial_policy_object, financial_policy_list_object, cost_report_object,
  cost_report_list_object, optimization_action_object, optimization_action_list_object,
}
use eks_financial_orchestrat.DeepCopy.Cells.{
  Cell, PolicyInMemory, ReportInMemory, ActionInMemory, floats_slot, strings_slot, string_map_slot,
  float_map_slot, time_slot, budget_spec_slot, instance_mix_spec_slot, alerting_channel_spec_slot,
  silence_window_spec_slot, alerting_spec_slot, policy_condition_slot, financial_policy_spec_slot,
  financial_policy_status_slot, financial_policy_slot, financial_policy_list_slot,
  cost_report_spec_slot, namespace_cost_summary_slot, team_cost_summary_slot,
  cost_report_status_slot, cost_report_slot, cost_report_list_slot, optimization_action_spec_slot,
  optimization_action_status_slot, optimization_action_slot, optimization_action_list_slot,
  alerting_channels_slot, silence_windows_slot, policy_conditions_slot, financial_policies_slot,
  namespace_cost_summaries_slot, team_cost_summaries_slot, cost_reports_slot,
  optimization_actions_slot,
}
use eks_financial_orchestrat.Memory.{M, Ref, return, ◌>>=◌, copy_ref, copy_each, copy_map}
pub mod View
pub mod Deep

module _ {F O L : Type 0} where
  -- `BudgetSpec`
  unfoldable pub deep_copy_into_budget_spec :
      BudgetSpecOf F Ref → M (Cell F O L) (BudgetSpecOf F Ref)
  deep_copy_into_budget_spec s = do
    alert_thresholds' ← copy_ref floats_slot return s.alert_thresholds
    return (record s { alert_thresholds = alert_thresholds' })

  unfoldable pub deep_copy_budget_spec : Ref → M (Cell F O L) Ref
  deep_copy_budget_spec = copy_ref budget_spec_slot deep_copy_into_budget_spec

  -- `InstanceMixSpec`
  unfoldable pub deep_copy_into_instance_mix_spec :
      InstanceMixSpecOf F Ref → M (Cell F O L) (InstanceMixSpecOf F Ref)
  deep_copy_into_instance_mix_spec s = do
    allowed_instance_types' ← copy_ref strings_slot return s.allowed_instance_types
    return (record s { allowed_instance_types = allowed_instance_types' })

  unfoldable pub deep_copy_instance_mix_spec : Ref → M (Cell F O L) Ref
  deep_copy_instance_mix_spec = copy_ref instance_mix_spec_slot deep_copy_into_instance_mix_spec

  -- `AlertingChannelSpec`
  unfoldable pub deep_copy_into_alerting_channel_spec :
      AlertingChannelSpecOf Ref → M (Cell F O L) (AlertingChannelSpecOf Ref)
  deep_copy_into_alerting_channel_spec s = do
    config' ← copy_ref string_map_slot copy_map s.config
    return (record s { config = config' })

  unfoldable pub deep_copy_alerting_channel_spec : Ref → M (Cell F O L) Ref
  deep_copy_alerting_channel_spec =
      copy_ref alerting_channel_spec_slot deep_copy_into_alerting_channel_spec

module _ {F O L : Type 0} (time : Time → Time) where
  -- `SilenceWindowSpec`
  unfoldable pub deep_copy_into_silence_window_spec :
      SilenceWindowSpec → M (Cell F O L) SilenceWindowSpec
  deep_copy_into_silence_window_spec s =
      return (record s { start = time s.start; end = time s.end })

  unfoldable pub deep_copy_silence_window_spec : Ref → M (Cell F O L) Ref
  deep_copy_silence_window_spec =
      copy_ref silence_window_spec_slot deep_copy_into_silence_window_spec

  -- `AlertingSpec`
  unfoldable pub deep_copy_into_alerting_spec :
      AlertingSpecOf Ref Ref → M (Cell F O L) (AlertingSpecOf Ref Ref)
  deep_copy_into_alerting_spec s = do
    channels' ←
        copy_ref alerting_channels_slot (copy_each deep_copy_into_alerting_channel_spec) s.channels
    silence_windows' ←
        copy_ref silence_windows_slot (copy_each deep_copy_into_silence_window_spec)
          s.silence_windows
    return (record s { channels = channels'; silence_windows = silence_windows' })

  unfoldable pub deep_copy_alerting_spec : Ref → M (Cell F O L) Ref
  deep_copy_alerting_spec = copy_ref alerting_spec_slot deep_copy_into_alerting_spec

  -- `PolicyCondition`
  unfoldable pub deep_copy_into_policy_condition : PolicyCondition → M (Cell F O L) PolicyCondition
  deep_copy_into_policy_condition s =
      return (record s { last_transition_time = time s.last_transition_time })

  unfoldable pub deep_copy_policy_condition : Ref → M (Cell F O L) Ref
  deep_copy_policy_condition = copy_ref policy_condition_slot deep_copy_into_policy_condition

  -- `FinancialPolicySpec`
  unfoldable pub deep_copy_into_financial_policy_spec :
      FinancialPolicySpecOf (BudgetSpecOf F Ref) Ref Ref
      → M (Cell F O L) (FinancialPolicySpecOf (BudgetSpecOf F Ref) Ref Ref)
  deep_copy_into_financial_policy_spec s = do
    budget' ← deep_copy_into_budget_spec s.budget
    instance_mix' ← copy_ref instance_mix_spec_slot deep_copy_into_instance_mix_spec s.instance_mix
    alerting' ← copy_ref alerting_spec_slot deep_copy_into_alerting_spec s.alerting
    return (record s { budget = budget'; instance_mix = instance_mix'; alerting = alerting' })

  unfoldable pub deep_copy_financial_policy_spec : Ref → M (Cell F O L) Ref
  deep_copy_financial_policy_spec =
      copy_ref financial_policy_spec_slot deep_copy_into_financial_policy_spec

  -- `FinancialPolicyStatus`
  unfoldable pub deep_copy_into_financial_policy_status :
      FinancialPolicyStatusOf F Ref Ref → M (Cell F O L) (FinancialPolicyStatusOf F Ref Ref)
  deep_copy_into_financial_policy_status s = do
    last_evaluated' ← copy_ref time_slot (λ t. return (time t)) s.last_evaluated
    conditions' ←
        copy_ref policy_conditions_slot (copy_each deep_copy_into_policy_condition) s.conditions
    return (record s { last_evaluated = last_evaluated'; conditions = conditions' })

  unfoldable pub deep_copy_financial_policy_status : Ref → M (Cell F O L) Ref
  deep_copy_financial_policy_status =
      copy_ref financial_policy_status_slot deep_copy_into_financial_policy_status

module _ {F O L : Type 0} (time : Time → Time) (object_meta : O → M (Cell F O L) O) where
  -- `FinancialPolicy`
  unfoldable pub deep_copy_into_financial_policy :
      PolicyInMemory F O → M (Cell F O L) (PolicyInMemory F O)
  deep_copy_into_financial_policy s = do
    object_meta' ← object_meta s.object_meta
    spec' ← deep_copy_into_financial_policy_spec time s.spec
    status' ← deep_copy_into_financial_policy_status time s.status
    return (record s { object_meta = object_meta'; spec = spec'; status = status' })

  unfoldable pub deep_copy_financial_policy : Ref → M (Cell F O L) Ref
  deep_copy_financial_policy = copy_ref financial_policy_slot deep_copy_into_financial_policy

  unfoldable pub deep_copy_object_financial_policy : Ref → M (Cell F O L) Object
  deep_copy_object_financial_policy p =
      deep_copy_financial_policy p >>= λ c. return (as_object financial_policy_object c)

module _ {F O L : Type 0} (time : Time → Time) (object_meta : O → M (Cell F O L) O)
    (list_meta : L → M (Cell F O L) L) where
  -- `FinancialPolicyList`
  unfoldable pub deep_copy_into_financial_policy_list :
      FinancialPolicyListOf L Ref → M (Cell F O L) (FinancialPolicyListOf L Ref)
  deep_copy_into_financial_policy_list s = do
    list_meta' ← list_meta s.list_meta
    items' ←
        copy_ref financial_policies_slot
          (copy_each (deep_copy_into_financial_policy time object_meta)) s.items
    return (record s { list_meta = list_meta'; items = items' })

  unfoldable pub deep_copy_financial_policy_list : Ref → M (Cell F O L) Ref
  deep_copy_financial_policy_list =
      copy_ref financial_policy_list_slot deep_copy_into_financial_policy_list

  unfoldable pub deep_copy_object_financial_policy_list : Ref → M (Cell F O L) Object
  deep_copy_object_financial_policy_list p =
      deep_copy_financial_policy_list p >>= λ c. return (as_object financial_policy_list_object c)
