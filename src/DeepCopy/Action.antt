-- ===== src/DeepCopy/Action.antt =====
-- The deep copies of OptimizationAction and its parts, of api/v1alpha1/zz_generated.deepcopy.go.
-- `deep_copy_into_x` gives what `in.DeepCopyInto(out)` leaves in `*out`. Those of Kubernetes are
-- parameters: `time` of `metav1.Time`, `object_meta` of `ObjectMeta`, `list_meta` of `ListMeta`.
use eks_financial_orchestrat.Common.{ℕ, String, none, some}
use eks_financial_orchestrat.Types.{Time, SilenceWindowSpec, PolicyCondition}
use eks_financial_orchestrat.DeepCopy.Structs.{
  BudgetSpecOf, InstanceMixSpecOf, AlertingChannelSpecOf, AlertingSpecOf, FinancialPolicySpecOf,
  FinancialPolicyStatusOf, TypeMeta, FinancialPolicyOf, FinancialPolicyListOf, CostReportSpecOf,
  NamespaceCostSummaryOf, TeamCostSummary, CostReportStatusOf, CostReportOf, CostReportListOf,
  OptimizationActionSpecOf, OptimizationActionStatusOf, OptimizationActionOf,
  OptimizationActionListOf,
}
use eks_financial_orchestrat.DeepCopy.Object.{
  Object, as_object, financial_policy_object, financial_policy_list_object, cost_report_object,
  cost_report_list_object, optimization_action_object, optimization_action_list_object,
}
use eks_financial_orchestrat.DeepCopy.Cells.{
  Cell, PolicyInMemory, ReportInMemory, ActionInMemory, floats_slot, strings_slot, string_map_slot,
  float_map_slot, time_slot, budget_spec_slot, instance_mix_spec_slot, alerting_channel_spec_slot,
  silence_window_spec_slot, alerting_spec_slot, policy_condition_slot, financial_policy_spec_slot,
  financial_policy_status_slot, financial_policy_slot, financial_policy_list_slot,
  cost_report_spec_slot, namespace_cost_summary_slot, team_cost_summary_slot,
  cost_report_status_slot, cost_report_slot, cost_report_list_slot, optimization_action_spec_slot,
  optimization_action_status_slot, optimization_action_slot, optimization_action_list_slot,
  alerting_channels_slot, silence_windows_slot, policy_conditions_slot, financial_policies_slot,
  namespace_cost_summaries_slot, team_cost_summaries_slot, cost_reports_slot,
  optimization_actions_slot,
}
use eks_financial_orchestrat.Memory.{M, Ref, return, ◌>>=◌, copy_ref, copy_each, copy_map}
pub mod View
pub mod Deep

module _ {F O L : Type 0} where
  -- `OptimizationActionSpec`
  unfoldable pub deep_copy_into_optimization_action_spec :
      OptimizationActionSpecOf F Ref Ref → M (Cell F O L) (OptimizationActionSpecOf F Ref Ref)
  deep_copy_into_optimization_action_spec s = do
    affected_nodes' ← copy_ref strings_slot return s.affected_nodes
    current_mix' ← copy_ref float_map_slot copy_map s.current_mix
    recommended_mix' ← copy_ref float_map_slot copy_map s.recommended_mix
    return (record s {
      affected_nodes = affected_nodes';
      current_mix = current_mix';
      recommended_mix = recommended_mix';
    })

  unfoldable pub deep_copy_optimization_action_spec : Ref → M (Cell F O L) Ref
  deep_copy_optimization_action_spec =
      copy_ref optimization_action_spec_slot deep_copy_into_optimization_action_spec

module _ {F O L : Type 0} (time : Time → Time) where
  -- `OptimizationActionStatus`
  unfoldable pub deep_copy_into_optimization_action_status :
      OptimizationActionStatusOf F Ref → M (Cell F O L) (OptimizationActionStatusOf F Ref)
  deep_copy_into_optimization_action_status s = do
    applied_at' ← copy_ref time_slot (λ t. return (time t)) s.applied_at
    return (record s { applied_at = applied_at' })

  unfoldable pub deep_copy_optimization_action_status : Ref → M (Cell F O L) Ref
  deep_copy_optimization_action_status =
      copy_ref optimization_action_status_slot deep_copy_into_optimization_action_status

module _ {F O L : Type 0} (time : Time → Time) (object_meta : O → M (Cell F O L) O) where
  -- `OptimizationAction`
  unfoldable pub deep_copy_into_optimization_action :
      ActionInMemory F O → M (Cell F O L) (ActionInMemory F O)
  deep_copy_into_optimization_action s = do
    object_meta' ← object_meta s.object_meta
    spec' ← deep_copy_into_optimization_action_spec s.spec
    status' ← deep_copy_into_optimization_action_status time s.status
    return (record s { object_meta = object_meta'; spec = spec'; status = status' })

  unfoldable pub deep_copy_optimization_action : Ref → M (Cell F O L) Ref
  deep_copy_optimization_action =
      copy_ref optimization_action_slot deep_copy_into_optimization_action

  unfoldable pub deep_copy_object_optimization_action : Ref → M (Cell F O L) Object
  deep_copy_object_optimization_action p =
      deep_copy_optimization_action p >>= λ c. return (as_object optimization_action_object c)

module _ {F O L : Type 0} (time : Time → Time) (object_meta : O → M (Cell F O L) O)
    (list_meta : L → M (Cell F O L) L) where
  -- `OptimizationActionList`
  unfoldable pub deep_copy_into_optimization_action_list :
      OptimizationActionListOf L Ref → M (Cell F O L) (OptimizationActionListOf L Ref)
  deep_copy_into_optimization_action_list s = do
    list_meta' ← list_meta s.list_meta
    items' ←
        copy_ref optimization_actions_slot
          (copy_each (deep_copy_into_optimization_action time object_meta)) s.items
    return (record s { list_meta = list_meta'; items = items' })

  unfoldable pub deep_copy_optimization_action_list : Ref → M (Cell F O L) Ref
  deep_copy_optimization_action_list =
      copy_ref optimization_action_list_slot deep_copy_into_optimization_action_list

  unfoldable pub deep_copy_object_optimization_action_list : Ref → M (Cell F O L) Object
  deep_copy_object_optimization_action_list p = deep_copy_optimization_action_list p >>= λ c.
      return (as_object optimization_action_list_object c)
