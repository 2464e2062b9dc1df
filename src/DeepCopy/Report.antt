-- ===== src/DeepCopy/Report.antt =====
-- The deep copies of CostReport and its parts, of api/v1alpha1/zz_generated.deepcopy.go.
-- `deep_copy_into_x` gives what `in.DeepCopyInto(out)` leaves in `*out`. Those of Kubernetes are
-- parameters: `time` of `metav1.Time`, `object_meta` of `ObjectMeta`, `list_meta` of `ListMeta`.
use eks_financial_orchestrat.Common.{ℕ, String, none, some}
use eks_financial_orchestrat.Types.{Time, SilenceWindowSpec, PolicyCondition}
use eks_financial_orchestrat.DeepCopy.Structs.{
  BudgetSpecOf, InstanceMixSpecOf, AlertingChannelSpecOf, AlertingSpecOf, FinancialPolicySpecOf,
  FinancialPolicyStatusOf, TypeMeta, FinancialPolicyOf, FinancialPolicyListOf, CostReportSpecOf,
  NamespaceCostSummaryOf, TeamCostSummary, CostReportStatusOf, CostReportOf, CostReportListOf,
  OptimizationActionSpecOf, OptimizationActionStatusOf, OptimizationActionOf,
  OptimizationActionListOf,
}
use eks_financial_orchestrat.DeepCopy.Object.{
  Object, as_object, financial_policy_object, financial_policy_list_object, cost_report_object,
  cost_report_list_object, optimization_action_object, optimization_action_list_object,
}
use eks_financial_orchestrat.DeepCopy.Cells.{
  Cell, PolicyInMemory, ReportInMemory, ActionInMemory, floats_slot, strings_slot, string_map_slot,
  float_map_slot, time_slot, budget_spec_slot, instance_mix_spec_slot, alerting_channel_spec_slot,
  silence_window_spec_slot, alerting_spec_slot, policy_condition_slot, financial_policy_spec_slot,
  financial_policy_status_slot, financial_policy_slot, financial_policy_list_slot,
  cost_report_spec_slot, namespace_cost_summary_slot, team_cost_summary_slot,
  cost_report_status_slot, cost_report_slot, cost_report_list_slot, optimization_action_spec_slot,
  optimization_action_status_slot, optimization_action_slot, optimization_action_list_slot,
  alerting_channels_slot, silence_windows_slot, policy_conditions_slot, financial_policies_slot,
  namespace_cost_summaries_slot, team_cost_summaries_slot, cost_reports_slot,
  optimization_actions_slot,
}
use eks_financial_orchestrat.Memory.{M, Ref, return, ◌>>=◌, copy_ref, copy_each, copy_map}
pub mod View
pub mod Deep

module _ {F O L : Type 0} (time : Time → Time) where
  -- `CostReportSpec`
  unfoldable pub deep_copy_into_cost_report_spec :
      CostReportSpecOf Ref → M (Cell F O L) (CostReportSpecOf Ref)
  deep_copy_into_cost_report_spec s = do
    namespaces' ← copy_ref strings_slot return s.namespaces
    teams' ← copy_ref strings_slot return s.teams
    return (record s {
      start_time = time s.start_time;
      end_time = time s.end_time;
      namespaces = namespaces';
      teams = teams';
    })

  unfoldable pub deep_copy_cost_report_spec : Ref → M (Cell F O L) Ref
  deep_copy_cost_report_spec = copy_ref cost_report_spec_slot deep_copy_into_cost_report_spec

module _ {F O L : Type 0} where
  -- `NamespaceCostSummary`
  unfoldable pub deep_copy_into_namespace_cost_summary :
      NamespaceCostSummaryOf F Ref → M (Cell F O L) (NamespaceCostSummaryOf F Ref)
  deep_copy_into_namespace_cost_summary s = do
    by_service' ← copy_ref float_map_slot copy_map s.by_service
    return (record s { by_service = by_service' })

  unfoldable pub deep_copy_namespace_cost_summary : Ref → M (Cell F O L) Ref
  deep_copy_namespace_cost_summary =
      copy_ref namespace_cost_summary_slot deep_copy_into_namespace_cost_summary

  -- `TeamCostSummary`
  unfoldable pub deep_copy_into_team_cost_summary :
      TeamCostSummary F → M (Cell F O L) (TeamCostSummary F)
  deep_copy_into_team_cost_summary s = return s

  unfoldable pub deep_copy_team_cost_summary : Ref → M (Cell F O L) Ref
  deep_copy_team_cost_summary = copy_ref team_cost_summary_slot deep_copy_into_team_cost_summary

module _ {F O L : Type 0} (time : Time → Time) where
  -- `CostReportStatus`
  unfoldable pub deep_copy_into_cost_report_status :
      CostReportStatusOf F Ref Ref Ref → M (Cell F O L) (CostReportStatusOf F Ref Ref Ref)
  deep_copy_into_cost_report_status s = do
    by_namespace' ←
        copy_ref namespace_cost_summaries_slot (copy_each deep_copy_into_namespace_cost_summary)
          s.by_namespace
    by_team' ← copy_ref team_cost_summaries_slot return s.by_team
    generated_at' ← copy_ref time_slot (λ t. return (time t)) s.generated_at
    return (record s {
      by_namespace = by_namespace';
      by_team = by_team';
      generated_at = generated_at';
    })

  unfoldable pub deep_copy_cost_report_status : Ref → M (Cell F O L) Ref
  deep_copy_cost_report_status = copy_ref cost_report_status_slot deep_copy_into_cost_report_status

module _ {F O L : Type 0} (time : Time → Time) (object_meta : O → M (Cell F O L) O) where
  -- `CostReport`
  unfoldable pub deep_copy_into_cost_report :
      ReportInMemory F O → M (Cell F O L) (ReportInMemory F O)
  deep_copy_into_cost_report s = do
    object_meta' ← object_meta s.object_meta
    spec' ← deep_copy_into_cost_report_spec time s.spec
    status' ← deep_copy_into_cost_report_status time s.status
    return (record s { object_meta = object_meta'; spec = spec'; status = status' })

  unfoldable pub deep_copy_cost_report : Ref → M (Cell F O L) Ref
  deep_copy_cost_report = copy_ref cost_report_slot deep_copy_into_cost_report

  unfoldable pub deep_copy_object_cost_report : Ref → M (Cell F O L) Object
  deep_copy_object_cost_report p =
      deep_copy_cost_report p >>= λ c. return (as_object cost_report_object c)

module _ {F O L : Type 0} (time : Time → Time) (object_meta : O → M (Cell F O L) O)
    (list_meta : L → M (Cell F O L) L) where
  -- `CostReportList`
  unfoldable pub deep_copy_into_cost_report_list :
      CostReportListOf L Ref → M (Cell F O L) (CostReportListOf L Ref)
  deep_copy_into_cost_report_list s = do
    list_meta' ← list_meta s.list_meta
    items' ←
        copy_ref cost_reports_slot (copy_each (deep_copy_into_cost_report time object_meta)) s.items
    return (record s { list_meta = list_meta'; items = items' })

  unfoldable pub deep_copy_cost_report_list : Ref → M (Cell F O L) Ref
  deep_copy_cost_report_list = copy_ref cost_report_list_slot deep_copy_into_cost_report_list

  unfoldable pub deep_copy_object_cost_report_list : Ref → M (Cell F O L) Object
  deep_copy_object_cost_report_list p =
      deep_copy_cost_report_list p >>= λ c. return (as_object cost_report_list_object c)
