-- ===== src/DeepCopy/Report/View.antt =====
-- What is seen of CostReport and its parts in a heap.
use eks_financial_orchestrat.DeepCopy.Structs.{
  CostReportSpecOf, NamespaceCostSummaryOf, TeamCostSummary, CostReportStatusOf, CostReportListOf,
}
use eks_financial_orchestrat.DeepCopy.Trees.{
  ReportSpecTree, NamespaceTree, ReportStatusTree, ReportTree, ReportListTree,
}
use eks_financial_orchestrat.DeepCopy.Cells.{
  Cell, ReportInMemory, strings_slot, float_map_slot, time_slot, namespace_cost_summaries_slot,
  team_cost_summaries_slot, cost_reports_slot,
}
use eks_financial_orchestrat.Memory.{Ref}
use eks_financial_orchestrat.Memory.View.{R, seen, ◌>>=◌, view_ref, view_each, view_map}

module _ {F O L : Type 0} where
  unfoldable pub view_cost_report_spec : CostReportSpecOf Ref → R (Cell F O L) ReportSpecTree
  view_cost_report_spec s = do
    namespaces' ← view_ref strings_slot seen s.namespaces
    teams' ← view_ref strings_slot seen s.teams
    seen (record {
      start_time = s.start_time;
      end_time = s.end_time;
      namespaces = namespaces';
      teams = teams';
    })

  unfoldable pub view_namespace_cost_summary :
      NamespaceCostSummaryOf F Ref → R (Cell F O L) (NamespaceTree F)
  view_namespace_cost_summary s = do
    by_service' ← view_ref float_map_slot view_map s.by_service
    seen (record {
      namespace = s.namespace;
      direct_cost = s.direct_cost;
      shared_cost = s.shared_cost;
      total_cost = s.total_cost;
      by_service = by_service';
    })

  unfoldable pub view_team_cost_summary : TeamCostSummary F → R (Cell F O L) (TeamCostSummary F)
  view_team_cost_summary = seen

  unfoldable pub view_cost_report_status :
      CostReportStatusOf F Ref Ref Ref → R (Cell F O L) (ReportStatusTree F)
  view_cost_report_status s = do
    by_namespace' ←
        view_ref namespace_cost_summaries_slot (view_each view_namespace_cost_summary)
          s.by_namespace
    by_team' ← view_ref team_cost_summaries_slot seen s.by_team
    generated_at' ← view_ref time_slot seen s.generated_at
    seen (record {
      phase = s.phase;
      total_cost = s.total_cost;
      by_namespace = by_namespace';
      by_team = by_team';
      generated_at = generated_at';
      message = s.message;
    })

module _ {F O L P : Type 0} (see_object : O → R (Cell F O L) P) where
  unfoldable pub view_cost_report : ReportInMemory F O → R (Cell F O L) (ReportTree F P)
  view_cost_report s = do
    object_meta' ← see_object s.object_meta
    spec' ← view_cost_report_spec s.spec
    status' ← view_cost_report_status s.status
    seen (record {
      type_meta = s.type_meta;
      object_meta = object_meta';
      spec = spec';
      status = status';
    })

module _ {F O L P Q : Type 0} (see_object : O → R (Cell F O L) P)
    (see_list : L → R (Cell F O L) Q) where
  unfoldable pub view_cost_report_list :
      CostReportListOf L Ref → R (Cell F O L) (ReportListTree F P Q)
  view_cost_report_list s = do
    list_meta' ← see_list s.list_meta
    items' ← view_ref cost_reports_slot (view_each (view_cost_report see_object)) s.items
    seen (record { type_meta = s.type_meta; list_meta = list_meta'; items = items' })
