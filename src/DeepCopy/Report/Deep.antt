-- ===== src/DeepCopy/Report/Deep.antt =====
-- The deep copies of CostReport and its parts are independent of what they copy.
use eks_financial_orchestrat.Common.{◌≡◌, refl}
use eks_financial_orchestrat.Types.{Time}
use eks_financial_orchestrat.DeepCopy.Cells.{
  Cell, strings_slot, float_map_slot, time_slot, namespace_cost_summaries_slot,
  team_cost_summaries_slot, cost_reports_slot,
}
use eks_financial_orchestrat.DeepCopy.Report.{
  deep_copy_into_cost_report_spec, deep_copy_into_namespace_cost_summary,
  deep_copy_into_team_cost_summary, deep_copy_into_cost_report_status, deep_copy_into_cost_report,
  deep_copy_into_cost_report_list,
}
use eks_financial_orchestrat.DeepCopy.Report.View.{
  view_cost_report_spec, view_namespace_cost_summary, view_team_cost_summary,
  view_cost_report_status, view_cost_report, view_cost_report_list,
}
use eks_financial_orchestrat.Memory.{M}
use eks_financial_orchestrat.Memory.View.{R}
use eks_financial_orchestrat.Memory.Laws.{
  IsDeep, plain-IsDeep, same-IsDeep, copy_ref-IsDeep, copy_each-IsDeep, copy_map-IsDeep,
}
use eks_financial_orchestrat.Memory.Fields.{fields1-IsDeep, fields2-IsDeep, fields3-IsDeep}

module _ {F O L : Type 0} {time : Time → Time} (same_time : (t : Time) → time t ≡ t) where
  pub deep_copy_into_cost_report_spec-IsDeep :
      IsDeep {C = Cell F O L} (deep_copy_into_cost_report_spec time) view_cost_report_spec
  unfolding deep_copy_into_cost_report_spec view_cost_report_spec
  deep_copy_into_cost_report_spec-IsDeep =
      fields2-IsDeep (λ s. s.namespaces) (λ s. s.teams)
        (λ s x y. record s {
          start_time = time s.start_time;
          end_time = time s.end_time;
          namespaces = x;
          teams = y;
        })
        (λ s x y. record {
          start_time = s.start_time;
          end_time = s.end_time;
          namespaces = x;
          teams = y;
        })
        view_cost_report_spec (λ s g. refl)
        (λ s x y g. rw (same_time s.start_time, same_time s.end_time) refl)
        (copy_ref-IsDeep strings_slot plain-IsDeep) (copy_ref-IsDeep strings_slot plain-IsDeep)

module _ {F O L : Type 0} where
  pub deep_copy_into_namespace_cost_summary-IsDeep :
      IsDeep {C = Cell F O L} deep_copy_into_namespace_cost_summary view_namespace_cost_summary
  unfolding deep_copy_into_namespace_cost_summary view_namespace_cost_summary
  deep_copy_into_namespace_cost_summary-IsDeep =
      fields1-IsDeep (λ s. s.by_service) (λ s x. record s { by_service = x })
        (λ s x. record {
          namespace = s.namespace;
          direct_cost = s.direct_cost;
          shared_cost = s.shared_cost;
          total_cost = s.total_cost;
          by_service = x;
        })
        view_namespace_cost_summary (λ s g. refl) (λ s x g. refl)
        (copy_ref-IsDeep float_map_slot copy_map-IsDeep)

  pub deep_copy_into_team_cost_summary-IsDeep :
      IsDeep {C = Cell F O L} deep_copy_into_team_cost_summary view_team_cost_summary
  unfolding deep_copy_into_team_cost_summary view_team_cost_summary
  deep_copy_into_team_cost_summary-IsDeep = plain-IsDeep

module _ {F O L : Type 0} {time : Time → Time} (same_time : (t : Time) → time t ≡ t) where
  pub deep_copy_into_cost_report_status-IsDeep :
      IsDeep {C = Cell F O L} (deep_copy_into_cost_report_status time) view_cost_report_status
  unfolding deep_copy_into_cost_report_status view_cost_report_status
  deep_copy_into_cost_report_status-IsDeep =
      fields3-IsDeep (λ s. s.by_namespace) (λ s. s.by_team) (λ s. s.generated_at)
        (λ s x y z. record s { by_namespace = x; by_team = y; generated_at = z })
        (λ s x y z. record {
          phase = s.phase;
          total_cost = s.total_cost;
          by_namespace = x;
          by_team = y;
          generated_at = z;
          message = s.message;
        })
        view_cost_report_status (λ s g. refl) (λ s x y z g. refl)
        (copy_ref-IsDeep namespace_cost_summaries_slot
          (copy_each-IsDeep deep_copy_into_namespace_cost_summary-IsDeep))
        (copy_ref-IsDeep team_cost_summaries_slot plain-IsDeep)
        (copy_ref-IsDeep time_slot (same-IsDeep _ same_time))

module _ {F O L P : Type 0} {time : Time → Time} (same_time : (t : Time) → time t ≡ t)
    {object_meta : O → M (Cell F O L) O} {see_object : O → R (Cell F O L) P}
    (object_deep : IsDeep object_meta see_object) where
  pub deep_copy_into_cost_report-IsDeep :
      IsDeep {C = Cell F O L}
        (deep_copy_into_cost_report time object_meta)
        (view_cost_report see_object)
  unfolding deep_copy_into_cost_report view_cost_report
  deep_copy_into_cost_report-IsDeep =
      fields3-IsDeep (λ s. s.object_meta) (λ s. s.spec) (λ s. s.status)
        (λ s x y z. record s { object_meta = x; spec = y; status = z })
        (λ s x y z. record { type_meta = s.type_meta; object_meta = x; spec = y; status = z })
        (view_cost_report see_object) (λ s g. refl) (λ s x y z g. refl) object_deep
        (deep_copy_into_cost_report_spec-IsDeep same_time)
        (deep_copy_into_cost_report_status-IsDeep same_time)

module _ {F O L P Q : Type 0} {time : Time → Time} (same_time : (t : Time) → time t ≡ t)
    {object_meta : O → M (Cell F O L) O} {see_object : O → R (Cell F O L) P}
    (object_deep : IsDeep object_meta see_object) {list_meta : L → M (Cell F O L) L}
    {see_list : L → R (Cell F O L) Q} (list_deep : IsDeep list_meta see_list) where
  pub deep_copy_into_cost_report_list-IsDeep :
      IsDeep {C = Cell F O L}
        (deep_copy_into_cost_report_list time object_meta list_meta)
        (view_cost_report_list see_object see_list)
  unfolding deep_copy_into_cost_report_list view_cost_report_list
  deep_copy_into_cost_report_list-IsDeep =
      fields2-IsDeep (λ s. s.list_meta) (λ s. s.items)
        (λ s x y. record s { list_meta = x; items = y })
        (λ s x y. record { type_meta = s.type_meta; list_meta = x; items = y })
        (view_cost_report_list see_object see_list) (λ s g. refl) (λ s x y g. refl) list_deep
        (copy_ref-IsDeep cost_reports_slot
          (copy_each-IsDeep (deep_copy_into_cost_report-IsDeep same_time object_deep)))
