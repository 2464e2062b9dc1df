-- ===== src/DeepCopy/Tests/Reports.antt =====
-- A deep copy of a list of cost reports.
use eks_financial_orchestrat.Common.{ℕ, String, none, some, [], ◌∷◌, ◌≡◌, refl, arith}
use eks_financial_orchestrat.Common.Dict.{get}
use eks_financial_orchestrat.Memory.{Heap, return, load, load_as}
use eks_financial_orchestrat.Memory.View.{seen, view_ref, view_each}
use eks_financial_orchestrat.Memory.Laws.{plain-IsDeep}
use eks_financial_orchestrat.Memory.Independent.{write_all}
use eks_financial_orchestrat.DeepCopy.Object.{cost_report_list_object}
use eks_financial_orchestrat.DeepCopy.Cells.{
  strings_cell, float_map_cell, time_cell, namespace_cost_summaries_cell, team_cost_summaries_cell,
  cost_reports_cell, cost_report_list_cell, cost_report_list_slot,
}
use eks_financial_orchestrat.DeepCopy.Report.{deep_copy_object_cost_report_list}
use eks_financial_orchestrat.DeepCopy.Trees.{ReportListTree}
use eks_financial_orchestrat.DeepCopy.Report.View.{
  view_cost_report_spec, view_namespace_cost_summary, view_cost_report_status, view_cost_report,
  view_cost_report_list,
}
use eks_financial_orchestrat.DeepCopy.Independent.Lists.{
  deep_copy_object_cost_report_list-independent,
}
use eks_financial_orchestrat.DeepCopy.Tests.{
  SmallCell, heap_of, same_time, copy_annotations, Annotations, see_annotations,
  copy_annotations-IsDeep, services, to_original, to_copy,
}

abbrev report_heap : Heap SmallCell
report_heap = heap_of (
    strings_cell ("shop" ∷ [])
    ∷ float_map_cell services
    ∷ namespace_cost_summaries_cell (
        record {
          namespace = "shop";
          direct_cost = 5;
          shared_cost = 1;
          total_cost = 6;
          by_service = some 1;
        }
        ∷ [])
    ∷ team_cost_summaries_cell
        (record { team = "core"; direct_cost = 5; indirect_cost = 1; total_cost = 6 } ∷ [])
    ∷ time_cell 9
    ∷ cost_reports_cell (
        record {
          type_meta = record { kind = "CostReport"; api_version = "v1alpha1" };
          object_meta = none;
          spec = record { start_time = 1; end_time = 2; namespaces = some 0; teams = none };
          status = record {
            phase = "Ready";
            total_cost = 6;
            by_namespace = some 2;
            by_team = some 3;
            generated_at = some 4;
            message = "";
          };
        }
        ∷ [])
    ∷ cost_report_list_cell (record {
      type_meta = record { kind = "CostReportList"; api_version = "v1alpha1" };
      list_meta = "13";
      items = some 5;
    })
    ∷ [])

abbrev report_tree : ReportListTree ℕ Annotations String
report_tree = record {
  type_meta = record { kind = "CostReportList"; api_version = "v1alpha1" };
  list_meta = "13";
  items = some (
      record {
        type_meta = record { kind = "CostReport"; api_version = "v1alpha1" };
        object_meta = none;
        spec = record {
          start_time = 1;
          end_time = 2;
          namespaces = some ("shop" ∷ []);
          teams = none;
        };
        status = record {
          phase = "Ready";
          total_cost = 6;
          by_namespace = some (
              record {
                namespace = "shop";
                direct_cost = 5;
                shared_cost = 1;
                total_cost = 6;
                by_service = some (λ k. get k services);
              }
              ∷ []);
          by_team =
              some
                (record { team = "core"; direct_cost = 5; indirect_cost = 1; total_cost = 6 } ∷ []);
          generated_at = some 9;
          message = "";
        };
      }
      ∷ []);
}

report_tree-seen :
    view_ref cost_report_list_slot (view_cost_report_list see_annotations seen) (some 6) report_heap
    ≡ some (some report_tree)
unfolding view_ref view_each load_as load view_cost_report_list view_cost_report
    view_cost_report_spec view_cost_report_status view_namespace_cost_summary
report_tree-seen = refl

deep_copy_object_cost_report_list-independent_example :
    (q : ℕ) × (h' : Heap SmallCell) × (deep_copy_object_cost_report_list same_time copy_annotations
        return
        (some 6)
        report_heap
      ≡ some (some (cost_report_list_object, q), h'))
    × (view_ref cost_report_list_slot
          (view_cost_report_list see_annotations seen)
          (some q)
          (write_all to_original h')
        ≡ some (some report_tree))
    × (view_ref cost_report_list_slot
          (view_cost_report_list see_annotations seen)
          (some 6)
          (write_all to_copy h')
        ≡ some (some report_tree))
deep_copy_object_cost_report_list-independent_example =
    deep_copy_object_cost_report_list-independent (λ t. refl) copy_annotations-IsDeep plain-IsDeep
      report_heap 6 report_tree to_original to_copy report_tree-seen (omega arith, tt)
      (omega arith, tt)
