-- ===== src/DeepCopy/Independent/Lists.antt =====
-- DeepCopyObject of the lists of resources: the result is independent of the list.
use eks_financial_orchestrat.Common.{ℕ, some, List, ◌≡◌, ◌≤◌, ◌<◌, All}
use eks_financial_orchestrat.Types.{Time}
use eks_financial_orchestrat.DeepCopy.Trees.{PolicyListTree, ReportListTree, ActionListTree}
use eks_financial_orchestrat.DeepCopy.Cells.{
  Cell, financial_policy_list_slot, cost_report_list_slot, optimization_action_list_slot,
}
use eks_financial_orchestrat.DeepCopy.Object.{
  financial_policy_list_object, cost_report_list_object, optimization_action_list_object,
}
use eks_financial_orchestrat.DeepCopy.Policy.{
  deep_copy_financial_policy_list, deep_copy_object_financial_policy_list,
}
use eks_financial_orchestrat.DeepCopy.Policy.View.{view_financial_policy_list}
use eks_financial_orchestrat.DeepCopy.Policy.Deep.{deep_copy_into_financial_policy_list-IsDeep}
use eks_financial_orchestrat.DeepCopy.Report.{
  deep_copy_cost_report_list, deep_copy_object_cost_report_list,
}
use eks_financial_orchestrat.DeepCopy.Report.View.{view_cost_report_list}
use eks_financial_orchestrat.DeepCopy.Report.Deep.{deep_copy_into_cost_report_list-IsDeep}
use eks_financial_orchestrat.DeepCopy.Action.{
  deep_copy_optimization_action_list, deep_copy_object_optimization_action_list,
}
use eks_financial_orchestrat.DeepCopy.Action.View.{view_optimization_action_list}
use eks_financial_orchestrat.DeepCopy.Action.Deep.{deep_copy_into_optimization_action_list-IsDeep}
use eks_financial_orchestrat.Memory.{Heap, M}
use eks_financial_orchestrat.Memory.View.{R, view_ref}
use eks_financial_orchestrat.Memory.Laws.{IsDeep}
use eks_financial_orchestrat.Memory.Independent.{Write, write_all}
use eks_financial_orchestrat.DeepCopy.Independent.{copy_object-independent}

module _ {F O L P Q : Type 0} {time : Time → Time} (same_time : (t : Time) → time t ≡ t)
    {object_meta : O → M (Cell F O L) O} {see_object : O → R (Cell F O L) P}
    (object_deep : IsDeep object_meta see_object) {list_meta : L → M (Cell F O L) L}
    {see_list : L → R (Cell F O L) Q} (list_deep : IsDeep list_meta see_list) where
  -- When the pointer `p` is to a list of policies of which `v` is seen in a heap, and Kubernetes' own deep
  -- copies, of times, of the metadata of objects and of lists, are independent of what they copy,
  -- then DeepCopyObject runs without a fault to the pointer `q` to a copy of that type; the copy is
  -- seen as `v` after any writes to cells that were there before, and the original is seen as `v`
  -- after any writes to other cells.
  pub deep_copy_object_financial_policy_list-independent :
      (h : Heap (Cell F O L)) (p : ℕ) (v : PolicyListTree F P Q)
      (old new : List (Write (Cell F O L)))
      → view_ref financial_policy_list_slot
          (view_financial_policy_list see_object see_list)
          (some p)
          h
        ≡ some (some v)
      → All (λ w. w.0 < h.next) old
      → All (λ w. h.next ≤ w.0) new
      → (q : ℕ) × (h' : Heap (Cell F O L)) × (deep_copy_object_financial_policy_list time
            object_meta list_meta
            (some p)
            h
          ≡ some (some (financial_policy_list_object, q), h'))
        × (view_ref financial_policy_list_slot
              (view_financial_policy_list see_object see_list)
              (some q)
              (write_all old h')
            ≡ some (some v))
        × (view_ref financial_policy_list_slot
              (view_financial_policy_list see_object see_list)
              (some p)
              (write_all new h')
            ≡ some (some v))
  unfolding deep_copy_object_financial_policy_list deep_copy_financial_policy_list
  deep_copy_object_financial_policy_list-independent =
      copy_object-independent financial_policy_list_slot
        (deep_copy_into_financial_policy_list-IsDeep same_time object_deep list_deep)
        financial_policy_list_object

  -- When the pointer `p` is to a list of cost reports of which `v` is seen in a heap, and Kubernetes' own deep
  -- copies, of times, of the metadata of objects and of lists, are independent of what they copy,
  -- then DeepCopyObject runs without a fault to the pointer `q` to a copy of that type; the copy is
  -- seen as `v` after any writes to cells that were there before, and the original is seen as `v`
  -- after any writes to other cells.
  pub deep_copy_object_cost_report_list-independent :
      (h : Heap (Cell F O L)) (p : ℕ) (v : ReportListTree F P Q)
      (old new : List (Write (Cell F O L)))
      → view_ref cost_report_list_slot (view_cost_report_list see_object see_list) (some p) h
        ≡ some (some v)
      → All (λ w. w.0 < h.next) old
      → All (λ w. h.next ≤ w.0) new
      → (q : ℕ) × (h' : Heap (Cell F O L)) × (deep_copy_object_cost_report_list time object_meta
            list_meta
            (some p)
            h
          ≡ some (some (cost_report_list_object, q), h'))
        × (view_ref cost_report_list_slot
              (view_cost_report_list see_object see_list)
              (some q)
              (write_all old h')
            ≡ some (some v))
        × (view_ref cost_report_list_slot
              (view_cost_report_list see_object see_list)
              (some p)
              (write_all new h')
            ≡ some (some v))
  unfolding deep_copy_object_cost_report_list deep_copy_cost_report_list
  deep_copy_object_cost_report_list-independent =
      copy_object-independent cost_report_list_slot
        (deep_copy_into_cost_report_list-IsDeep same_time object_deep list_deep)
        cost_report_list_object

  -- When the pointer `p` is to a list of optimization actions of which `v` is seen in a heap, and Kubernetes' own deep
  -- copies, of times, of the metadata of objects and of lists, are independent of what they copy,
  -- then DeepCopyObject runs without a fault to the pointer `q` to a copy of that type; the copy is
  -- seen as `v` after any writes to cells that were there before, and the original is seen as `v`
  -- after any writes to other cells.
  pub deep_copy_object_optimization_action_list-independent :
      (h : Heap (Cell F O L)) (p : ℕ) (v : ActionListTree F P Q)
      (old new : List (Write (Cell F O L)))
      → view_ref optimization_action_list_slot
          (view_optimization_action_list see_object see_list)
          (some p)
          h
        ≡ some (some v)
      → All (λ w. w.0 < h.next) old
      → All (λ w. h.next ≤ w.0) new
      → (q : ℕ) × (h' : Heap (Cell F O L)) × (deep_copy_object_optimization_action_list time
            object_meta list_meta
            (some p)
            h
          ≡ some (some (optimization_action_list_object, q), h'))
        × (view_ref optimization_action_list_slot
              (view_optimization_action_list see_object see_list)
              (some q)
              (write_all old h')
            ≡ some (some v))
        × (view_ref optimization_action_list_slot
              (view_optimization_action_list see_object see_list)
              (some p)
              (write_all new h')
            ≡ some (some v))
  unfolding deep_copy_object_optimization_action_list deep_copy_optimization_action_list
  deep_copy_object_optimization_action_list-independent =
      copy_object-independent optimization_action_list_slot
        (deep_copy_into_optimization_action_list-IsDeep same_time object_deep list_deep)
        optimization_action_list_object
