-- ===== src/DeepCopy/Independent.antt =====
-- DeepCopyObject of api/v1alpha1/zz_generated.deepcopy.go: the result is independent of the object,
-- so that its holder can modify it, as the program does with what it reads from the cache.
use eks_financial_orchestrat.Common.{ℕ, none, some, List, ◌≡◌, ◌≤◌, ◌<◌, All}
use eks_financial_orchestrat.Types.{Time}
use eks_financial_orchestrat.DeepCopy.Trees.{
  PolicyTree, PolicyListTree, ReportTree, ReportListTree, ActionTree, ActionListTree,
}
use eks_financial_orchestrat.DeepCopy.Cells.{
  Cell, financial_policy_slot, financial_policy_list_slot, cost_report_slot, cost_report_list_slot,
  optimization_action_slot, optimization_action_list_slot,
}
use eks_financial_orchestrat.DeepCopy.Object.{
  financial_policy_object, financial_policy_list_object, cost_report_object,
  cost_report_list_object, optimization_action_object, optimization_action_list_object, ObjectType,
  as_object,
}
use eks_financial_orchestrat.DeepCopy.Policy.{
  deep_copy_financial_policy, deep_copy_object_financial_policy, deep_copy_financial_policy_list,
  deep_copy_object_financial_policy_list,
}
use eks_financial_orchestrat.DeepCopy.Policy.View.{
  view_financial_policy, view_financial_policy_list,
}
use eks_financial_orchestrat.DeepCopy.Policy.Deep.{
  deep_copy_into_financial_policy-IsDeep, deep_copy_into_financial_policy_list-IsDeep,
}
use eks_financial_orchestrat.DeepCopy.Report.{
  deep_copy_cost_report, deep_copy_object_cost_report, deep_copy_cost_report_list,
  deep_copy_object_cost_report_list,
}
use eks_financial_orchestrat.DeepCopy.Report.View.{view_cost_report, view_cost_report_list}
use eks_financial_orchestrat.DeepCopy.Report.Deep.{
  deep_copy_into_cost_report-IsDeep, deep_copy_into_cost_report_list-IsDeep,
}
use eks_financial_orchestrat.DeepCopy.Action.{
  deep_copy_optimization_action, deep_copy_object_optimization_action,
  deep_copy_optimization_action_list, deep_copy_object_optimization_action_list,
}
use eks_financial_orchestrat.DeepCopy.Action.View.{
  view_optimization_action, view_optimization_action_list,
}
use eks_financial_orchestrat.DeepCopy.Action.Deep.{
  deep_copy_into_optimization_action-IsDeep, deep_copy_into_optimization_action_list-IsDeep,
}
use eks_financial_orchestrat.Memory.{Heap, M, Ref, Slot, return, ◌>>=◌, copy_ref}
use eks_financial_orchestrat.Memory.View.{R, view_ref}
use eks_financial_orchestrat.Memory.Laws.{IsDeep, copy_ref-IsDeep}
use eks_financial_orchestrat.Memory.Independent.{Write, write_all, IsDeep-independent}
pub mod Lists

module _ {C A V : Type 0} {copy : A → M C A} {view : A → R C V} (slot : Slot C A)
    (deep : IsDeep copy view) (type : ObjectType) where
  -- A copy of which something is seen is not nil.
  to_object :
      (h h' old' : Heap C) (p : ℕ) (b : Ref) (v : V)
      → copy_ref slot copy (some p) h ≡ some (b, h')
      → view_ref slot view b old' ≡ some (some v)
      → (q : ℕ) × ((copy_ref slot copy (some p) >>= λ c. return (as_object type c)) h
          ≡ some (some (type, q), h'))
        × (view_ref slot view (some q) old' ≡ some (some v))
  unfolding as_object view_ref
  to_object h h' old' p none v ran e = cc
  to_object h h' old' p (some q) v ran e = (q, rw ran, e)

  pub copy_object-independent :
      (h : Heap C) (p : ℕ) (v : V) (old new : List (Write C))
      → view_ref slot view (some p) h ≡ some (some v)
      → All (λ w. w.0 < h.next) old
      → All (λ w. h.next ≤ w.0) new
      → (q : ℕ) × (h' : Heap C) × ((copy_ref slot copy (some p) >>= λ c. return (as_object type c))
            h
          ≡ some (some (type, q), h'))
        × (view_ref slot view (some q) (write_all old h') ≡ some (some v))
        × (view_ref slot view (some p) (write_all new h') ≡ some (some v))
  copy_object-independent h p v old new e olds news =
      let (b, h', ran, seen_b, seen_p) =
        IsDeep-independent (copy_ref-IsDeep slot deep) h (some p) (some v) old new e olds news in
      let (q, made, seen_q) = to_object h h' (write_all old h') p b v ran seen_b in
      (q, h', made, seen_q, seen_p)

module _ {F O L P : Type 0} {time : Time → Time} (same_time : (t : Time) → time t ≡ t)
    {object_meta : O → M (Cell F O L) O} {see_object : O → R (Cell F O L) P}
    (object_deep : IsDeep object_meta see_object) where
  -- When the pointer `p` is to a policy of which `v` is seen in a heap, and Kubernetes' own deep
  -- copies, of times, of the metadata of objects, are independent of what they copy,
  -- then DeepCopyObject runs without a fault to the pointer `q` to a copy of that type; the copy is
  -- seen as `v` after any writes to cells that were there before, and the original is seen as `v`
  -- after any writes to other cells.
  pub deep_copy_object_financial_policy-independent :
      (h : Heap (Cell F O L)) (p : ℕ) (v : PolicyTree F P) (old new : List (Write (Cell F O L)))
      → view_ref financial_policy_slot (view_financial_policy see_object) (some p) h ≡ some (some v)
      → All (λ w. w.0 < h.next) old
      → All (λ w. h.next ≤ w.0) new
      → (q : ℕ) × (h' : Heap (Cell F O L)) × (deep_copy_object_financial_policy time object_meta
            (some p)
            h
          ≡ some (some (financial_policy_object, q), h'))
        × (view_ref financial_policy_slot
              (view_financial_policy see_object)
              (some q)
              (write_all old h')
            ≡ some (some v))
        × (view_ref financial_policy_slot
              (view_financial_policy see_object)
              (some p)
              (write_all new h')
            ≡ some (some v))
  unfolding deep_copy_object_financial_policy deep_copy_financial_policy
  deep_copy_object_financial_policy-independent =
      copy_object-independent financial_policy_slot
        (deep_copy_into_financial_policy-IsDeep same_time object_deep) financial_policy_object

  -- When the pointer `p` is to a cost report of which `v` is seen in a heap, and Kubernetes' own deep
  -- copies, of times, of the metadata of objects, are independent of what they copy,
  -- then DeepCopyObject runs without a fault to the pointer `q` to a copy of that type; the copy is
  -- seen as `v` after any writes to cells that were there before, and the original is seen as `v`
  -- after any writes to other cells.
  pub deep_copy_object_cost_report-independent :
      (h : Heap (Cell F O L)) (p : ℕ) (v : ReportTree F P) (old new : List (Write (Cell F O L)))
      → view_ref cost_report_slot (view_cost_report see_object) (some p) h ≡ some (some v)
      → All (λ w. w.0 < h.next) old
      → All (λ w. h.next ≤ w.0) new
      → (q : ℕ) × (h' : Heap (Cell F O L)) × (deep_copy_object_cost_report time object_meta
            (some p)
            h
          ≡ some (some (cost_report_object, q), h'))
        × (view_ref cost_report_slot (view_cost_report see_object) (some q) (write_all old h')
            ≡ some (some v))
        × (view_ref cost_report_slot (view_cost_report see_object) (some p) (write_all new h')
            ≡ some (some v))
  unfolding deep_copy_object_cost_report deep_copy_cost_report
  deep_copy_object_cost_report-independent =
      copy_object-independent cost_report_slot
        (deep_copy_into_cost_report-IsDeep same_time object_deep) cost_report_object

  -- When the pointer `p` is to an optimization action of which `v` is seen in a heap, and Kubernetes' own deep
  -- copies, of times, of the metadata of objects, are independent of what they copy,
  -- then DeepCopyObject runs without a fault to the pointer `q` to a copy of that type; the copy is
  -- seen as `v` after any writes to cells that were there before, and the original is seen as `v`
  -- after any writes to other cells.
  pub deep_copy_object_optimization_action-independent :
      (h : Heap (Cell F O L)) (p : ℕ) (v : ActionTree F P) (old new : List (Write (Cell F O L)))
      → view_ref optimization_action_slot (view_optimization_action see_object) (some p) h
        ≡ some (some v)
      → All (λ w. w.0 < h.next) old
      → All (λ w. h.next ≤ w.0) new
      → (q : ℕ) × (h' : Heap (Cell F O L)) × (deep_copy_object_optimization_action time object_meta
            (some p)
            h
          ≡ some (some (optimization_action_object, q), h'))
        × (view_ref optimization_action_slot
              (view_optimization_action see_object)
              (some q)
              (write_all old h')
            ≡ some (some v))
        × (view_ref optimization_action_slot
              (view_optimization_action see_object)
              (some p)
              (write_all new h')
            ≡ some (some v))
  unfolding deep_copy_object_optimization_action deep_copy_optimization_action
  deep_copy_object_optimization_action-independent =
      copy_object-independent optimization_action_slot
        (deep_copy_into_optimization_action-IsDeep same_time object_deep) optimization_action_object
