-- ===== src/DeepCopy/Action/View.antt =====
-- What is seen of OptimizationAction and its parts in a heap.
use eks_financial_orchestrat.DeepCopy.Structs.{
  OptimizationActionSpecOf, OptimizationActionStatusOf, OptimizationActionListOf,
}
use eks_financial_orchestrat.DeepCopy.Trees.{
  ActionSpecTree, ActionStatusTree, ActionTree, ActionListTree,
}
use eks_financial_orchestrat.DeepCopy.Cells.{
  Cell, ActionInMemory, strings_slot, float_map_slot, time_slot, optimization_actions_slot,
}
use eks_financial_orchestrat.Memory.{Ref}
use eks_financial_orchestrat.Memory.View.{R, seen, ◌>>=◌, view_ref, view_each, view_map}

module _ {F O L : Type 0} where
  unfoldable pub view_optimization_action_spec :
      OptimizationActionSpecOf F Ref Ref → R (Cell F O L) (ActionSpecTree F)
  view_optimization_action_spec s = do
    affected_nodes' ← view_ref strings_slot seen s.affected_nodes
    current_mix' ← view_ref float_map_slot view_map s.current_mix
    recommended_mix' ← view_ref float_map_slot view_map s.recommended_mix
    seen (record {
      action_type = s.action_type;
      policy_ref = s.policy_ref;
      target_namespace = s.target_namespace;
      reason = s.reason;
      expected_savings = s.expected_savings;
      affected_nodes = affected_nodes';
      current_mix = current_mix';
      recommended_mix = recommended_mix';
      requires_approval = s.requires_approval;
    })

  unfoldable pub view_optimization_action_status :
      OptimizationActionStatusOf F Ref → R (Cell F O L) (ActionStatusTree F)
  view_optimization_action_status s = do
    applied_at' ← view_ref time_slot seen s.applied_at
    seen (record {
      result = s.result;
      applied_at = applied_at';
      approved_by = s.approved_by;
      actual_savings = s.actual_savings;
      message = s.message;
      rollback_reason = s.rollback_reason;
    })

module _ {F O L P : Type 0} (see_object : O → R (Cell F O L) P) where
  unfoldable pub view_optimization_action : ActionInMemory F O → R (Cell F O L) (ActionTree F P)
  view_optimization_action s = do
    object_meta' ← see_object s.object_meta
    spec' ← view_optimization_action_spec s.spec
    status' ← view_optimization_action_status s.status
    seen (record {
      type_meta = s.type_meta;
      object_meta = object_meta';
      spec = spec';
      status = status';
    })

module _ {F O L P Q : Type 0} (see_object : O → R (Cell F O L) P)
    (see_list : L → R (Cell F O L) Q) where
  unfoldable pub view_optimization_action_list :
      OptimizationActionListOf L Ref → R (Cell F O L) (ActionListTree F P Q)
  view_optimization_action_list s = do
    list_meta' ← see_list s.list_meta
    items' ←
        view_ref optimization_actions_slot (view_each (view_optimization_action see_object)) s.items
    seen (record { type_meta = s.type_meta; list_meta = list_meta'; items = items' })
