-- ===== src/DeepCopy/Tests/Actions.antt =====
-- A deep copy of a list of optimization actions.
use eks_financial_orchestrat.Common.{ℕ, String, none, some, [], ◌∷◌, true, ◌≡◌, refl, arith}
use eks_financial_orchestrat.Common.Dict.{get}
use eks_financial_orchestrat.Types.{action_type_spot_migration, action_result_pending}
use eks_financial_orchestrat.Memory.{Heap, return, load, load_as}
use eks_financial_orchestrat.Memory.View.{seen, view_ref, view_each}
use eks_financial_orchestrat.Memory.Laws.{plain-IsDeep}
use eks_financial_orchestrat.Memory.Independent.{write_all}
use eks_financial_orchestrat.DeepCopy.Object.{optimization_action_list_object}
use eks_financial_orchestrat.DeepCopy.Cells.{
  strings_cell, float_map_cell, time_cell, optimization_actions_cell, optimization_action_list_cell,
  optimization_action_list_slot,
}
use eks_financial_orchestrat.DeepCopy.Action.{deep_copy_object_optimization_action_list}
use eks_financial_orchestrat.DeepCopy.Trees.{ActionListTree}
use eks_financial_orchestrat.DeepCopy.Action.View.{
  view_optimization_action_spec, view_optimization_action_status, view_optimization_action,
  view_optimization_action_list,
}
use eks_financial_orchestrat.DeepCopy.Independent.Lists.{
  deep_copy_object_optimization_action_list-independent,
}
use eks_financial_orchestrat.DeepCopy.Tests.{
  SmallCell, heap_of, same_time, copy_annotations, Annotations, see_annotations,
  copy_annotations-IsDeep, services, to_original, to_copy,
}

abbrev action_heap : Heap SmallCell
action_heap = heap_of (
    strings_cell ("node-1" ∷ [])
    ∷ float_map_cell services
    ∷ time_cell 9
    ∷ optimization_actions_cell (
        record {
          type_meta = record { kind = "OptimizationAction"; api_version = "v1alpha1" };
          object_meta = none;
          spec = record {
            action_type = action_type_spot_migration;
            policy_ref = "shop";
            target_namespace = "shop";
            reason = "";
            expected_savings = 4;
            affected_nodes = some 0;
            current_mix = some 1;
            recommended_mix = some 1;
            requires_approval = true;
          };
          status = record {
            result = action_result_pending;
            applied_at = some 2;
            approved_by = "";
            actual_savings = 0;
            message = "";
            rollback_reason = "";
          };
        }
        ∷ [])
    ∷ optimization_action_list_cell (record {
      type_meta = record { kind = "OptimizationActionList"; api_version = "v1alpha1" };
      list_meta = "14";
      items = some 3;
    })
    ∷ [])

abbrev action_tree : ActionListTree ℕ Annotations String
action_tree = record {
  type_meta = record { kind = "OptimizationActionList"; api_version = "v1alpha1" };
  list_meta = "14";
  items = some (
      record {
        type_meta = record { kind = "OptimizationAction"; api_version = "v1alpha1" };
        object_meta = none;
        spec = record {
          action_type = action_type_spot_migration;
          policy_ref = "shop";
          target_namespace = "shop";
          reason = "";
          expected_savings = 4;
          affected_nodes = some ("node-1" ∷ []);
          current_mix = some (λ k. get k services);
          recommended_mix = some (λ k. get k services);
          requires_approval = true;
        };
        status = record {
          result = action_result_pending;
          applied_at = some 9;
          approved_by = "";
          actual_savings = 0;
          message = "";
          rollback_reason = "";
        };
      }
      ∷ []);
}

action_tree-seen :
    view_ref optimization_action_list_slot
      (view_optimization_action_list see_annotations seen)
      (some 4)
      action_heap
    ≡ some (some action_tree)
unfolding view_ref view_each load_as load view_optimization_action_list view_optimization_action
    view_optimization_action_spec view_optimization_action_status
action_tree-seen = refl

action_list_copied :
    (q : ℕ) × (h' : Heap SmallCell) × (deep_copy_object_optimization_action_list same_time
        copy_annotations return
        (some 4)
        action_heap
      ≡ some (some (optimization_action_list_object, q), h'))
    × (view_ref optimization_action_list_slot
          (view_optimization_action_list see_annotations seen)
          (some q)
          (write_all to_original h')
        ≡ some (some action_tree))
    × (view_ref optimization_action_list_slot
          (view_optimization_action_list see_annotations seen)
          (some 4)
          (write_all to_copy h')
        ≡ some (some action_tree))
action_list_copied =
    deep_copy_object_optimization_action_list-independent (λ t. refl) copy_annotations-IsDeep
      plain-IsDeep action_heap 4 action_tree to_original to_copy action_tree-seen (omega arith, tt)
      (omega arith, tt)
