-- ===== src/DeepCopy/Action/Deep.antt =====
-- The deep copies of OptimizationAction and its parts are independent of what they copy.
use eks_financial_orchestrat.Common.{◌≡◌, refl}
use eks_financial_orchestrat.Types.{Time}
use eks_financial_orchestrat.DeepCopy.Cells.{
  Cell, strings_slot, float_map_slot, time_slot, optimization_actions_slot,
}
use eks_financial_orchestrat.DeepCopy.Action.{
  deep_copy_into_optimization_action_spec, deep_copy_into_optimization_action_status,
  deep_copy_into_optimization_action, deep_copy_into_optimization_action_list,
}
use eks_financial_orchestrat.DeepCopy.Action.View.{
  view_optimization_action_spec, view_optimization_action_status, view_optimization_action,
  view_optimization_action_list,
}
use eks_financial_orchestrat.Memory.{M}
use eks_financial_orchestrat.Memory.View.{R}
use eks_financial_orchestrat.Memory.Laws.{
  IsDeep, plain-IsDeep, same-IsDeep, copy_ref-IsDeep, copy_each-IsDeep, copy_map-IsDeep,
}
use eks_financial_orchestrat.Memory.Fields.{fields1-IsDeep, fields2-IsDeep, fields3-IsDeep}

module _ {F O L : Type 0} where
  pub deep_copy_into_optimization_action_spec-IsDeep :
      IsDeep {C = Cell F O L} deep_copy_into_optimization_action_spec view_optimization_action_spec
  unfolding deep_copy_into_optimization_action_spec view_optimization_action_spec
  deep_copy_into_optimization_action_spec-IsDeep =
      fields3-IsDeep (λ s. s.affected_nodes) (λ s. s.current_mix) (λ s. s.recommended_mix)
        (λ s x y z. record s { affected_nodes = x; current_mix = y; recommended_mix = z })
        (λ s x y z. record {
          action_type = s.action_type;
          policy_ref = s.policy_ref;
          target_namespace = s.target_namespace;
          reason = s.reason;
          expected_savings = s.expected_savings;
          affected_nodes = x;
          current_mix = y;
          recommended_mix = z;
          requires_approval = s.requires_approval;
        })
        view_optimization_action_spec (λ s g. refl) (λ s x y z g. refl)
        (copy_ref-IsDeep strings_slot plain-IsDeep) (copy_ref-IsDeep float_map_slot copy_map-IsDeep)
        (copy_ref-IsDeep float_map_slot copy_map-IsDeep)

module _ {F O L : Type 0} {time : Time → Time} (same_time : (t : Time) → time t ≡ t) where
  pub deep_copy_into_optimization_action_status-IsDeep :
      IsDeep {C = Cell F O L}
        (deep_copy_into_optimization_action_status time)
        view_optimization_action_status
  unfolding deep_copy_into_optimization_action_status view_optimization_action_status
  deep_copy_into_optimization_action_status-IsDeep =
      fields1-IsDeep (λ s. s.applied_at) (λ s x. record s { applied_at = x })
        (λ s x. record {
          result = s.result;
          applied_at = x;
          approved_by = s.approved_by;
          actual_savings = s.actual_savings;
          message = s.message;
          rollback_reason = s.rollback_reason;
        })
        view_optimization_action_status (λ s g. refl) (λ s x g. refl)
        (copy_ref-IsDeep time_slot (same-IsDeep _ same_time))

module _ {F O L P : Type 0} {time : Time → Time} (same_time : (t : Time) → time t ≡ t)
    {object_meta : O → M (Cell F O L) O} {see_object : O → R (Cell F O L) P}
    (object_deep : IsDeep object_meta see_object) where
  pub deep_copy_into_optimization_action-IsDeep :
      IsDeep {C = Cell F O L}
        (deep_copy_into_optimization_action time object_meta)
        (view_optimization_action see_object)
  unfolding deep_copy_into_optimization_action view_optimization_action
  deep_copy_into_optimization_action-IsDeep =
      fields3-IsDeep (λ s. s.object_meta) (λ s. s.spec) (λ s. s.status)
        (λ s x y z. record s { object_meta = x; spec = y; status = z })
        (λ s x y z. record { type_meta = s.type_meta; object_meta = x; spec = y; status = z })
        (view_optimization_action see_object) (λ s g. refl) (λ s x y z g. refl) object_deep
        deep_copy_into_optimization_action_spec-IsDeep
        (deep_copy_into_optimization_action_status-IsDeep same_time)

module _ {F O L P Q : Type 0} {time : Time → Time} (same_time : (t : Time) → time t ≡ t)
    {object_meta : O → M (Cell F O L) O} {see_object : O → R (Cell F O L) P}
    (object_deep : IsDeep object_meta see_object) {list_meta : L → M (Cell F O L) L}
    {see_list : L → R (Cell F O L) Q} (list_deep : IsDeep list_meta see_list) where
  pub deep_copy_into_optimization_action_list-IsDeep :
      IsDeep {C = Cell F O L}
        (deep_copy_into_optimization_action_list time object_meta list_meta)
        (view_optimization_action_list see_object see_list)
  unfolding deep_copy_into_optimization_action_list view_optimization_action_list
  deep_copy_into_optimization_action_list-IsDeep =
      fields2-IsDeep (λ s. s.list_meta) (λ s. s.items)
        (λ s x y. record s { list_meta = x; items = y })
        (λ s x y. record { type_meta = s.type_meta; list_meta = x; items = y })
        (view_optimization_action_list see_object see_list) (λ s g. refl) (λ s x y g. refl)
        list_deep
        (copy_ref-IsDeep optimization_actions_slot
          (copy_each-IsDeep (deep_copy_into_optimization_action-IsDeep same_time object_deep)))
