-- ===== src/DeepCopy/Policy/Deep.antt =====
-- The deep copies of FinancialPolicy and its parts are independent of what they copy.
use eks_financial_orchestrat.Common.{◌≡◌, refl}
use eks_financial_orchestrat.Types.{Time}
use eks_financial_orchestrat.DeepCopy.Cells.{
  Cell, floats_slot, strings_slot, string_map_slot, time_slot, instance_mix_spec_slot,
  alerting_spec_slot, alerting_channels_slot, silence_windows_slot, policy_conditions_slot,
  financial_policies_slot,
}
use eks_financial_orchestrat.DeepCopy.Policy.{
  deep_copy_into_budget_spec, deep_copy_into_instance_mix_spec,
  deep_copy_into_alerting_channel_spec, deep_copy_into_silence_window_spec,
  deep_copy_into_alerting_spec, deep_copy_into_policy_condition,
  deep_copy_into_financial_policy_spec, deep_copy_into_financial_policy_status,
  deep_copy_into_financial_policy, deep_copy_into_financial_policy_list,
}
use eks_financial_orchestrat.DeepCopy.Policy.View.{
  view_budget_spec, view_instance_mix_spec, view_alerting_channel_spec, view_silence_window_spec,
  view_alerting_spec, view_policy_condition, view_financial_policy_spec,
  view_financial_policy_status, view_financial_policy, view_financial_policy_list,
}
use eks_financial_orchestrat.Memory.{M}
use eks_financial_orchestrat.Memory.View.{R}
use eks_financial_orchestrat.Memory.Laws.{
  IsDeep, plain-IsDeep, same-IsDeep, copy_ref-IsDeep, copy_each-IsDeep, copy_map-IsDeep,
}
use eks_financial_orchestrat.Memory.Fields.{fields1-IsDeep, fields2-IsDeep, fields3-IsDeep}

module _ {F O L : Type 0} where
  pub deep_copy_into_budget_spec-IsDeep :
      IsDeep {C = Cell F O L} deep_copy_into_budget_spec view_budget_spec
  unfolding deep_copy_into_budget_spec view_budget_spec
  deep_copy_into_budget_spec-IsDeep =
      fields1-IsDeep (λ s. s.alert_thresholds) (λ s x. record s { alert_thresholds = x })
        (λ s x. record {
          monthly_limit = s.monthly_limit;
          alert_thresholds = x;
          breach_action = s.breach_action;
        })
        view_budget_spec (λ s g. refl) (λ s x g. refl) (copy_ref-IsDeep floats_slot plain-IsDeep)

  pub deep_copy_into_instance_mix_spec-IsDeep :
      IsDeep {C = Cell F O L} deep_copy_into_instance_mix_spec view_instance_mix_spec
  unfolding deep_copy_into_instance_mix_spec view_instance_mix_spec
  deep_copy_into_instance_mix_spec-IsDeep =
      fields1-IsDeep (λ s. s.allowed_instance_types)
        (λ s x. record s { allowed_instance_types = x })
        (λ s x. record {
          min_on_demand_percent = s.min_on_demand_percent;
          max_spot_percent = s.max_spot_percent;
          allowed_instance_types = x;
        })
        view_instance_mix_spec (λ s g. refl) (λ s x g. refl)
        (copy_ref-IsDeep strings_slot plain-IsDeep)

  pub deep_copy_into_alerting_channel_spec-IsDeep :
      IsDeep {C = Cell F O L} deep_copy_into_alerting_channel_spec view_alerting_channel_spec
  unfolding deep_copy_into_alerting_channel_spec view_alerting_channel_spec
  deep_copy_into_alerting_channel_spec-IsDeep =
      fields1-IsDeep (λ s. s.config) (λ s x. record s { config = x })
        (λ s x. record { channel_type = s.channel_type; config = x }) view_alerting_channel_spec
        (λ s g. refl) (λ s x g. refl) (copy_ref-IsDeep string_map_slot copy_map-IsDeep)

module _ {F O L : Type 0} {time : Time → Time} (same_time : (t : Time) → time t ≡ t) where
  pub deep_copy_into_silence_window_spec-IsDeep :
      IsDeep {C = Cell F O L} (deep_copy_into_silence_window_spec time) view_silence_window_spec
  unfolding deep_copy_into_silence_window_spec view_silence_window_spec
  deep_copy_into_silence_window_spec-IsDeep =
      same-IsDeep (λ s. record s { start = time s.start; end = time s.end })
        λ s. rw (same_time s.start, same_time s.end) refl

  pub deep_copy_into_alerting_spec-IsDeep :
      IsDeep {C = Cell F O L} (deep_copy_into_alerting_spec time) view_alerting_spec
  unfolding deep_copy_into_alerting_spec view_alerting_spec
  deep_copy_into_alerting_spec-IsDeep =
      fields2-IsDeep (λ s. s.channels) (λ s. s.silence_windows)
        (λ s x y. record s { channels = x; silence_windows = y })
        (λ s x y. record { channels = x; silence_windows = y }) view_alerting_spec (λ s g. refl)
        (λ s x y g. refl)
        (copy_ref-IsDeep alerting_channels_slot
          (copy_each-IsDeep deep_copy_into_alerting_channel_spec-IsDeep))
        (copy_ref-IsDeep silence_windows_slot
          (copy_each-IsDeep deep_copy_into_silence_window_spec-IsDeep))

  pub deep_copy_into_policy_condition-IsDeep :
      IsDeep {C = Cell F O L} (deep_copy_into_policy_condition time) view_policy_condition
  unfolding deep_copy_into_policy_condition view_policy_condition
  deep_copy_into_policy_condition-IsDeep =
      same-IsDeep (λ s. record s { last_transition_time = time s.last_transition_time })
        λ s. rw (same_time s.last_transition_time) refl

  pub deep_copy_into_financial_policy_spec-IsDeep :
      IsDeep {C = Cell F O L} (deep_copy_into_financial_policy_spec time) view_financial_policy_spec
  unfolding deep_copy_into_financial_policy_spec view_financial_policy_spec
  deep_copy_into_financial_policy_spec-IsDeep =
      fields3-IsDeep (λ s. s.budget) (λ s. s.instance_mix) (λ s. s.alerting)
        (λ s x y z. record s { budget = x; instance_mix = y; alerting = z })
        (λ s x y z. record {
          target_namespace = s.target_namespace;
          budget = x;
          instance_mix = y;
          mode = s.mode;
          alerting = z;
          version = s.version;
        })
        view_financial_policy_spec (λ s g. refl) (λ s x y z g. refl)
        deep_copy_into_budget_spec-IsDeep
        (copy_ref-IsDeep instance_mix_spec_slot deep_copy_into_instance_mix_spec-IsDeep)
        (copy_ref-IsDeep alerting_spec_slot deep_copy_into_alerting_spec-IsDeep)

  pub deep_copy_into_financial_policy_status-IsDeep :
      IsDeep {C = Cell F O L}
        (deep_copy_into_financial_policy_status time)
        view_financial_policy_status
  unfolding deep_copy_into_financial_policy_status view_financial_policy_status
  deep_copy_into_financial_policy_status-IsDeep =
      fields2-IsDeep (λ s. s.last_evaluated) (λ s. s.conditions)
        (λ s x y. record s { last_evaluated = x; conditions = y })
        (λ s x y. record {
          phase = s.phase;
          current_cost = s.current_cost;
          budget_usage_percent = s.budget_usage_percent;
          last_evaluated = x;
          conditions = y;
        })
        view_financial_policy_status (λ s g. refl) (λ s x y g. refl)
        (copy_ref-IsDeep time_slot (same-IsDeep _ same_time))
        (copy_ref-IsDeep policy_conditions_slot
          (copy_each-IsDeep deep_copy_into_policy_condition-IsDeep))

module _ {F O L P : Type 0} {time : Time → Time} (same_time : (t : Time) → time t ≡ t)
    {object_meta : O → M (Cell F O L) O} {see_object : O → R (Cell F O L) P}
    (object_deep : IsDeep object_meta see_object) where
  pub deep_copy_into_financial_policy-IsDeep :
      IsDeep {C = Cell F O L}
        (deep_copy_into_financial_policy time object_meta)
        (view_financial_policy see_object)
  unfolding deep_copy_into_financial_policy view_financial_policy
  deep_copy_into_financial_policy-IsDeep =
      fields3-IsDeep (λ s. s.object_meta) (λ s. s.spec) (λ s. s.status)
        (λ s x y z. record s { object_meta = x; spec = y; status = z })
        (λ s x y z. record { type_meta = s.type_meta; object_meta = x; spec = y; status = z })
        (view_financial_policy see_object) (λ s g. refl) (λ s x y z g. refl) object_deep
        (deep_copy_into_financial_policy_spec-IsDeep same_time)
        (deep_copy_into_financial_policy_status-IsDeep same_time)

module _ {F O L P Q : Type 0} {time : Time → Time} (same_time : (t : Time) → time t ≡ t)
    {object_meta : O → M (Cell F O L) O} {see_object : O → R (Cell F O L) P}
    (object_deep : IsDeep object_meta see_object) {list_meta : L → M (Cell F O L) L}
    {see_list : L → R (Cell F O L) Q} (list_deep : IsDeep list_meta see_list) where
  pub deep_copy_into_financial_policy_list-IsDeep :
      IsDeep {C = Cell F O L}
        (deep_copy_into_financial_policy_list time object_meta list_meta)
        (view_financial_policy_list see_object see_list)
  unfolding deep_copy_into_financial_policy_list view_financial_policy_list
  deep_copy_into_financial_policy_list-IsDeep =
      fields2-IsDeep (λ s. s.list_meta) (λ s. s.items)
        (λ s x y. record s { list_meta = x; items = y })
        (λ s x y. record { type_meta = s.type_meta; list_meta = x; items = y })
        (view_financial_policy_list see_object see_list) (λ s g. refl) (λ s x y g. refl) list_deep
        (copy_ref-IsDeep financial_policies_slot
          (copy_each-IsDeep (deep_copy_into_financial_policy-IsDeep same_time object_deep)))
