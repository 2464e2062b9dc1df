-- ===== src/DeepCopy/Policy/View.antt =====
-- What is seen of FinancialPolicy and its parts in a heap.
use eks_financial_orchestrat.Types.{SilenceWindowSpec, PolicyCondition}
use eks_financial_orchestrat.DeepCopy.Structs.{
  BudgetSpecOf, InstanceMixSpecOf, AlertingChannelSpecOf, AlertingSpecOf, FinancialPolicySpecOf,
  FinancialPolicyStatusOf, FinancialPolicyListOf,
}
use eks_financial_orchestrat.DeepCopy.Trees.{
  BudgetTree, MixTree, ChannelTree, AlertingTree, PolicySpecTree, PolicyStatusTree, PolicyTree,
  PolicyListTree,
}
use eks_financial_orchestrat.DeepCopy.Cells.{
  Cell, PolicyInMemory, floats_slot, strings_slot, string_map_slot, time_slot,
  instance_mix_spec_slot, alerting_spec_slot, alerting_channels_slot, silence_windows_slot,
  policy_conditions_slot, financial_policies_slot,
}
use eks_financial_orchestrat.Memory.{Ref}
use eks_financial_orchestrat.Memory.View.{R, seen, ◌>>=◌, view_ref, view_each, view_map}

module _ {F O L : Type 0} where
  unfoldable pub view_budget_spec : BudgetSpecOf F Ref → R (Cell F O L) (BudgetTree F)
  view_budget_spec s = do
    alert_thresholds' ← view_ref floats_slot seen s.alert_thresholds
    seen (record {
      monthly_limit = s.monthly_limit;
      alert_thresholds = alert_thresholds';
      breach_action = s.breach_action;
    })

  unfoldable pub view_instance_mix_spec : InstanceMixSpecOf F Ref → R (Cell F O L) (MixTree F)
  view_instance_mix_spec s = do
    allowed_instance_types' ← view_ref strings_slot seen s.allowed_instance_types
    seen (record {
      min_on_demand_percent = s.min_on_demand_percent;
      max_spot_percent = s.max_spot_percent;
      allowed_instance_types = allowed_instance_types';
    })

  unfoldable pub view_alerting_channel_spec : AlertingChannelSpecOf Ref → R (Cell F O L) ChannelTree
  view_alerting_channel_spec s = do
    config' ← view_ref string_map_slot view_map s.config
    seen (record { channel_type = s.channel_type; config = config' })

  unfoldable pub view_silence_window_spec : SilenceWindowSpec → R (Cell F O L) SilenceWindowSpec
  view_silence_window_spec = seen

  unfoldable pub view_alerting_spec : AlertingSpecOf Ref Ref → R (Cell F O L) AlertingTree
  view_alerting_spec s = do
    channels' ← view_ref alerting_channels_slot (view_each view_alerting_channel_spec) s.channels
    silence_windows' ←
        view_ref silence_windows_slot (view_each view_silence_window_spec) s.silence_windows
    seen (record { channels = channels'; silence_windows = silence_windows' })

  unfoldable pub view_policy_condition : PolicyCondition → R (Cell F O L) PolicyCondition
  view_policy_condition = seen

  unfoldable pub view_financial_policy_spec :
      FinancialPolicySpecOf (BudgetSpecOf F Ref) Ref Ref → R (Cell F O L) (PolicySpecTree F)
  view_financial_policy_spec s = do
    budget' ← view_budget_spec s.budget
    instance_mix' ← view_ref instance_mix_spec_slot view_instance_mix_spec s.instance_mix
    alerting' ← view_ref alerting_spec_slot view_alerting_spec s.alerting
    seen (record {
      target_namespace = s.target_namespace;
      budget = budget';
      instance_mix = instance_mix';
      mode = s.mode;
      alerting = alerting';
      version = s.version;
    })

  unfoldable pub view_financial_policy_status :
      FinancialPolicyStatusOf F Ref Ref → R (Cell F O L) (PolicyStatusTree F)
  view_financial_policy_status s = do
    last_evaluated' ← view_ref time_slot seen s.last_evaluated
    conditions' ← view_ref policy_conditions_slot (view_each view_policy_condition) s.conditions
    seen (record {
      phase = s.phase;
      current_cost = s.current_cost;
      budget_usage_percent = s.budget_usage_percent;
      last_evaluated = last_evaluated';
      conditions = conditions';
    })

module _ {F O L P : Type 0} (see_object : O → R (Cell F O L) P) where
  unfoldable pub view_financial_policy : PolicyInMemory F O → R (Cell F O L) (PolicyTree F P)
  view_financial_policy s = do
    object_meta' ← see_object s.object_meta
    spec' ← view_financial_policy_spec s.spec
    status' ← view_financial_policy_status s.status
    seen (record {
      type_meta = s.type_meta;
      object_meta = object_meta';
      spec = spec';
      status = status';
    })

module _ {F O L P Q : Type 0} (see_object : O → R (Cell F O L) P)
    (see_list : L → R (Cell F O L) Q) where
  unfoldable pub view_financial_policy_list :
      FinancialPolicyListOf L Ref → R (Cell F O L) (PolicyListTree F P Q)
  view_financial_policy_list s = do
    list_meta' ← see_list s.list_meta
    items' ← view_ref financial_policies_slot (view_each (view_financial_policy see_object)) s.items
    seen (record { type_meta = s.type_meta; list_meta = list_meta'; items = items' })
