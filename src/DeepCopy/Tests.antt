-- ===== src/DeepCopy/Tests.antt =====
-- Small heaps for the runs of the deep copies. The metadata of an object are its annotations, those of
-- a list its resource version; numbers are natural.
mod Policies
mod Reports
mod Actions
use eks_financial_orchestrat.Common.{
  ℕ, String, Option, none, some, List, [], ◌∷◌, true, ◌≡◌, refl, arith, length, get_elem?,
}
use eks_financial_orchestrat.Common.Dict.{Dict, get}
use eks_financial_orchestrat.Types.{Time, action_type_spot_migration, action_result_pending}
use eks_financial_orchestrat.Memory.{Heap, M, Ref, return, load, load_as, copy_ref, copy_map}
use eks_financial_orchestrat.Memory.View.{R, seen, view_ref, view_each, view_map}
use eks_financial_orchestrat.Memory.Laws.{IsDeep, plain-IsDeep, copy_ref-IsDeep, copy_map-IsDeep}
use eks_financial_orchestrat.Memory.Independent.{Write, write_all}
use eks_financial_orchestrat.DeepCopy.Object.{
  as_object, financial_policy_list_object, cost_report_list_object, optimization_action_list_object,
}
use eks_financial_orchestrat.DeepCopy.Cells.{
  Cell, string_map_cell, floats_cell, strings_cell, float_map_cell, time_cell,
  instance_mix_spec_cell, alerting_spec_cell, alerting_channels_cell, silence_windows_cell,
  policy_conditions_cell, financial_policies_cell, financial_policy_list_cell,
  namespace_cost_summaries_cell, team_cost_summaries_cell, cost_reports_cell, cost_report_list_cell,
  optimization_actions_cell, optimization_action_list_cell, string_map_slot,
  financial_policy_list_slot, cost_report_list_slot, optimization_action_list_slot,
}
use eks_financial_orchestrat.DeepCopy.Policy.{
  deep_copy_object_financial_policy_list, deep_copy_financial_policy_list,
}
use eks_financial_orchestrat.DeepCopy.Report.{deep_copy_object_cost_report_list}
use eks_financial_orchestrat.DeepCopy.Action.{deep_copy_object_optimization_action_list}
use eks_financial_orchestrat.DeepCopy.Trees.{PolicyListTree, ReportListTree, ActionListTree}
use eks_financial_orchestrat.DeepCopy.Policy.View.{
  view_budget_spec, view_instance_mix_spec, view_alerting_channel_spec, view_silence_window_spec,
  view_alerting_spec, view_policy_condition, view_financial_policy_spec,
  view_financial_policy_status, view_financial_policy, view_financial_policy_list,
}
use eks_financial_orchestrat.DeepCopy.Report.View.{
  view_cost_report_spec, view_namespace_cost_summary, view_cost_report_status, view_cost_report,
  view_cost_report_list,
}
use eks_financial_orchestrat.DeepCopy.Action.View.{
  view_optimization_action_spec, view_optimization_action_status, view_optimization_action,
  view_optimization_action_list,
}
use eks_financial_orchestrat.DeepCopy.Independent.Lists.{
  deep_copy_object_financial_policy_list-independent, deep_copy_object_cost_report_list-independent,
  deep_copy_object_optimization_action_list-independent,
}

abbrev pub SmallCell : Type 0
SmallCell = Cell ℕ Ref String

abbrev pub heap_of : List SmallCell → Heap SmallCell
heap_of cells = record { next = length cells; cell = λ p. get_elem? cells p }

abbrev pub same_time : Time → Time
same_time t = t

abbrev pub copy_annotations : Ref → M SmallCell Ref
copy_annotations = copy_ref string_map_slot copy_map

abbrev pub Annotations : Type 0
Annotations = Option (String → Option String)

abbrev pub see_annotations : Ref → R SmallCell Annotations
see_annotations = view_ref string_map_slot view_map

pub copy_annotations-IsDeep : IsDeep copy_annotations see_annotations
copy_annotations-IsDeep = copy_ref-IsDeep string_map_slot copy_map-IsDeep

abbrev pub config : Dict String
config = ("channel", "#costs") ∷ []

abbrev pub services : Dict ℕ
services = ("ec2", 5) ∷ []

-- What is written to the original, and to the copy.
abbrev pub to_original : List (Write SmallCell)
to_original = (0, floats_cell []) ∷ []

abbrev pub to_copy : List (Write SmallCell)
to_copy = (11, strings_cell []) ∷ []
