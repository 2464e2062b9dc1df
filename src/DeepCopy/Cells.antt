-- ===== src/DeepCopy/Cells.antt =====
-- The cells of the heap: the structs, arrays and maps of the resources of api/v1alpha1, with a slot
-- for each of these types.
use eks_financial_orchestrat.Common.{refl, String, List, some, none}
use eks_financial_orchestrat.Common.Dict.{Dict}
use eks_financial_orchestrat.Types.{Time, SilenceWindowSpec, PolicyCondition}
use eks_financial_orchestrat.DeepCopy.Structs.{
  BudgetSpecOf, InstanceMixSpecOf, AlertingChannelSpecOf, AlertingSpecOf, FinancialPolicySpecOf,
  FinancialPolicyStatusOf, FinancialPolicyOf, FinancialPolicyListOf, CostReportSpecOf,
  NamespaceCostSummaryOf, TeamCostSummary, CostReportStatusOf, CostReportOf, CostReportListOf,
  OptimizationActionSpecOf, OptimizationActionStatusOf, OptimizationActionOf,
  OptimizationActionListOf,
}
use eks_financial_orchestrat.Memory.{Ref, Slot, slot_of}

abbrev pub PolicyInMemory : Type 0 → Type 0 → Type 0
PolicyInMemory F O =
    FinancialPolicyOf O (FinancialPolicySpecOf (BudgetSpecOf F Ref) Ref Ref)
      (FinancialPolicyStatusOf F Ref Ref)

abbrev pub ReportInMemory : Type 0 → Type 0 → Type 0
ReportInMemory F O = CostReportOf O (CostReportSpecOf Ref) (CostReportStatusOf F Ref Ref Ref)

abbrev pub ActionInMemory : Type 0 → Type 0 → Type 0
ActionInMemory F O =
    OptimizationActionOf O (OptimizationActionSpecOf F Ref Ref) (OptimizationActionStatusOf F Ref)

pub data Cell (F O L : Type 0) : Type 0 where
  floats_cell : List F → Cell F O L
  strings_cell : List String → Cell F O L
  string_map_cell : Dict String → Cell F O L
  float_map_cell : Dict F → Cell F O L
  time_cell : Time → Cell F O L
  budget_spec_cell : BudgetSpecOf F Ref → Cell F O L
  instance_mix_spec_cell : InstanceMixSpecOf F Ref → Cell F O L
  alerting_channel_spec_cell : AlertingChannelSpecOf Ref → Cell F O L
  silence_window_spec_cell : SilenceWindowSpec → Cell F O L
  alerting_spec_cell : AlertingSpecOf Ref Ref → Cell F O L
  policy_condition_cell : PolicyCondition → Cell F O L
  financial_policy_spec_cell : FinancialPolicySpecOf (BudgetSpecOf F Ref) Ref Ref → Cell F O L
  financial_policy_status_cell : FinancialPolicyStatusOf F Ref Ref → Cell F O L
  financial_policy_cell : PolicyInMemory F O → Cell F O L
  financial_policy_list_cell : FinancialPolicyListOf L Ref → Cell F O L
  cost_report_spec_cell : CostReportSpecOf Ref → Cell F O L
  namespace_cost_summary_cell : NamespaceCostSummaryOf F Ref → Cell F O L
  team_cost_summary_cell : TeamCostSummary F → Cell F O L
  cost_report_status_cell : CostReportStatusOf F Ref Ref Ref → Cell F O L
  cost_report_cell : ReportInMemory F O → Cell F O L
  cost_report_list_cell : CostReportListOf L Ref → Cell F O L
  optimization_action_spec_cell : OptimizationActionSpecOf F Ref Ref → Cell F O L
  optimization_action_status_cell : OptimizationActionStatusOf F Ref → Cell F O L
  optimization_action_cell : ActionInMemory F O → Cell F O L
  optimization_action_list_cell : OptimizationActionListOf L Ref → Cell F O L
  alerting_channels_cell : List (AlertingChannelSpecOf Ref) → Cell F O L
  silence_windows_cell : List SilenceWindowSpec → Cell F O L
  policy_conditions_cell : List PolicyCondition → Cell F O L
  financial_policies_cell : List (PolicyInMemory F O) → Cell F O L
  namespace_cost_summaries_cell : List (NamespaceCostSummaryOf F Ref) → Cell F O L
  team_cost_summaries_cell : List (TeamCostSummary F) → Cell F O L
  cost_reports_cell : List (ReportInMemory F O) → Cell F O L
  optimization_actions_cell : List (ActionInMemory F O) → Cell F O L

module _ {F O L : Type 0} where
  abbrev pub floats_slot : Slot (Cell F O L) (List F)
  floats_slot = slot_of floats_cell (λ c. elim c [ floats_cell a ↦ some a | _ ↦ none ]) λ a. refl

  abbrev pub strings_slot : Slot (Cell F O L) (List String)
  strings_slot = slot_of strings_cell (λ c. elim c [ strings_cell a ↦ some a | _ ↦ none ]) λ a. refl

  abbrev pub string_map_slot : Slot (Cell F O L) (Dict String)
  string_map_slot =
      slot_of string_map_cell (λ c. elim c [ string_map_cell a ↦ some a | _ ↦ none ]) λ a. refl

  abbrev pub float_map_slot : Slot (Cell F O L) (Dict F)
  float_map_slot =
      slot_of float_map_cell (λ c. elim c [ float_map_cell a ↦ some a | _ ↦ none ]) λ a. refl

  abbrev pub time_slot : Slot (Cell F O L) Time
  time_slot = slot_of time_cell (λ c. elim c [ time_cell a ↦ some a | _ ↦ none ]) λ a. refl

  abbrev pub budget_spec_slot : Slot (Cell F O L) (BudgetSpecOf F Ref)
  budget_spec_slot =
      slot_of budget_spec_cell (λ c. elim c [ budget_spec_cell a ↦ some a | _ ↦ none ]) λ a. refl

  abbrev pub instance_mix_spec_slot : Slot (Cell F O L) (InstanceMixSpecOf F Ref)
  instance_mix_spec_slot =
      slot_of instance_mix_spec_cell (λ c. elim c [ instance_mix_spec_cell a ↦ some a | _ ↦ none ])
        λ a. refl

  abbrev pub alerting_channel_spec_slot : Slot (Cell F O L) (AlertingChannelSpecOf Ref)
  alerting_channel_spec_slot =
      slot_of alerting_channel_spec_cell
        (λ c. elim c [ alerting_channel_spec_cell a ↦ some a | _ ↦ none ]) λ a. refl

  abbrev pub silence_window_spec_slot : Slot (Cell F O L) SilenceWindowSpec
  silence_window_spec_slot =
      slot_of silence_window_spec_cell
        (λ c. elim c [ silence_window_spec_cell a ↦ some a | _ ↦ none ]) λ a. refl

  abbrev pub alerting_spec_slot : Slot (Cell F O L) (AlertingSpecOf Ref Ref)
  alerting_spec_slot =
      slot_of alerting_spec_cell (λ c. elim c [ alerting_spec_cell a ↦ some a | _ ↦ none ])
        λ a. refl

  abbrev pub policy_condition_slot : Slot (Cell F O L) PolicyCondition
  policy_condition_slot =
      slot_of policy_condition_cell (λ c. elim c [ policy_condition_cell a ↦ some a | _ ↦ none ])
        λ a. refl

  abbrev pub financial_policy_spec_slot :
      Slot (Cell F O L) (FinancialPolicySpecOf (BudgetSpecOf F Ref) Ref Ref)
  financial_policy_spec_slot =
      slot_of financial_policy_spec_cell
        (λ c. elim c [ financial_policy_spec_cell a ↦ some a | _ ↦ none ]) λ a. refl

  abbrev pub financial_policy_status_slot : Slot (Cell F O L) (FinancialPolicyStatusOf F Ref Ref)
  financial_policy_status_slot =
      slot_of financial_policy_status_cell
        (λ c. elim c [ financial_policy_status_cell a ↦ some a | _ ↦ none ]) λ a. refl

  abbrev pub financial_policy_slot : Slot (Cell F O L) (PolicyInMemory F O)
  financial_policy_slot =
      slot_of financial_policy_cell (λ c. elim c [ financial_policy_cell a ↦ some a | _ ↦ none ])
        λ a. refl

  abbrev pub financial_policy_list_slot : Slot (Cell F O L) (FinancialPolicyListOf L Ref)
  financial_policy_list_slot =
      slot_of financial_policy_list_cell
        (λ c. elim c [ financial_policy_list_cell a ↦ some a | _ ↦ none ]) λ a. refl

  abbrev pub cost_report_spec_slot : Slot (Cell F O L) (CostReportSpecOf Ref)
  cost_report_spec_slot =
      slot_of cost_report_spec_cell (λ c. elim c [ cost_report_spec_cell a ↦ some a | _ ↦ none ])
        λ a. refl

  abbrev pub namespace_cost_summary_slot : Slot (Cell F O L) (NamespaceCostSummaryOf F Ref)
  namespace_cost_summary_slot =
      slot_of namespace_cost_summary_cell
        (λ c. elim c [ namespace_cost_summary_cell a ↦ some a | _ ↦ none ]) λ a. refl

  abbrev pub team_cost_summary_slot : Slot (Cell F O L) (TeamCostSummary F)
  team_cost_summary_slot =
      slot_of team_cost_summary_cell (λ c. elim c [ team_cost_summary_cell a ↦ some a | _ ↦ none ])
        λ a. refl

  abbrev pub cost_report_status_slot : Slot (Cell F O L) (CostReportStatusOf F Ref Ref Ref)
  cost_report_status_slot =
      slot_of cost_report_status_cell
        (λ c. elim c [ cost_report_status_cell a ↦ some a | _ ↦ none ]) λ a. refl

  abbrev pub cost_report_slot : Slot (Cell F O L) (ReportInMemory F O)
  cost_report_slot =
      slot_of cost_report_cell (λ c. elim c [ cost_report_cell a ↦ some a | _ ↦ none ]) λ a. refl

  abbrev pub cost_report_list_slot : Slot (Cell F O L) (CostReportListOf L Ref)
  cost_report_list_slot =
      slot_of cost_report_list_cell (λ c. elim c [ cost_report_list_cell a ↦ some a | _ ↦ none ])
        λ a. refl

  abbrev pub optimization_action_spec_slot : Slot (Cell F O L) (OptimizationActionSpecOf F Ref Ref)
  optimization_action_spec_slot =
      slot_of optimization_action_spec_cell
        (λ c. elim c [ optimization_action_spec_cell a ↦ some a | _ ↦ none ]) λ a. refl

  abbrev pub optimization_action_status_slot : Slot (Cell F O L) (OptimizationActionStatusOf F Ref)
  optimization_action_status_slot =
      slot_of optimization_action_status_cell
        (λ c. elim c [ optimization_action_status_cell a ↦ some a | _ ↦ none ]) λ a. refl

  abbrev pub optimization_action_slot : Slot (Cell F O L) (ActionInMemory F O)
  optimization_action_slot =
      slot_of optimization_action_cell
        (λ c. elim c [ optimization_action_cell a ↦ some a | _ ↦ none ]) λ a. refl

  abbrev pub optimization_action_list_slot : Slot (Cell F O L) (OptimizationActionListOf L Ref)
  optimization_action_list_slot =
      slot_of optimization_action_list_cell
        (λ c. elim c [ optimization_action_list_cell a ↦ some a | _ ↦ none ]) λ a. refl

  abbrev pub alerting_channels_slot : Slot (Cell F O L) (List (AlertingChannelSpecOf Ref))
  alerting_channels_slot =
      slot_of alerting_channels_cell (λ c. elim c [ alerting_channels_cell a ↦ some a | _ ↦ none ])
        λ a. refl

  abbrev pub silence_windows_slot : Slot (Cell F O L) (List SilenceWindowSpec)
  silence_windows_slot =
      slot_of silence_windows_cell (λ c. elim c [ silence_windows_cell a ↦ some a | _ ↦ none ])
        λ a. refl

  abbrev pub policy_conditions_slot : Slot (Cell F O L) (List PolicyCondition)
  policy_conditions_slot =
      slot_of policy_conditions_cell (λ c. elim c [ policy_conditions_cell a ↦ some a | _ ↦ none ])
        λ a. refl

  abbrev pub financial_policies_slot : Slot (Cell F O L) (List (PolicyInMemory F O))
  financial_policies_slot =
      slot_of financial_policies_cell
        (λ c. elim c [ financial_policies_cell a ↦ some a | _ ↦ none ]) λ a. refl

  abbrev pub namespace_cost_summaries_slot : Slot (Cell F O L) (List (NamespaceCostSummaryOf F Ref))
  namespace_cost_summaries_slot =
      slot_of namespace_cost_summaries_cell
        (λ c. elim c [ namespace_cost_summaries_cell a ↦ some a | _ ↦ none ]) λ a. refl

  abbrev pub team_cost_summaries_slot : Slot (Cell F O L) (List (TeamCostSummary F))
  team_cost_summaries_slot =
      slot_of team_cost_summaries_cell
        (λ c. elim c [ team_cost_summaries_cell a ↦ some a | _ ↦ none ]) λ a. refl

  abbrev pub cost_reports_slot : Slot (Cell F O L) (List (ReportInMemory F O))
  cost_reports_slot =
      slot_of cost_reports_cell (λ c. elim c [ cost_reports_cell a ↦ some a | _ ↦ none ]) λ a. refl

  abbrev pub optimization_actions_slot : Slot (Cell F O L) (List (ActionInMemory F O))
  optimization_actions_slot =
      slot_of optimization_actions_cell
        (λ c. elim c [ optimization_actions_cell a ↦ some a | _ ↦ none ]) λ a. refl
