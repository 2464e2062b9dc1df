-- ===== src/DeepCopy/Trees.antt =====
-- What is seen of the resources: the structs with the contents of each reference in its place, where
-- `none` is nil. `P` is what is seen of the metadata of an object, `Q` of those of a list.
use eks_financial_orchestrat.Common.{String, Option, List}
use eks_financial_orchestrat.Types.{Time, SilenceWindowSpec, PolicyCondition}
use eks_financial_orchestrat.DeepCopy.Structs.{
  BudgetSpecOf, InstanceMixSpecOf, AlertingChannelSpecOf, AlertingSpecOf, FinancialPolicySpecOf,
  FinancialPolicyStatusOf, FinancialPolicyOf, FinancialPolicyListOf, CostReportSpecOf,
  NamespaceCostSummaryOf, TeamCostSummary, CostReportStatusOf, CostReportOf, CostReportListOf,
  OptimizationActionSpecOf, OptimizationActionStatusOf, OptimizationActionOf,
  OptimizationActionListOf,
}

abbrev pub BudgetTree : Type 0 → Type 0
BudgetTree F = BudgetSpecOf F (Option (List F))

abbrev pub MixTree : Type 0 → Type 0
MixTree F = InstanceMixSpecOf F (Option (List String))

abbrev pub ChannelTree : Type 0
ChannelTree = AlertingChannelSpecOf (Option (String → Option String))

abbrev pub AlertingTree : Type 0
AlertingTree = AlertingSpecOf (Option (List ChannelTree)) (Option (List SilenceWindowSpec))

abbrev pub PolicySpecTree : Type 0 → Type 0
PolicySpecTree F = FinancialPolicySpecOf (BudgetTree F) (Option (MixTree F)) (Option AlertingTree)

abbrev pub PolicyStatusTree : Type 0 → Type 0
PolicyStatusTree F = FinancialPolicyStatusOf F (Option Time) (Option (List PolicyCondition))

abbrev pub PolicyTree : Type 0 → Type 0 → Type 0
PolicyTree F P = FinancialPolicyOf P (PolicySpecTree F) (PolicyStatusTree F)

abbrev pub PolicyListTree : Type 0 → Type 0 → Type 0 → Type 0
PolicyListTree F P Q = FinancialPolicyListOf Q (Option (List (PolicyTree F P)))

abbrev pub ReportSpecTree : Type 0
ReportSpecTree = CostReportSpecOf (Option (List String))

abbrev pub NamespaceTree : Type 0 → Type 0
NamespaceTree F = NamespaceCostSummaryOf F (Option (String → Option F))

abbrev pub ReportStatusTree : Type 0 → Type 0
ReportStatusTree F =
    CostReportStatusOf F (Option (List (NamespaceTree F))) (Option (List (TeamCostSummary F)))
      (Option Time)

abbrev pub ReportTree : Type 0 → Type 0 → Type 0
ReportTree F P = CostReportOf P ReportSpecTree (ReportStatusTree F)

abbrev pub ReportListTree : Type 0 → Type 0 → Type 0 → Type 0
ReportListTree F P Q = CostReportListOf Q (Option (List (ReportTree F P)))

abbrev pub ActionSpecTree : Type 0 → Type 0
ActionSpecTree F = OptimizationActionSpecOf F (Option (List String)) (Option (String → Option F))

abbrev pub ActionStatusTree : Type 0 → Type 0
ActionStatusTree F = OptimizationActionStatusOf F (Option Time)

abbrev pub ActionTree : Type 0 → Type 0 → Type 0
ActionTree F P = OptimizationActionOf P (ActionSpecTree F) (ActionStatusTree F)

abbrev pub ActionListTree : Type 0 → Type 0 → Type 0 → Type 0
ActionListTree F P Q = OptimizationActionListOf Q (Option (List (ActionTree F P)))
