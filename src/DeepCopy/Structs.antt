-- ===== src/DeepCopy/Structs.antt =====
-- The structs of api/v1alpha1, with what stands in the place of their references left open: a
-- reference into the heap, or the contents that it leads to. The metadata of Kubernetes are
-- parameters (`O` of an object, `L` of a list), and so are the floating-point numbers, `F`.
use eks_financial_orchestrat.Common.{ℕ, String, Bool}
use eks_financial_orchestrat.Types.{Time}

pub record BudgetSpecOf (F Thresholds : Type 0) : Type 0 where
  pub monthly_limit : F
  pub alert_thresholds : Thresholds
  pub breach_action : String

pub record InstanceMixSpecOf (F Names : Type 0) : Type 0 where
  pub min_on_demand_percent : F
  pub max_spot_percent : F
  pub allowed_instance_types : Names

pub record AlertingChannelSpecOf (Config : Type 0) : Type 0 where
  pub channel_type : String
  pub config : Config

pub record AlertingSpecOf (Channels Windows : Type 0) : Type 0 where
  pub channels : Channels
  pub silence_windows : Windows

pub record FinancialPolicySpecOf (Budget Mix Alerting : Type 0) : Type 0 where
  pub target_namespace : String
  pub budget : Budget
  pub instance_mix : Mix
  pub mode : String
  pub alerting : Alerting
  pub version : ℕ

pub record FinancialPolicyStatusOf (F Evaluated Conditions : Type 0) : Type 0 where
  pub phase : String
  pub current_cost : F
  pub budget_usage_percent : F
  pub last_evaluated : Evaluated
  pub conditions : Conditions

-- `metav1.TypeMeta`
pub record TypeMeta : Type 0 where
  pub kind : String
  pub api_version : String

pub record FinancialPolicyOf (O Spec Status : Type 0) : Type 0 where
  pub type_meta : TypeMeta
  pub object_meta : O
  pub spec : Spec
  pub status : Status

pub record FinancialPolicyListOf (L Items : Type 0) : Type 0 where
  pub type_meta : TypeMeta
  pub list_meta : L
  pub items : Items

pub record CostReportSpecOf (Names : Type 0) : Type 0 where
  pub start_time : Time
  pub end_time : Time
  pub namespaces : Names
  pub teams : Names

pub record NamespaceCostSummaryOf (F ByService : Type 0) : Type 0 where
  pub namespace : String
  pub direct_cost : F
  pub shared_cost : F
  pub total_cost : F
  pub by_service : ByService

pub record TeamCostSummary (F : Type 0) : Type 0 where
  pub team : String
  pub direct_cost : F
  pub indirect_cost : F
  pub total_cost : F

pub record CostReportStatusOf (F Namespaces Teams Generated : Type 0) : Type 0 where
  pub phase : String
  pub total_cost : F
  pub by_namespace : Namespaces
  pub by_team : Teams
  pub generated_at : Generated
  pub message : String

pub record CostReportOf (O Spec Status : Type 0) : Type 0 where
  pub type_meta : TypeMeta
  pub object_meta : O
  pub spec : Spec
  pub status : Status

pub record CostReportListOf (L Items : Type 0) : Type 0 where
  pub type_meta : TypeMeta
  pub list_meta : L
  pub items : Items

pub record OptimizationActionSpecOf (F Names Mix : Type 0) : Type 0 where
  pub action_type : String
  pub policy_ref : String
  pub target_namespace : String
  pub reason : String
  pub expected_savings : F
  pub affected_nodes : Names
  pub current_mix : Mix
  pub recommended_mix : Mix
  pub requires_approval : Bool

pub record OptimizationActionStatusOf (F Applied : Type 0) : Type 0 where
  pub result : String
  pub applied_at : Applied
  pub approved_by : String
  pub actual_savings : F
  pub message : String
  pub rollback_reason : String

pub record OptimizationActionOf (O Spec Status : Type 0) : Type 0 where
  pub type_meta : TypeMeta
  pub object_meta : O
  pub spec : Spec
  pub status : Status

pub record OptimizationActionListOf (L Items : Type 0) : Type 0 where
  pub type_meta : TypeMeta
  pub list_meta : L
  pub items : Items
