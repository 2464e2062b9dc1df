-- ===== src/Orchestrator.antt =====
-- pkg/orchestrator/controller.go: the reconciler that evaluates a policy's budget. It works on a state
-- `S` of the world through the interfaces of the other packages, each of which may be missing (nil);
-- the cost store is always there. `time.Now` is read once.
mod Tests
pub mod Actions
pub mod Reconcile
pub mod Wiring
use eks_financial_orchestrat.Common.{ℕ, String, Option, List}
use eks_financial_orchestrat.Common.Result.{Result}
use eks_financial_orchestrat.Sql.{QueryError}
use eks_financial_orchestrat.Types.{Time, FinancialPolicy}
use eks_financial_orchestrat.Kube.{KubeClient}
use eks_financial_orchestrat.Collector.Costs.{DailyCostRecord}
use eks_financial_orchestrat.Alerting.{Alert}
use eks_financial_orchestrat.Audit.{AuditLogEntry}
use eks_financial_orchestrat.Instance.{InstanceMixAnalysis}
use eks_financial_orchestrat.Instance.Recommend.{OptimizationRecommendation}
use eks_financial_orchestrat.Instance.Apply.{OptimizationResult}

-- What the orchestrator calls of `InstanceManager`.
pub record Instances (F S : Type 0) : Type 0 where
  pub analyze : S → Result String (InstanceMixAnalysis F)
  pub generate :
      InstanceMixAnalysis F
      → List (FinancialPolicy F)
      → Result String (OptimizationRecommendation F)
  pub apply : OptimizationRecommendation F → S → Result String (OptimizationResult F) × S

pub record OrchestratorReconciler (F S : Type 0) : Type 0 where
  pub client : KubeClient F S
  pub query_cost_records : Time → Time → String → S → Result QueryError (List (DailyCostRecord F))
  pub send_alert : Option (Alert F → S → Option String × S)
  pub write_entry : Option (AuditLogEntry F → S → Option String × S)
  pub instances : Option (Instances F S)

-- What is used of packages fmt and time: the verbs `%d`, `%.1f` and `%.2f`, and `time.Date` for the start
-- of the month of a time.
pub record Library (F : Type 0) : Type 0 where
  pub digits : ℕ → String
  pub one_decimal : F → String
  pub two_decimals : F → String
  pub start_of_month : Time → Time
