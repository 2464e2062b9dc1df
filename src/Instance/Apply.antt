-- ===== src/Instance/Apply.antt =====
-- pkg/instance/manager.go: `ApplyRecommendation`, which is a simulation. The id and the reason of a
-- recommendation are arguments; `write_entry` is that of the audit writer, where there is one.
use eks_financial_orchestrat.Common.{String, Bool, true, Option, none, some, [], ◌∷◌}
use eks_financial_orchestrat.Common.Result.{Result, ok, err}
use eks_financial_orchestrat.Types.{Time}
use eks_financial_orchestrat.Audit.{AuditLogEntry, nodes, mix}
use eks_financial_orchestrat.Instance.Recommend.{OptimizationRecommendation}

pub record OptimizationResult (F : Type 0) : Type 0 where
  pub recommendation_id : String
  pub applied : Bool
  pub timestamp : Time
  pub actual_savings : F
  pub message : String

module _ {F : Type 0} where
  abbrev pub apply_entry : Time → String → String → OptimizationRecommendation F → AuditLogEntry F
  apply_entry now id reason rec = record {
    id = "";
    timestamp = now;
    actor = "system";
    action = "optimization_apply";
    resource_type = "instance_mix";
    resource_name = id;
    namespace = "";
    details =
        ("affected_nodes", nodes rec.affected_nodes)
        ∷ ("recommended_mix", mix rec.recommended_mix)
        ∷ ("current_mix", mix rec.current_mix)
        ∷ [];
    reason = reason;
    expected_savings = rec.expected_savings;
    result = "success";
  }

  -- An entry for the audit log, where there is one; its error is only logged.
  abbrev pub audit :
      {S : Type 0} → Option (AuditLogEntry F → S → Option String × S) → AuditLogEntry F → S → S
  audit none e s = s
  audit (some write_entry) e s = (write_entry e s).1

  abbrev pub applied_result : Time → String → OptimizationRecommendation F → OptimizationResult F
  applied_result now id rec = record {
    recommendation_id = id;
    applied = true;
    timestamp = now;
    actual_savings = rec.expected_savings;
    message = "recommendation applied successfully (simulation)";
  }

  -- `ApplyRecommendation`
  unfoldable pub apply_recommendation :
      {S : Type 0}
      → Option (AuditLogEntry F → S → Option String × S)
      → Time
      → String
      → String
      → Option (OptimizationRecommendation F)
      → S
      → Result String (OptimizationResult F) × S
  apply_recommendation writer now id reason none s = (err "recommendation must not be nil", s)
  apply_recommendation writer now id reason (some rec) s =
      (ok (applied_result now id rec), audit writer (apply_entry now id reason rec) s)
