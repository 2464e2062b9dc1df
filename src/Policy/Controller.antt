-- ===== src/Policy/Controller.antt =====
-- pkg/policy/controller.go: the reconciler that validates policies and records the verdict in their
-- status. `ctrl.Result{}` is always empty and is left out; `now` is `metav1.Now()`.
pub mod Verdict
use eks_financial_orchestrat.Common.{
  String, Bool, true, false, Option, none, some, List, [], ◌∷◌, ◌==◌, if◌then◌else◌,
}
use eks_financial_orchestrat.Common.Float.{Float}
use eks_financial_orchestrat.Common.Result.{Result, ok, err}
use eks_financial_orchestrat.Kube.{KubeClient, ApiError, not_found, other}
use eks_financial_orchestrat.Types.{
  Time, PolicyCondition, FinancialPolicy, policy_phase_active, policy_phase_error,
}
use eks_financial_orchestrat.Policy.Validate.{ValidationError, validate_financial_policy}

-- The loop of `setCondition`: the first condition of the type is overwritten, or one is added.
unfoldable pub set_condition : PolicyCondition → List PolicyCondition → List PolicyCondition
set_condition new [] = new ∷ []
set_condition new (c ∷ cs) =
    let rest = c ∷ set_condition new cs in
    if c.condition_type == new.condition_type then new ∷ cs else rest

abbrev pub condition : Time → String → String → String → PolicyCondition
condition now status reason message = record {
  condition_type = "Valid";
  status = status;
  last_transition_time = now;
  reason = reason;
  message = message;
}

abbrev pub set_verdict :
    {F : Type 0} → FinancialPolicy F → String → PolicyCondition → FinancialPolicy F
set_verdict p phase c =
    let s = p.status in
    record p { status = record s { phase = phase; conditions = set_condition c s.conditions } }

-- The verdict on a policy, by its validation errors; `render` joins their texts.
module _ {F : Type 0} (render : List (ValidationError F) → String) where
  abbrev pub judge : Time → FinancialPolicy F → List (ValidationError F) → FinancialPolicy F
  judge now p [] =
      set_verdict p policy_phase_active (condition now "True" "ValidationPassed" "Policy is valid")
  judge now p (e ∷ es) =
      set_verdict p policy_phase_error (condition now "False" "ValidationFailed" (render (e ∷ es)))

module _ {F S : Type 0} (client : KubeClient F S) (render : List (ValidationError F) → String) where
  abbrev pub write_error : Result ApiError (FinancialPolicy F) × S → Option ApiError × S
  write_error (ok q, s) = (none, s)
  write_error (err e, s) = (some e, s)

  abbrev pub reconcile_found :
      ⦃fl : Float F⦄ → Time → S → Result ApiError (FinancialPolicy F) → Option ApiError × S
  reconcile_found now s (ok p) =
      write_error (client.status_update (judge render now p (validate_financial_policy p)) s)
  reconcile_found now s (err not_found) = (none, s)
  reconcile_found now s (err (other e)) = (some (other e), s)

  -- `PolicyReconciler.Reconcile`
  unfoldable pub reconcile : ⦃fl : Float F⦄ → Time → String → String → S → Option ApiError × S
  reconcile now namespace name s = reconcile_found now s (client.get namespace name s)
