-- ===== src/Policy/Tests.antt =====
-- Runs of the policy manager and of its reconciler on a server that holds one policy.
mod Histories
use eks_financial_orchestrat.Common.{
  ℕ, zero, suc, ◌+◌, String, Bool, true, false, ◌&&◌, ◌≡◌, refl, sym, ap, subst, ◌∙◌, Bool-cases,
  nat_eq, nat_eq_iff, ◌≢◌, inl, inr, ◌⊎◌, ◌↔◌, Option, none, some, List, [], ◌∷◌, ◌++◌, arith, ◌==◌,
  eq_iff, if◌then◌else◌, All, drop, length, ◌-◌,
}
use eks_financial_orchestrat.Common.Fixed.{Fixed, whole, fixed_float, Fixed-IsOrdered}
use eks_financial_orchestrat.Common.Int.{ℤ}
use eks_financial_orchestrat.Common.Result.{Result, ok, err}
use eks_financial_orchestrat.Kube.{
  KubeClient, IsApiServer, ApiError, not_found, other, defaulted, SameMeta,
}
use eks_financial_orchestrat.Types.{
  BudgetSpec, InstanceMixSpec, AlertingChannelSpec, SilenceWindowSpec, AlertingSpec, annotations_of,
  FinancialPolicySpec, PolicyCondition, FinancialPolicyStatus, FinancialPolicy,
}
use mathlib.Core.List.{flatten}
use eks_financial_orchestrat.Common.Dict.{get, put, alter}
use eks_financial_orchestrat.Policy.Validate.{
  ValidationError, validate_financial_policy, check_mix, check_thresholds, are_sorted,
  check_alerting, check_channels, check_windows,
}
use eks_financial_orchestrat.Policy.Manager.{
  PolicyVersion, HistoryCodec, version_history_annotation, apply_policy, rollback_policy,
  parse_version_history, find_policy_by_name, list_policies, roll_back, append_version_history,
}
use eks_financial_orchestrat.Policy.Manager.History.{IsCodec, IsVersioned}
use eks_financial_orchestrat.Policy.Validate.Exact.{
  IsValidSpec, validate_financial_policy-eq-nil_iff, OneOf,
}
use eks_financial_orchestrat.Policy.Manager.Apply.{
  next_version, apply_policy_refuses, apply_policy-IsVersioned,
}
use eks_financial_orchestrat.Policy.Manager.Rollback.{IsRolledBack, rollback_policy-IsRolledBack}
use eks_financial_orchestrat.Policy.Manager.Undo.{rollback_policy-apply_policy}
use eks_financial_orchestrat.Policy.Manager.Queries.{
  IsAscending, Picks, get_policy_history-perm, get_policy_history-IsVersioned,
  get_active_policy_lem,
}
use eks_financial_orchestrat.Policy.Controller.{reconcile, set_condition, condition}
use eks_financial_orchestrat.Policy.Controller.Verdict.{
  HasVerdict, condition_of, condition_of-set_condition, reconcile-HasVerdict,
}
use eks_financial_orchestrat.Kube.Single.{
  Policy, Slot, is_at, keep, server_get, server_list, accepted, server_create, server_update,
  with_status, server_status, server, is_at_iff, get_self, own_meta, ok_inj, stored_as,
  create_stores_lem, update_lem, status_lem, list_lem, get_lem, server-IsApiServer,
}
use eks_financial_orchestrat.Policy.Tests.Histories.{
  nat_discrete, string_discrete, History, history_discrete, budget, spec, first, second, encode,
  decode, codec, encode-decode, codec-IsCodec,
}
use mathlib.Core.List.{Perm}
use eks_financial_orchestrat.Policy.Manager.{
  current_version, set_version, validation_failed, get_policy_history, get_active_policy,
}
use eks_financial_orchestrat.Policy.Manager.History.{IsRun, append_version_history-eq_ok}
use eks_financial_orchestrat.Policy.Manager.{set_history, trim}

abbrev status : FinancialPolicyStatus Fixed
status = record {
  phase = "Active";
  current_cost = whole 0;
  budget_usage_percent = whole 0;
  last_evaluated = none;
  conditions = [];
}

abbrev policy : FinancialPolicySpec Fixed → Option String → Policy
policy s text = record {
  name = "budget";
  namespace = "finops";
  annotations = elim text [ none ↦ none | some t ↦ some ((version_history_annotation, t) ∷ []) ];
  resource_version = "";
  spec = s;
  status = status;
}

encodes_one :
    (a : Dec (first ∷ [] ≡ [])) (b : Dec (first ∷ [] ≡ first ∷ []))
    (c : Dec (first ∷ [] ≡ first ∷ second ∷ []))
    → encode (first ∷ []) a b c ≡ ok "one"
encodes_one (yes a) b c = cc
encodes_one (no a) (yes b) c = refl
encodes_one (no a) (no b) c = absurd (b refl)

encodes_two :
    (a : Dec (first ∷ second ∷ [] ≡ [])) (b : Dec (first ∷ second ∷ [] ≡ first ∷ []))
    (c : Dec (first ∷ second ∷ [] ≡ first ∷ second ∷ []))
    → encode (first ∷ second ∷ []) a b c ≡ ok "two"
encodes_two (yes a) b c = cc
encodes_two (no a) (yes b) c = cc
encodes_two (no a) (no b) (yes c) = refl
encodes_two (no a) (no b) (no c) = absurd (c refl)

marshals_one : codec.marshal (first ∷ []) ≡ ok "one"
marshals_one = encodes_one (history_discrete _ _) (history_discrete _ _) (history_discrete _ _)

marshals_two : codec.marshal (first ∷ second ∷ []) ≡ ok "two"
marshals_two = encodes_two (history_discrete _ _) (history_discrete _ _) (history_discrete _ _)

-- The policy in its first, second and third version.
abbrev p1 : Policy
p1 = policy (spec 100 1) (some "none")

abbrev p2 : Policy
p2 = policy (spec 200 2) (some "one")

abbrev p3 : Policy
p3 = policy (spec 100 3) (some "two")

archives_one : append_version_history codec 7 p1 ≡ ok (policy (spec 100 1) (some "one"))
unfolding append_version_history parse_version_history get put alter
archives_one = rw marshals_one

archives_two : append_version_history codec 8 p2 ≡ ok (policy (spec 200 2) (some "two"))
unfolding append_version_history parse_version_history get put alter
archives_two = rw marshals_two

apply_run : apply_policy server codec 7 (policy (spec 200 0) none) (some p1) ≡ (none, some p2)
unfolding apply_policy validate_financial_policy check_mix check_thresholds are_sorted
    check_alerting check_channels check_windows flatten get put alter
apply_run = rw archives_one

finds_p2 : find_policy_by_name server "budget" (some p2) ≡ ok p2
unfolding find_policy_by_name list_policies
finds_p2 = refl

parses_p2 : parse_version_history codec p2 ≡ ok (first ∷ [])
unfolding parse_version_history get
parses_p2 = refl

roll_back_run : rollback_policy server codec 8 "budget" 1 (some p2) ≡ (none, some p3)
unfolding rollback_policy roll_back
roll_back_run = rw (finds_p2, rollback_policy) (rw (parses_p2, archives_two))

-- Without a phase on the server, the phase that the code sets is stored.
abbrev in_phase : String → Policy → Policy
in_phase phase p = let s = p.status in record p { status = record s { phase = phase } }

finds_without_phase :
    find_policy_by_name server "budget" (some (in_phase "" p2)) ≡ ok (in_phase "" p2)
unfolding find_policy_by_name list_policies
finds_without_phase = refl

archives_without_phase :
    append_version_history codec 8 (in_phase "" p2)
    ≡ ok (in_phase "" (policy (spec 200 2) (some "two")))
unfolding append_version_history parse_version_history get put alter
archives_without_phase = rw marshals_two

parses_without_phase : parse_version_history codec (in_phase "" p2) ≡ ok (first ∷ [])
unfolding parse_version_history get
parses_without_phase = refl

roll_back_without_phase :
    rollback_policy server codec 8 "budget" 1 (some (in_phase "" p2))
    ≡ (none, some (in_phase "RolledBack" p3))
unfolding rollback_policy roll_back
roll_back_without_phase =
    rw (finds_without_phase, rollback_policy) (rw (parses_without_phase, archives_without_phase))

p1-IsVersioned : IsVersioned codec p1
unfolding parse_version_history get
p1-IsVersioned = record {
  history = [];
  first = 1;
  parsed = refl;
  run = refl;
  bounded = omega arith;
}

p2-IsVersioned : IsVersioned codec p2
p2-IsVersioned = record {
  history = first ∷ [];
  first = 1;
  parsed = parses_p2;
  run = (refl, refl, refl);
  bounded = omega arith;
}

validate_financial_policy-eq-nil_iff_example :
    (validate_financial_policy p2 ≡ []) ↔ IsValidSpec (spec 200 2)
validate_financial_policy-eq-nil_iff_example =
    validate_financial_policy-eq-nil_iff Fixed-IsOrdered p2

-- No budget, so not valid.
zero_budget-not-valid : ¬ IsValidSpec (spec 0 1)
zero_budget-not-valid = λ v. v.monthly_limit refl

refuses_zero_budget :
    (errs : List (ValidationError Fixed)) × (errs ≢ [])
    × (apply_policy server codec 7 (policy (spec 0 1) none) (some p1)
        ≡ (some (validation_failed errs), some p1))
refuses_zero_budget =
    apply_policy_refuses server codec Fixed-IsOrdered 7 (policy (spec 0 1) none) (some p1)
      zero_budget-not-valid

stored-IsVersioned :
    (old : Policy) → server_get "finops" "budget" (some p1) ≡ ok old → IsVersioned codec old
stored-IsVersioned old e = subst (IsVersioned codec) (ok_inj e) p1-IsVersioned

apply_policy-IsVersioned_example :
    (q : Policy) × (server_get "finops" "budget" (some p2) ≡ ok q)
    × (q.spec ≡ spec 200 2)
    × IsVersioned codec q
apply_policy-IsVersioned_example =
    apply_policy-IsVersioned server codec server-IsApiServer codec-IsCodec 7
      (policy (spec 200 0) none) (some p1) (some p2) stored-IsVersioned apply_run

append_version_history-eq_ok_example :
    (h : List (PolicyVersion Fixed)) × (parse_version_history codec p2 ≡ ok h)
    × (policy (spec 200 2) (some "two")
        ≡ record p2 { annotations = (policy (spec 200 2) (some "two")).annotations })
    × ((k : String)
        → k ≢ "finops.eks.io/version-history"
        → get k (annotations_of (policy (spec 200 2) (some "two"))) ≡ get k (annotations_of p2))
    × (parse_version_history codec (policy (spec 200 2) (some "two"))
        ≡ ok (drop (length (h ++ (second ∷ [])) - 10) (h ++ (second ∷ []))))
append_version_history-eq_ok_example =
    append_version_history-eq_ok codec codec-IsCodec 8 p2 (policy (spec 200 2) (some "two"))
      archives_two

rollback_policy-IsRolledBack_example : (new : Policy) × IsRolledBack server codec 1 p2 new (some p3)
rollback_policy-IsRolledBack_example =
    rollback_policy-IsRolledBack server codec server-IsApiServer codec-IsCodec 8 "budget" 1 p2
      (some p2) (some p3) finds_p2 p2-IsVersioned roll_back_run

rollback_policy-apply_policy_example :
    (new : Policy) × (server_get "finops" "budget" (some p3) ≡ ok new)
    × (new.spec ≡ spec 100 3)
    × IsVersioned codec new
rollback_policy-apply_policy_example =
    rollback_policy-apply_policy server codec server-IsApiServer codec-IsCodec 7 8
      (policy (spec 200 0) none) p1 p2 (some p1) (some p2) (some p3) refl p1-IsVersioned apply_run
      finds_p2 refl roll_back_run

get_policy_history-perm_example :
    (r : List (PolicyVersion Fixed)) × (get_policy_history server codec 8 "budget" (some p2) ≡ ok r)
    × IsAscending r
    × Perm r (first ∷ second ∷ [])
get_policy_history-perm_example =
    get_policy_history-perm server codec 8 "budget" (some p2) p2 (first ∷ []) finds_p2 parses_p2

get_policy_history_in_order :
    (get_policy_history server codec 8 "budget" (some p2)
      ≡ ok (p2-IsVersioned.history ++ (second ∷ [])))
    × IsRun p2-IsVersioned.first (p2-IsVersioned.history ++ (second ∷ [])) 3
get_policy_history_in_order =
    get_policy_history-IsVersioned server codec 8 "budget" (some p2) p2 finds_p2 p2-IsVersioned

one_policy_found :
    (r : Option Policy) × (get_active_policy server "finops" (some p2) ≡ ok r) × Picks (p2 ∷ []) r
one_policy_found = get_active_policy_lem server codec "finops" (some p2) (p2 ∷ []) refl

abbrev no_text : List (ValidationError Fixed) → String
no_text _ = ""

condition_set :
    condition_of "Valid" (set_condition (condition 9 "True" "ValidationPassed" "") [])
    ≡ some (condition 9 "True" "ValidationPassed" "")
condition_set = condition_of-set_condition "Valid" (condition 9 "True" "ValidationPassed" "") []

abbrev p2' : Policy
p2' =
    let s = p2.status in
    record p2 {
      status = record s {
        conditions = condition 9 "True" "ValidationPassed" "Policy is valid" ∷ [];
      };
    }

reconcile_run : reconcile server no_text 9 "finops" "budget" (some p2) ≡ (none, some p2')
unfolding reconcile validate_financial_policy check_mix check_thresholds are_sorted check_alerting
    check_channels check_windows flatten set_condition
reconcile_run = refl

reconcile-HasVerdict_example :
    (q : Policy) × (server_get "finops" "budget" (some p2') ≡ ok q)
    × SameMeta p2 q
    × (q.spec ≡ spec 200 2)
    × ((IsValidSpec (spec 200 2) × HasVerdict q.status "Active" "True")
        ⊎ ((¬ IsValidSpec (spec 200 2)) × HasVerdict q.status "Error" "False"))
reconcile-HasVerdict_example =
    reconcile-HasVerdict server no_text server-IsApiServer Fixed-IsOrdered 9 "finops" "budget"
      (some p2) (some p2') p2 refl reconcile_run
