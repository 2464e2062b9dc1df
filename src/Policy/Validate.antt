-- ===== src/Policy/Validate.antt =====
-- pkg/policy/validate.go. A `ValidationError` is a field path and a message: here a constructor for
-- each path, with the values that the message prints.

pub mod Exact
use mathlib.Core.List.{flatten}
use eks_financial_orchestrat.Common.{
  ℕ, suc, String, Bool, true, not, ◌&&◌, ◌||◌, Option, none, some, List, [], ◌∷◌, ◌++◌, ltb, ◌==◌,
  if◌then◌else◌, length,
}
use eks_financial_orchestrat.Common.Float.{Float}
use eks_financial_orchestrat.Types.{
  InstanceMixSpec, AlertingChannelSpec, SilenceWindowSpec, AlertingSpec, FinancialPolicySpec,
  FinancialPolicy, breach_action_alert, breach_action_throttle, breach_action_block_deployments,
  policy_mode_automatic, policy_mode_advisory,
}

pub data ValidationError (F : Type 0) : Type 0 where
  target_namespace_empty monthly_limit_not_positive thresholds_not_sorted : ValidationError F
  bad_breach_action bad_mode : String → ValidationError F
  min_on_demand_out_of_range max_spot_out_of_range : F → ValidationError F
  threshold_out_of_range : ℕ → F → ValidationError F
  bad_channel_type : ℕ → String → ValidationError F
  silence_window_not_ordered : ℕ → ValidationError F

-- `validBreachActions[a]`, `validModes[m]` and `validChannelTypes[t]`
abbrev pub is_valid_breach_action : String → Bool
is_valid_breach_action a =
    (a == breach_action_alert)
    || ((a == breach_action_throttle) || (a == breach_action_block_deployments))

abbrev pub is_valid_mode : String → Bool
is_valid_mode m = (m == policy_mode_automatic) || (m == policy_mode_advisory)

abbrev pub is_valid_channel_type : String → Bool
is_valid_channel_type t = (t == "slack") || ((t == "email") || ((t == "pagerduty") || (t == "sns")))

-- `if c { errs = append(errs, e) }`
abbrev pub check {ℓ} : {E : Type ℓ} → Bool → E → List E
check c e = if c then e ∷ [] else []

module _ {F : Type 0} ⦃fl : Float F⦄ where
  -- `x < 0 || x > 100`
  abbrev pub out_of_percent : F → Bool
  out_of_percent x = fl.lt x (fl.of_nat 0) || fl.lt (fl.of_nat 100) x

  -- The order of package sort on floats: NaN stands before every number.
  abbrev pub less : F → F → Bool
  less x y = fl.lt x y || (not (fl.eq x x) && fl.eq y y)

  -- `sort.Float64sAreSorted`
  unfoldable pub are_sorted : List F → Bool
  are_sorted [] = true
  are_sorted (x ∷ []) = true
  are_sorted (x ∷ y ∷ r) = not (less y x) && are_sorted (y ∷ r)

  unfoldable pub check_mix : Option (InstanceMixSpec F) → List (ValidationError F)
  check_mix none = []
  check_mix (some mix) =
      check (out_of_percent mix.min_on_demand_percent)
        (min_on_demand_out_of_range mix.min_on_demand_percent)
      ++ check (out_of_percent mix.max_spot_percent) (max_spot_out_of_range mix.max_spot_percent)

  -- The loops take the index of the first item.
  unfoldable pub check_thresholds : ℕ → List F → List (ValidationError F)
  check_thresholds i [] = []
  check_thresholds i (t ∷ ts) =
      check (out_of_percent t) (threshold_out_of_range i t) ++ check_thresholds (suc i) ts

  unfoldable pub check_channels : ℕ → List AlertingChannelSpec → List (ValidationError F)
  check_channels i [] = []
  check_channels i (ch ∷ chs) =
      check (not (is_valid_channel_type ch.channel_type)) (bad_channel_type i ch.channel_type)
      ++ check_channels (suc i) chs

  unfoldable pub check_windows : ℕ → List SilenceWindowSpec → List (ValidationError F)
  check_windows i [] = []
  check_windows i (w ∷ ws) =
      check (not (ltb w.start w.end)) (silence_window_not_ordered i) ++ check_windows (suc i) ws

  unfoldable pub check_alerting : Option AlertingSpec → List (ValidationError F)
  check_alerting none = []
  check_alerting (some a) = check_channels 0 a.channels ++ check_windows 0 a.silence_windows

  abbrev pub not_sorted : List F → Bool
  not_sorted ts = ltb 1 (length ts) && not (are_sorted ts)

  -- The blocks of the function body, in order; each appends its errors.
  abbrev pub checks : FinancialPolicySpec F → List (List (ValidationError F))
  checks s =
      let action = s.budget.breach_action in
      let thresholds = s.budget.alert_thresholds in
      check (s.target_namespace == "") target_namespace_empty
      ∷ check (fl.le s.budget.monthly_limit (fl.of_nat 0)) monthly_limit_not_positive
      ∷ check (not (action == "") && not (is_valid_breach_action action)) (bad_breach_action action)
      ∷ check (not (s.mode == "") && not (is_valid_mode s.mode)) (bad_mode s.mode)
      ∷ check_mix s.instance_mix
      ∷ check_thresholds 0 thresholds
      ∷ check (not_sorted thresholds) thresholds_not_sorted
      ∷ check_alerting s.alerting
      ∷ []

  -- `ValidateFinancialPolicy`
  unfoldable pub validate_financial_policy : FinancialPolicy F → List (ValidationError F)
  validate_financial_policy p = flatten (checks p.spec)
