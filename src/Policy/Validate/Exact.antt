-- ===== src/Policy/Validate/Exact.antt =====
-- What `ValidateFinancialPolicy` accepts, by a description of valid policies that does not mention
-- the code's tests.
use eks_financial_orchestrat.Common.{
  ℕ, suc, ◌<◌, String, ◌≡◌, ◌≢◌, ◌↔◌, ◌⊎◌, Bool, true, false, not, ◌&&◌, Option, none, some, List,
  [], ◌∷◌, arith, ◌==◌, eq_iff, All, append-eq-nil, append-eq-nil_left, append-eq-nil_right,
  flatten-eq-nil_iff,
}
use eks_financial_orchestrat.Common.Float.{Float, IsOrdered, ◌≼◌, ◌≺◌}
use eks_financial_orchestrat.Types.{
  InstanceMixSpec, AlertingChannelSpec, SilenceWindowSpec, AlertingSpec, FinancialPolicySpec,
  FinancialPolicy,
}
use eks_financial_orchestrat.Policy.Validate.{
  check, less, are_sorted, out_of_percent, check_mix, check_thresholds, check_channels,
  check_windows, check_alerting, checks, not_sorted, validate_financial_policy,
  is_valid_channel_type, is_valid_breach_action, is_valid_mode,
}

abbrev pub OneOf : List String → String → Type 0
OneOf [] s = ⊥
OneOf (t ∷ ts) s = (s ≡ t) ⊎ OneOf ts s

abbrev pub OnSome {ℓ} : {A : Type ℓ} → (A → Type 0) → Option A → Type 0
OnSome P none = Unit
OnSome P (some a) = P a

pub record IsValidAlerting (a : AlertingSpec) : Type 0 where
  pub channels :
      All (λ ch. OneOf ("slack" ∷ "email" ∷ "pagerduty" ∷ "sns" ∷ []) ch.channel_type) a.channels
  pub windows : All (λ w. w.start < w.end) a.silence_windows

module _ {F : Type 0} ⦃fl : Float F⦄ where
  -- Not below 0 and not above 100.
  abbrev pub IsPercent : F → Type 0
  IsPercent x = (¬ (x ≺ fl.of_nat 0)) × (¬ (fl.of_nat 100 ≺ x))

  -- No later item is less than an earlier one.
  abbrev pub IsAscending : List F → Type 0
  IsAscending [] = Unit
  IsAscending (x ∷ xs) = All (λ y. less y x ≡ false) xs × IsAscending xs

  pub record IsValidMix (m : InstanceMixSpec F) : Type 0 where
    pub min_on_demand : IsPercent m.min_on_demand_percent
    pub max_spot : IsPercent m.max_spot_percent

  pub record IsValidSpec (s : FinancialPolicySpec F) : Type 0 where
    pub target_namespace : s.target_namespace ≢ ""
    pub monthly_limit : ¬ (s.budget.monthly_limit ≼ fl.of_nat 0)
    pub breach_action :
        OneOf ("" ∷ "alert" ∷ "throttle" ∷ "block_deployments" ∷ []) s.budget.breach_action
    pub mode : OneOf ("" ∷ "automatic" ∷ "advisory" ∷ []) s.mode
    pub mix : OnSome IsValidMix s.instance_mix
    pub percents : All IsPercent s.budget.alert_thresholds
    pub ascending : IsAscending s.budget.alert_thresholds
    pub alerting : OnSome IsValidAlerting s.alerting

check_iff {ℓ} : {E : Type ℓ} (c : Bool) (e : E) → (check c e ≡ []) ↔ (c ≡ false)
check_iff c e = ground arith

channel_type_iff :
    (t : String)
    → (is_valid_channel_type t ≡ true) ↔ OneOf ("slack" ∷ "email" ∷ "pagerduty" ∷ "sns" ∷ []) t
channel_type_iff t =
    ground (arith, eq_iff t "slack", eq_iff t "email", eq_iff t "pagerduty", eq_iff t "sns")

breach_action_iff :
    (a : String)
    → ((not (a == "") && not (is_valid_breach_action a)) ≡ false)
      ↔ OneOf ("" ∷ "alert" ∷ "throttle" ∷ "block_deployments" ∷ []) a
breach_action_iff a =
    ground (arith, eq_iff a "", eq_iff a "alert", eq_iff a "throttle", eq_iff a "block_deployments")

mode_iff :
    (m : String)
    → ((not (m == "") && not (is_valid_mode m)) ≡ false)
      ↔ OneOf ("" ∷ "automatic" ∷ "advisory" ∷ []) m
mode_iff m = ground (arith, eq_iff m "", eq_iff m "automatic", eq_iff m "advisory")

module _ {F : Type 0} ⦃fl : Float F⦄ where
  IsPercent-iff : (x : F) → (out_of_percent x ≡ false) ↔ IsPercent x
  IsPercent-iff x = ground arith

  check_mix_iff : (m : Option (InstanceMixSpec F)) → (check_mix m ≡ []) ↔ OnSome IsValidMix m
  unfolding check_mix
  check_mix_iff none = ground arith
  check_mix_iff (some m) = ground arith

  check_thresholds_iff : (i : ℕ) (ts : List F) → (check_thresholds i ts ≡ []) ↔ All IsPercent ts
  unfolding check_thresholds
  check_thresholds_iff i [] = ground arith
  check_thresholds_iff i (t ∷ ts) = ground (arith, check_thresholds_iff (suc i) ts)

  check_channels_iff :
      (i : ℕ) (chs : List AlertingChannelSpec)
      → (check_channels {F = F} i chs ≡ [])
        ↔ All (λ ch. OneOf ("slack" ∷ "email" ∷ "pagerduty" ∷ "sns" ∷ []) ch.channel_type) chs
  unfolding check_channels
  check_channels_iff i [] = ground arith
  check_channels_iff i (ch ∷ chs) =
      ground (arith, channel_type_iff ch.channel_type, check_channels_iff (suc i) chs)

  check_windows_iff :
      (i : ℕ) (ws : List SilenceWindowSpec)
      → (check_windows {F = F} i ws ≡ []) ↔ All (λ w. w.start < w.end) ws
  unfolding check_windows
  check_windows_iff i [] = ground arith
  check_windows_iff i (w ∷ ws) = ground (arith, check_windows_iff (suc i) ws)

  check_alerting_iff :
      (a : Option AlertingSpec) → (check_alerting {F = F} a ≡ []) ↔ OnSome IsValidAlerting a
  unfolding check_alerting
  check_alerting_iff none = ground arith
  check_alerting_iff (some a) = (
    λ e. record {
      channels = (check_channels_iff 0 a.channels).0 (
          append-eq-nil_left (check_channels {F = F} 0 a.channels)
            (check_windows 0 a.silence_windows) e);
      windows = (check_windows_iff 0 a.silence_windows).0 (
          append-eq-nil_right (check_channels {F = F} 0 a.channels)
            (check_windows 0 a.silence_windows) e);
    },
    λ v.
        append-eq-nil (check_channels {F = F} 0 a.channels) (check_windows 0 a.silence_windows)
          ((check_channels_iff 0 a.channels).1 v.channels)
          ((check_windows_iff 0 a.silence_windows).1 v.windows),
  )

  module _ (laws : IsOrdered F) where
    open laws use {num_of_le, le_trans, le_total, lt-eq-not-le, num_of_lt, eq_self}

    not_less_trans : (x y z : F) → less y x ≡ false → less z y ≡ false → less z x ≡ false
    not_less_trans x y z p q = ground (
      arith,
      num_of_lt z x,
      eq_self x,
      eq_self y,
      eq_self z,
      lt-eq-not-le y x,
      lt-eq-not-le z y,
      lt-eq-not-le z x,
      le_trans x y z,
    )

    later_not_less :
        (x y : F) (ys : List F)
        → less y x ≡ false
        → All (λ z. less z y ≡ false) ys
        → All (λ z. less z x ≡ false) ys
    later_not_less x y [] p a = tt
    later_not_less x y (z ∷ zs) p (q, qs) = (not_less_trans x y z p q, later_not_less x y zs p qs)

    are_sorted_iff : (ts : List F) → (are_sorted ts ≡ true) ↔ IsAscending ts
    unfolding are_sorted
    are_sorted_iff [] = ground arith
    are_sorted_iff (x ∷ []) = ground arith
    are_sorted_iff (x ∷ y ∷ r) = ground (arith, are_sorted_iff (y ∷ r), later_not_less x y r)

    not_sorted_lem : (ts : List F) → (not_sorted ts ≡ false) ↔ (are_sorted ts ≡ true)
    unfolding are_sorted
    not_sorted_lem [] = ground arith
    not_sorted_lem (x ∷ []) = ground arith
    not_sorted_lem (x ∷ y ∷ r) = ground arith

    All-checks_iff : (s : FinancialPolicySpec F) → All (λ l. l ≡ []) (checks s) ↔ IsValidSpec s
    All-checks_iff s = ground (
      arith,
      eq_iff s.target_namespace "",
      breach_action_iff s.budget.breach_action,
      mode_iff s.mode,
      check_mix_iff s.instance_mix,
      check_thresholds_iff 0 s.budget.alert_thresholds,
      not_sorted_lem s.budget.alert_thresholds,
      are_sorted_iff s.budget.alert_thresholds,
      check_alerting_iff s.alerting,
    )

    -- A policy passes validation exactly when its namespace is not empty, its limit is not at most
    -- 0, its action, mode and channel types are among those allowed (or empty, for the first two),
    -- its percentages are not outside 0 to 100, its thresholds ascend, and its silence windows end
    -- after they start. Floats are ordered as IEEE 754 orders them.
    pub validate_financial_policy-eq-nil_iff :
        (p : FinancialPolicy F) → (validate_financial_policy p ≡ []) ↔ IsValidSpec p.spec
    unfolding validate_financial_policy
    validate_financial_policy-eq-nil_iff p =
        let (none_left, all_nil) = flatten-eq-nil_iff (checks p.spec) in
        let (valid, checked) = All-checks_iff p.spec in
        (λ e. valid (none_left e), λ v. all_nil (checked v))
