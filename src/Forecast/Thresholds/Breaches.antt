-- ===== src/Forecast/Thresholds/Breaches.antt =====
-- pkg/forecast/forecaster.go: which breaches `CheckThresholds` reports.
use eks_financial_orchestrat.Common.{
  ◌≡◌, refl, ◌↔◌, ◌⊎◌, inl, inr, false, Bool-cases, Option, none, some, List, [], ◌∷◌, ◌++◌, Any,
  arith,
}
use eks_financial_orchestrat.Common.Float.{Float, ◌≺◌, ◌⊗◌, ◌⊘◌}
use eks_financial_orchestrat.Types.{FinancialPolicy}
use eks_financial_orchestrat.Forecast.{ForecastPeriod, CostForecast, ThresholdBreach}
use eks_financial_orchestrat.Forecast.Thresholds.{
  threshold_value, over_thresholds, over_periods, policy_breaches, over_policies, check_thresholds,
}

Any-append :
    {A : Type 0} (P : A → Type 0) (xs ys : List A) → Any P (xs ++ ys) ↔ (Any P xs ⊎ Any P ys)
Any-append P [] ys = (λ h. inr h, λ h. elim h [ inl a ↦ elim a [ ] | inr b ↦ b ])
Any-append P (x ∷ xs) ys = ground (arith, Any-append P xs ys)

module _ {F : Type 0} ⦃fl : Float F⦄ (f : CostForecast F) (b : ThresholdBreach F) where
  -- The breach stands in a list.
  abbrev pub IsReported : List (ThresholdBreach F) → Type 0
  IsReported bs = Any (λ c. c ≡ b) bs

  -- The forecast for a period is above so many percent of the limit, and the breach says so.
  abbrev pub IsAbove : F → ForecastPeriod F → F → Type 0
  IsAbove limit p pct =
      (limit ⊗ pct ⊘ fl.of_nat 100 ≺ p.forecasted_cost)
      × ◌≡◌ {A = ThresholdBreach F}
          (record {
            namespace = f.namespace;
            threshold_pct = pct;
            budget_limit = limit;
            forecasted_cost = p.forecasted_cost;
            period_days = p.days;
          })
          b

  -- It comes from some period and threshold of a policy whose limit is not at most 0.
  abbrev pub ComesFrom : Option (FinancialPolicy F) → Type 0
  ComesFrom none = ⊥
  ComesFrom (some p) =
      let budget = p.spec.budget in
      (fl.le budget.monthly_limit (fl.of_nat 0) ≡ false)
      × Any (λ period. Any (IsAbove budget.monthly_limit period) budget.alert_thresholds) f.periods

  thresholds_iff :
      (limit : F) (p : ForecastPeriod F) (pcts : List F)
      → IsReported (over_thresholds f limit p pcts) ↔ Any (IsAbove limit p) pcts
  thresholds_iff limit p [] = (λ h. h, λ h. h)
  thresholds_iff limit p (pct ∷ pcts) =
      let rest = thresholds_iff limit p pcts in
      elim (Bool-cases (fl.lt (threshold_value limit pct) p.forecasted_cost)) [
        | inl t ↦ rw t (
          λ h. elim h [ inl e ↦ inl (refl, e) | inr m ↦ inr (rest.0 m) ],
          λ h. elim h [ inl e ↦ inl e.1 | inr m ↦ inr (rest.1 m) ],
        )
        | inr e ↦
            rw e (λ h. inr (rest.0 h), λ h. elim h [ inl above ↦ cc above.0 | inr m ↦ rest.1 m ])
      ]

  periods_iff :
      (limit : F) (pcts : List F) (ps : List (ForecastPeriod F))
      → IsReported (over_periods f limit pcts ps) ↔ Any (λ p. Any (IsAbove limit p) pcts) ps
  periods_iff limit pcts [] = (λ h. h, λ h. h)
  periods_iff limit pcts (p ∷ ps) = ground (
    arith,
    periods_iff limit pcts ps,
    thresholds_iff limit p pcts,
    Any-append (λ c. c ≡ b) (over_thresholds f limit p pcts) (over_periods f limit pcts ps),
  )

  policy_iff : (p : Option (FinancialPolicy F)) → IsReported (policy_breaches f p) ↔ ComesFrom p
  policy_iff none = (λ h. h, λ h. h)
  policy_iff (some p) =
      let limit = p.spec.budget.monthly_limit in
      let inner = periods_iff limit p.spec.budget.alert_thresholds f.periods in
      elim (Bool-cases (fl.le limit (fl.of_nat 0))) [
        | inl t ↦ rw t (λ h. elim h [ ], λ h. cc h.0)
        | inr e ↦ rw e (λ h. (refl, inner.0 h), λ h. inner.1 h.1)
      ]

  policies_iff :
      (ps : List (Option (FinancialPolicy F))) → IsReported (over_policies f ps) ↔ Any ComesFrom ps
  policies_iff [] = (λ h. h, λ h. h)
  policies_iff (p ∷ ps) = ground (
    arith,
    policies_iff ps,
    policy_iff p,
    Any-append (λ c. c ≡ b) (policy_breaches f p) (over_policies f ps),
  )

  -- A breach is reported exactly when it is that of some policy, period and threshold such that the
  -- policy is not nil, its limit is not at most 0, and the forecast for the period is above the
  -- threshold's percentage of the limit. It names the namespace of the forecast, the threshold, the limit,
  -- the cost and the days.
  pub check_thresholds_iff :
      (ps : List (Option (FinancialPolicy F)))
      → IsReported (check_thresholds (some f) ps) ↔ Any ComesFrom ps
  unfolding check_thresholds
  check_thresholds_iff ps = policies_iff ps
