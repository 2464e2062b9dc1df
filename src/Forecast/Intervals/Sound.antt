-- ===== src/Forecast/Intervals/Sound.antt =====
-- pkg/forecast/forecaster.go: when a forecast is made, and the bounds of its intervals.
use eks_financial_orchestrat.Common.{
  ℕ, ◌≤◌, ◌<◌, ◌≡◌, refl, ap, not, inl, inr, ◌⊎◌, some, List, [], ◌∷◌, map, length, All, ltb, arith,
  Bool-cases, if◌then◌else◌,
}
use eks_financial_orchestrat.Common.Float.{Float, IsOrdered, ◌≺◌, ◌⊕◌, ◌⊖◌, ◌⊗◌}
use eks_financial_orchestrat.Common.Result.{ok, err}
use eks_financial_orchestrat.Types.{Time}
use eks_financial_orchestrat.Collector.Costs.{DailyCostRecord}
use eks_financial_orchestrat.Forecast.{ForecastPeriod, CostForecast, ConfidenceInterval}
use eks_financial_orchestrat.Forecast.HoltWinters.InRange.{holt_winters_forecast-in_range}
use eks_financial_orchestrat.Forecast.Intervals.{
  insufficient_history, min_history_days, default_season_length, horizons, clamped, namespace_of,
  daily_costs, period_of, forecast_raw, periods_of, generate_forecast, interval_around, variance,
  z_score, get_confidence_interval,
}

module _ {F : Type 0} ⦃fl : Float F⦄ where
  -- Neither the cost nor the lower bound of a period is negative.
  pub record IsSound (p : ForecastPeriod F) : Type 0 where
    pub cost : ¬ (p.forecasted_cost ≺ fl.of_nat 0)
    pub lower : ¬ (p.lower_bound ≺ fl.of_nat 0)

  -- The bounds lie on either side of a cost.
  pub record IsAround (cost : F) (i : ConfidenceInterval F) : Type 0 where
    pub below : ¬ (cost ≺ i.lower_bound)
    pub above : ¬ (i.upper_bound ≺ cost)
    pub positive : ¬ (cost ≺ fl.of_nat 0) → ¬ (i.lower_bound ≺ fl.of_nat 0)

module _ {F : Type 0} ⦃fl : Float F⦄ (ord : IsOrdered F) where
  lt_irrefl : (x : F) → ¬ (x ≺ x)
  lt_irrefl x h =
      let (a, b) = ord.num_of_lt x x h in
      let e : fl.lt x x ≡ not (fl.le x x) = ord.lt-eq-not-le x x a b in ground (arith, h, e, a)

  clamped-lem : (x : F) → ¬ (clamped x ≺ fl.of_nat 0)
  clamped-lem x = elim (Bool-cases (fl.lt x (fl.of_nat 0))) [
    | inl t ↦ rw t (lt_irrefl (fl.of_nat 0))
    | inr f ↦ rw f (λ h. cc (f, h))
  ]

  not_above : (x bound : F) → ¬ (x ≺ (if fl.lt x bound then x else bound))
  not_above x bound = elim (Bool-cases (fl.lt x bound)) [
    | inl t ↦ rw t (lt_irrefl x)
    | inr f ↦ rw f (λ h. cc (f, h))
  ]

  not_below : (x bound : F) → ¬ ((if fl.lt bound x then x else bound) ≺ x)
  not_below x bound = elim (Bool-cases (fl.lt bound x)) [
    | inl t ↦ rw t (lt_irrefl x)
    | inr f ↦ rw f (λ h. cc (f, h))
  ]

  interval_around-IsAround :
      (cost width level : F) → IsAround cost (interval_around cost width level)
  interval_around-IsAround cost width level = record {
    below = not_above cost (clamped (cost ⊖ width));
    above = not_below cost (cost ⊕ width);
    positive = λ h. elim (Bool-cases (fl.lt cost (clamped (cost ⊖ width)))) [
      | inl t ↦ rw t h
      | inr f ↦ rw f (clamped-lem (cost ⊖ width))
    ];
  }

  module _ (sqrt : F → F) where
    period_of-IsSound : (days : ℕ) (raw : List F) → IsSound (period_of sqrt days raw)
    period_of-IsSound days raw = record { cost = clamped-lem _; lower = clamped-lem _ }

    periods_of-IsSound :
        (costs : List F) (hs : List ℕ)
        → (ps : List (ForecastPeriod F)) × (periods_of sqrt costs hs ≡ some ps)
          × (map (λ p. p.days) ps ≡ hs)
          × All IsSound ps
    periods_of-IsSound costs [] = ([], refl, refl, tt)
    periods_of-IsSound costs (days ∷ hs) =
        let (raw, e, _) =
          holt_winters_forecast-in_range default_season_length (fl.ratio 3 10) (fl.ratio 1 10)
            (fl.ratio 3 10) costs days (omega arith) in
        let (ps, e', same, sound) = periods_of-IsSound costs hs in
        (
          period_of sqrt days raw ∷ ps,
          rw (periods_of, forecast_raw, e, e') refl,
          ap (λ l. days ∷ l) same,
          (period_of-IsSound days raw, sound),
        )

    -- A history of less than 14 records is refused. On any other the forecaster never panics: it
    -- returns a forecast for the namespace of the first record, for 7, 14 and 30 days in this
    -- order, in which no cost and no lower bound is negative, as floats with the order of IEEE 754
    -- compare.
    pub generate_forecast-IsSound :
        (now : Time) (history : List (DailyCostRecord F))
        → ((length history < 14)
            × (generate_forecast sqrt now history ≡ some (err insufficient_history)))
          ⊎ ((14 ≤ length history)
              × ((f : CostForecast F) × (generate_forecast sqrt now history ≡ some (ok f))
                  × (f.generated_at ≡ now)
                  × (f.namespace ≡ namespace_of history)
                  × (map (λ p. p.days) f.periods ≡ 7 ∷ 14 ∷ 30 ∷ [])
                  × All IsSound f.periods))
    unfolding generate_forecast
    generate_forecast-IsSound now history =
        elim (Bool-cases (ltb (length history) min_history_days)) [
          | inl few ↦ inl (ground arith, rw few refl)
          | inr many ↦
              let (ps, e, same, sound) = periods_of-IsSound (daily_costs history) horizons in
              let f : CostForecast F = record {
                generated_at = now;
                namespace = namespace_of history;
                periods = ps;
              } in
              inr (ground arith, (f, rw (many, e) refl, refl, refl, same, sound))
        ]

    -- For floats with the order of IEEE 754, the confidence interval of a forecast never lies
    -- above or below the cost of its first period, and its lower bound is not negative unless that
    -- cost is. A bound or a cost that is no number compares with nothing.
    pub get_confidence_interval-IsAround :
        (f : CostForecast F) (p : ForecastPeriod F) (ps : List (ForecastPeriod F)) (level : F)
        → f.periods ≡ p ∷ ps
        → IsAround p.forecasted_cost (get_confidence_interval sqrt (some f) level)
    unfolding get_confidence_interval
    get_confidence_interval-IsAround f p ps level first = rw first (
        interval_around-IsAround p.forecasted_cost (z_score level ⊗ sqrt (variance (p ∷ ps))) level)
