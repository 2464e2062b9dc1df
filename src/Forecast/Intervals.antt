-- ===== src/Forecast/Intervals.antt =====
-- pkg/forecast/forecaster.go: `GenerateForecast` and `GetConfidenceInterval`. An index out of range,
-- where Go panics, is `none`.
pub mod Sound
use mathlib.Core.Option
use eks_financial_orchestrat.Common.{
  ℕ, ◌-◌, String, Option, none, some, List, [], ◌∷◌, map, foldl, length, ltb, if◌then◌else◌,
}
use eks_financial_orchestrat.Common.Float.{Float, ◌⊕◌, ◌⊖◌, ◌⊗◌, ◌⊘◌}
use eks_financial_orchestrat.Common.Result.{Result, ok, err}
use eks_financial_orchestrat.Types.{Time}
use eks_financial_orchestrat.Collector.Costs.{DailyCostRecord}
use eks_financial_orchestrat.Forecast.{ForecastPeriod, CostForecast, ConfidenceInterval}
use eks_financial_orchestrat.Forecast.HoltWinters.{holt_winters_forecast}

abbrev pub min_history_days : ℕ
min_history_days = 14

abbrev pub default_season_length : ℕ
default_season_length = 7

-- The error of `GenerateForecast`.
pub data ForecastError : Type 0 where
  insufficient_history : ForecastError

abbrev pub horizons : List ℕ
horizons = 7 ∷ 14 ∷ 30 ∷ []

module _ {F : Type 0} ⦃fl : Float F⦄ where
  abbrev pub zero_cost : F
  zero_cost = fl.of_nat 0

  -- `if x < 0 { x = 0 }`
  abbrev pub clamped : F → F
  clamped x = if fl.lt x zero_cost then zero_cost else x

  abbrev pub cost_of_days : List F → F
  cost_of_days raw = clamped (foldl (λ t v. t ⊕ clamped v) zero_cost raw)

  abbrev pub namespace_of : List (DailyCostRecord F) → String
  namespace_of [] = ""
  namespace_of (r ∷ rs) = r.namespace

  abbrev pub daily_costs : List (DailyCostRecord F) → List F
  daily_costs history = map (λ r. r.total_cost) history

  -- `zScore`
  unfoldable pub z_score : F → F
  z_score level =
      if fl.le (fl.ratio 99 100) level
      then fl.ratio 2576 1000
      else if fl.le (fl.ratio 95 100) level
      then fl.ratio 1960 1000
      else if fl.le (fl.ratio 90 100) level
      then fl.ratio 1645 1000
      else if fl.le (fl.ratio 80 100) level
      then fl.ratio 1282 1000
      else fl.of_nat 1

  abbrev pub mean_cost : List (ForecastPeriod F) → F
  mean_cost ps = foldl (λ t p. t ⊕ p.forecasted_cost) zero_cost ps ⊘ fl.of_nat (length ps)

  abbrev pub variance : List (ForecastPeriod F) → F
  variance ps =
      let squares =
        foldl (λ t p. let diff = p.forecasted_cost ⊖ mean_cost ps in t ⊕ diff ⊗ diff) zero_cost
          ps in
      if ltb 1 (length ps) then squares ⊘ fl.of_nat (length ps - 1) else squares

  -- The bounds around a cost that is `width` wide on either side.
  abbrev pub interval_around : F → F → F → ConfidenceInterval F
  interval_around cost width level =
      let lower = clamped (cost ⊖ width) in
      let upper = cost ⊕ width in
      record {
        lower_bound = if fl.lt cost lower then cost else lower;
        upper_bound = if fl.lt upper cost then cost else upper;
        confidence_level = level;
      }

  module _ (sqrt : F → F) where
    abbrev pub spread : ℕ → F → F
    spread days cost =
        fl.ratio 196 100 ⊗ (cost ⊗ fl.ratio 10 100 ⊗ sqrt (fl.of_nat days ⊘ fl.of_nat 7))

    -- A period of the forecast, from its daily values.
    abbrev pub period_of : ℕ → List F → ForecastPeriod F
    period_of days raw =
        let cost = cost_of_days raw in
        record {
          days = days;
          forecasted_cost = cost;
          lower_bound = clamped (cost ⊖ spread days cost);
          upper_bound = cost ⊕ spread days cost;
          confidence = fl.ratio 95 100;
        }

    abbrev pub forecast_raw : List F → ℕ → Option (List F)
    forecast_raw costs days =
        holt_winters_forecast default_season_length (fl.ratio 3 10) (fl.ratio 1 10) (fl.ratio 3 10)
          costs days

    -- The two loops over the horizons.
    abbrev pub periods_of : List F → List ℕ → Option (List (ForecastPeriod F))
    periods_of costs [] = some []
    periods_of costs (days ∷ rest) = elim (forecast_raw costs days) [
      | none ↦ none
      | some raw ↦ Option.map (λ ps. period_of days raw ∷ ps) (periods_of costs rest)
    ]

    -- `GenerateForecast`
    unfoldable pub generate_forecast :
        Time → List (DailyCostRecord F) → Option (Result ForecastError (CostForecast F))
    generate_forecast now history =
        if ltb (length history) min_history_days
        then some (err insufficient_history)
        else Option.map
            (λ ps.
              ok (record { generated_at = now; namespace = namespace_of history; periods = ps }))
            (periods_of (daily_costs history) horizons)

    abbrev pub interval_of : List (ForecastPeriod F) → F → ConfidenceInterval F
    interval_of [] level = record {
      lower_bound = zero_cost;
      upper_bound = zero_cost;
      confidence_level = level;
    }
    interval_of (p ∷ ps) level =
        interval_around p.forecasted_cost (z_score level ⊗ sqrt (variance (p ∷ ps))) level

    -- `GetConfidenceInterval`
    unfoldable pub get_confidence_interval : Option (CostForecast F) → F → ConfidenceInterval F
    unfolding z_score
    get_confidence_interval none level = interval_of [] level
    get_confidence_interval (some f) level = interval_of f.periods level
