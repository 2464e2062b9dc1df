-- ===== src/Forecast/Tests.antt =====
-- Runs of the forecaster.
use eks_financial_orchestrat.Common.{
  ℕ, ◌<◌, ◌≤◌, ◌≡◌, ◌↔◌, ◌⊎◌, refl, String, Option, none, some, List, [], ◌∷◌, map, length,
  replicate, All, Any, arith,
}
use eks_financial_orchestrat.Common.Int.{◌+ℤ◌, ◌-ℤ◌, ◌*ℤ◌, quot}
use eks_financial_orchestrat.Common.Fixed.{Fixed, whole, milli, fixed_float, Fixed-IsOrdered}
use eks_financial_orchestrat.Common.Result.{ok, err}
use eks_financial_orchestrat.Kube.Single.{Policy}
use eks_financial_orchestrat.Collector.Costs.{DailyCostRecord}
use eks_financial_orchestrat.Forecast.{ForecastPeriod, CostForecast, ThresholdBreach}
use eks_financial_orchestrat.Forecast.Intervals.{
  insufficient_history, namespace_of, generate_forecast, get_confidence_interval,
}
use eks_financial_orchestrat.Forecast.Intervals.Sound.{
  IsSound, IsAround, generate_forecast-IsSound, get_confidence_interval-IsAround,
}
use eks_financial_orchestrat.Forecast.Scheduler.{Recalculation, start}
use eks_financial_orchestrat.Forecast.Scheduler.Kept.{start-keeps}
use eks_financial_orchestrat.Forecast.HoltWinters.{holt_winters_forecast, initialize}
use eks_financial_orchestrat.Forecast.Thresholds.{check_thresholds, breach_of}
use eks_financial_orchestrat.Forecast.Thresholds.Breaches.{
  IsReported, ComesFrom, check_thresholds_iff,
}

abbrev sqrt : Fixed → Fixed
sqrt x = x

abbrev history : List (DailyCostRecord Fixed)
history = replicate 14 (record {
  date = 1;
  namespace = "shop";
  total_cost = whole 10;
  day_of_week = 1;
  day_of_month = 1;
})

generate_forecast-IsSound_example :
    ((length history < 14) × (generate_forecast sqrt 5 history ≡ some (err insufficient_history)))
    ⊎ ((14 ≤ length history)
        × ((f : CostForecast Fixed) × (generate_forecast sqrt 5 history ≡ some (ok f))
            × (f.generated_at ≡ 5)
            × (f.namespace ≡ namespace_of history)
            × (map (λ p. p.days) f.periods ≡ 7 ∷ 14 ∷ 30 ∷ [])
            × All IsSound f.periods))
generate_forecast-IsSound_example = generate_forecast-IsSound Fixed-IsOrdered sqrt 5 history

-- The store holds the last forecast.
abbrev store_last :
    CostForecast Fixed → Option (CostForecast Fixed) → Option String × Option (CostForecast Fixed)
store_last f s = (none, some f)

abbrev readable : Recalculation Fixed
readable = record { now = 5; history = ok history }

abbrev unreadable : Recalculation Fixed
unreadable = record { now = 6; history = err "connection refused" }

start-keeps_example :
    (f : CostForecast Fixed) × (generate_forecast sqrt 5 history ≡ some (ok f))
    × All IsSound f.periods
    × (start sqrt store_last (unreadable ∷ readable ∷ unreadable ∷ []) none
        ≡ (store_last f (start sqrt store_last (unreadable ∷ []) none)).1)
start-keeps_example =
    start-keeps sqrt store_last Fixed-IsOrdered (unreadable ∷ []) (unreadable ∷ []) readable history
      none refl (omega arith) (refl, tt)

-- A season of two days, which repeats.
two_seasons :
    holt_winters_forecast 2
      (milli 300)
      (milli 100)
      (milli 300)
      (whole 1 ∷ whole 3 ∷ whole 1 ∷ whole 3 ∷ [])
      3
    ≡ some (whole 1 ∷ whole 3 ∷ whole 1 ∷ [])
unfolding holt_winters_forecast initialize ◌+ℤ◌ ◌-ℤ◌ ◌*ℤ◌ quot
two_seasons = refl

abbrev period : ℕ → ℕ → ForecastPeriod Fixed
period days cost = record {
  days = days;
  forecasted_cost = whole cost;
  lower_bound = whole 0;
  upper_bound = whole cost;
  confidence = milli 950;
}

abbrev forecast : CostForecast Fixed
forecast = record {
  generated_at = 5;
  namespace = "shop";
  periods = period 7 60 ∷ period 14 120 ∷ [];
}

get_confidence_interval-IsAround_example :
    IsAround (whole 60) (get_confidence_interval sqrt (some forecast) (milli 950))
get_confidence_interval-IsAround_example =
    get_confidence_interval-IsAround Fixed-IsOrdered sqrt forecast (period 7 60)
      (period 14 120 ∷ []) (milli 950) refl

abbrev policy : Policy
policy = record {
  name = "budget";
  namespace = "finops";
  annotations = none;
  resource_version = "";
  spec = record {
    target_namespace = "shop";
    budget = record {
      monthly_limit = whole 100;
      alert_thresholds = whole 50 ∷ whole 100 ∷ [];
      breach_action = "alert";
    };
    instance_mix = none;
    mode = "advisory";
    alerting = none;
    version = 1;
  };
  status = record {
    phase = "Active";
    current_cost = whole 0;
    budget_usage_percent = whole 0;
    last_evaluated = none;
    conditions = [];
  };
}

abbrev breach : ThresholdBreach Fixed
breach = breach_of forecast (whole 100) (period 14 120) (whole 100)

check_thresholds_iff_example :
    IsReported forecast breach (check_thresholds (some forecast) (none ∷ some policy ∷ []))
    ↔ Any (ComesFrom forecast breach) (none ∷ some policy ∷ [])
check_thresholds_iff_example = check_thresholds_iff forecast breach (none ∷ some policy ∷ [])
