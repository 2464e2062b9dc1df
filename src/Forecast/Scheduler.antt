-- ===== src/Forecast/Scheduler.antt =====
-- pkg/forecast/scheduler.go: the periodic recalculation, with `ReadDailyCosts` known by its answer and
-- `StoreForecast` a parameter over the state of the store. A panic, which the forecaster never
-- raises, leaves the store as it is.
pub mod Kept
use eks_financial_orchestrat.Common.{String, Option, none, some, List, [], ◌∷◌}
use eks_financial_orchestrat.Common.Float.{Float}
use eks_financial_orchestrat.Common.Result.{Result, ok, err}
use eks_financial_orchestrat.Types.{Time}
use eks_financial_orchestrat.Collector.Costs.{DailyCostRecord}
use eks_financial_orchestrat.Forecast.{CostForecast}
use eks_financial_orchestrat.Forecast.Intervals.{ForecastError, generate_forecast}

-- What a recalculation meets: the time, and the history or why it could not be read.
pub record Recalculation (F : Type 0) : Type 0 where
  pub now : Time
  pub history : Result String (List (DailyCostRecord F))

module _ {F S : Type 0} ⦃fl : Float F⦄ (sqrt : F → F)
    (store_forecast : CostForecast F → S → Option String × S) where
  abbrev pub store : Option (Result ForecastError (CostForecast F)) → S → S
  store none s = s
  store (some (err e)) s = s
  store (some (ok f)) s = (store_forecast f s).1

  -- `RunOnce`
  unfoldable pub run_once : Recalculation F → S → S
  run_once r s = elim r.history [
    | err e ↦ s
    | ok history ↦ store (generate_forecast sqrt r.now history) s
  ]

  -- `Start`, over the first run and those of the ticks
  unfoldable pub start : List (Recalculation F) → S → S
  unfolding run_once
  start [] s = s
  start (r ∷ rs) s = start rs (run_once r s)
