-- ===== src/Forecast.antt =====
-- pkg/forecast: forecasts by the method of Holt and Winters. This file has the types of types.go.
-- `math.Sqrt` and `math.Abs` are parameters.
mod Tests
pub mod HoltWinters
pub mod Intervals
pub mod Thresholds
pub mod Seasonality
pub mod Scheduler
use eks_financial_orchestrat.Common.{ℕ, String, Bool, List}
use eks_financial_orchestrat.Types.{Time}

pub record ForecastPeriod (F : Type 0) : Type 0 where
  pub days : ℕ
  pub forecasted_cost : F
  pub lower_bound : F
  pub upper_bound : F
  pub confidence : F

-- `Forecast` of the source
pub record CostForecast (F : Type 0) : Type 0 where
  pub generated_at : Time
  pub namespace : String
  pub periods : List (ForecastPeriod F)

pub record ConfidenceInterval (F : Type 0) : Type 0 where
  pub lower_bound : F
  pub upper_bound : F
  pub confidence_level : F

pub record SeasonalityPattern (F : Type 0) : Type 0 where
  pub has_weekly_pattern : Bool
  pub has_monthly_pattern : Bool
  pub weekly_factors : List F
  pub monthly_factors : List F

pub record ThresholdBreach (F : Type 0) : Type 0 where
  pub namespace : String
  pub threshold_pct : F
  pub budget_limit : F
  pub forecasted_cost : F
  pub period_days : ℕ
