-- ===== src/Forecast/HoltWinters.antt =====
-- pkg/forecast/holtwinters.go. An index out of range, where Go panics, is `none`.
pub mod InRange
use eks_financial_orchestrat.Common.{
  ℕ, zero, suc, ◌+◌, ◌-◌, ◌*◌, ◌%◌, Option, none, some, List, [], ◌∷◌, ◌++◌, map, foldl, length,
  take, drop, replicate, modify, get_elem?, ltb, if◌then◌else◌,
}
use mathlib.Core.Option
use eks_financial_orchestrat.Common.Float.{Float, ◌⊕◌, ◌⊖◌, ◌⊗◌, ◌⊘◌}

pub record Smoothing (F : Type 0) : Type 0 where
  pub level : F
  pub trend : F
  pub seasonal : List F

module _ {F : Type 0} ⦃fl : Float F⦄ where
  -- The loops of the initialization, from i on, so many times. The first adds up the values.
  abbrev pub level_loop : List F → F → ℕ → ℕ → Option F
  level_loop values t i zero = some t
  level_loop values t i (suc left) = elim (get_elem? values i) [
    | none ↦ none
    | some x ↦ level_loop values (t ⊕ x) (suc i) left
  ]

  -- The second adds up the differences between the second season and the first.
  abbrev pub trend_loop : List F → ℕ → F → ℕ → ℕ → Option F
  trend_loop values season t i zero = some t
  trend_loop values season t i (suc left) = elim (get_elem? values (season + i)) [
    | none ↦ none
    | some y ↦ elim (get_elem? values i) [
      | none ↦ none
      | some x ↦ trend_loop values season (t ⊕ (y ⊖ x)) (suc i) left
    ]
  ]

  -- The third writes the deviations from the level into the array of the seasonal components.
  abbrev pub seasonal_loop : List F → F → List F → ℕ → ℕ → Option (List F)
  seasonal_loop values level components i zero = some components
  seasonal_loop values level components i (suc left) = elim (get_elem? values i) [
    | none ↦ none
    | some x ↦ elim (modify i (λ _. x ⊖ level) components) [
      | none ↦ none
      | some components' ↦ seasonal_loop values level components' (suc i) left
    ]
  ]

  abbrev pub initial_seasonal : List F → ℕ → ℕ → F → Option (List F)
  initial_seasonal values season days level =
      seasonal_loop values level (replicate (length values + days) (fl.of_nat 0)) 0 season

  -- With the sums of the first two loops
  abbrev pub initial : List F → ℕ → ℕ → F → F → Option (Smoothing F)
  initial values season days sum differences =
      let level = sum ⊘ fl.of_nat season in
      Option.map
        (λ seasonal. record {
          level = level;
          trend = differences ⊘ fl.of_nat (season * season);
          seasonal = seasonal;
        })
        (initial_seasonal values season days level)

  -- The initialization
  unfoldable pub initialize : List F → ℕ → ℕ → Option (Smoothing F)
  initialize values season days = elim (level_loop values (fl.of_nat 0) 0 season) [
    | none ↦ none
    | some sum ↦ elim (trend_loop values season (fl.of_nat 0) 0 season) [
      | none ↦ none
      | some differences ↦ initial values season days sum differences
    ]
  ]

  module _ (season : ℕ) (alpha beta gamma : F) where
    abbrev pub one_minus : F → F
    one_minus x = fl.of_nat 1 ⊖ x

    -- The new level, trend and seasonal component, for a value and the component of a season before.
    abbrev pub new_level : F → Smoothing F → F → F
    new_level value s before = alpha ⊗ (value ⊖ before) ⊕ one_minus alpha ⊗ (s.level ⊕ s.trend)

    abbrev pub new_trend : F → Smoothing F → F → F
    new_trend value s before =
        beta ⊗ (new_level value s before ⊖ s.level) ⊕ one_minus beta ⊗ s.trend

    abbrev pub new_component : F → Smoothing F → F → F
    new_component value s before =
        gamma ⊗ (value ⊖ new_level value s before) ⊕ one_minus gamma ⊗ before

    -- The body of the loop at t.
    abbrev pub smooth : ℕ → F → Smoothing F → F → Option (Smoothing F)
    smooth t value s before = elim (modify t (λ _. new_component value s before) s.seasonal) [
      | none ↦ none
      | some seasonal ↦ some (record {
        level = new_level value s before;
        trend = new_trend value s before;
        seasonal = seasonal;
      })
    ]

    abbrev pub update : ℕ → F → Smoothing F → Option (Smoothing F)
    update t value s = elim (get_elem? s.seasonal (t - season)) [
      | none ↦ none
      | some before ↦ smooth t value s before
    ]

    -- The loop over the values at t, t + 1, ...
    abbrev pub update_all : ℕ → List F → Smoothing F → Option (Smoothing F)
    update_all t [] s = some s
    update_all t (v ∷ vs) s = elim (update t v s) [
      | none ↦ none
      | some s' ↦ update_all (suc t) vs s'
    ]

    -- The value forecast for day i after n days.
    abbrev pub forecast_day : ℕ → Smoothing F → ℕ → Option F
    forecast_day n s i =
        let m = i + 1 in
        Option.map (λ component. s.level ⊕ fl.of_nat m ⊗ s.trend ⊕ component)
          (get_elem? s.seasonal (n - season + (m - 1) % season))

    -- The days from i on, so many of them.
    abbrev pub forecast_days : ℕ → Smoothing F → ℕ → ℕ → Option (List F)
    forecast_days n s i zero = some []
    forecast_days n s i (suc left) = elim (forecast_day n s i) [
      | none ↦ none
      | some v ↦ Option.map (λ vs. v ∷ vs) (forecast_days n s (suc i) left)
    ]

    -- `holtWintersForecast`
    unfoldable pub holt_winters_forecast : List F → ℕ → Option (List F)
    unfolding initialize
    holt_winters_forecast values days =
        if ltb (length values) (2 * season)
        then some (replicate days (fl.of_nat 0))
        else elim (initialize values season days) [
          | none ↦ none
          | some start ↦ elim (update_all season (drop season values) start) [
            | none ↦ none
            | some s ↦ forecast_days (length values) s 0 days
          ]
        ]
