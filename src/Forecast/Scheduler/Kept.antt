-- ===== src/Forecast/Scheduler/Kept.antt =====
-- pkg/forecast/scheduler.go: a recalculation that fails keeps the last forecast.
use eks_financial_orchestrat.Common.{
  ◌≤◌, ◌≡◌, refl, ◌∙◌, inl, inr, String, Bool, true, Option, some, List, [], ◌∷◌, ◌++◌, All, ltb,
  length, arith,
}
use eks_financial_orchestrat.Common.Float.{Float, IsOrdered}
use eks_financial_orchestrat.Common.Result.{Result, ok, err}
use eks_financial_orchestrat.Collector.Costs.{DailyCostRecord}
use eks_financial_orchestrat.Forecast.{CostForecast}
use eks_financial_orchestrat.Forecast.Intervals.{generate_forecast}
use eks_financial_orchestrat.Forecast.Intervals.Sound.{IsSound, generate_forecast-IsSound}
use eks_financial_orchestrat.Forecast.Scheduler.{Recalculation, run_once, start}

-- The history cannot be read, or has less than 14 records.
abbrev pub is_too_short : {F : Type 0} → Result String (List (DailyCostRecord F)) → Bool
is_too_short (err e) = true
is_too_short (ok h) = ltb (length h) 14

module _ {F S : Type 0} ⦃fl : Float F⦄ (sqrt : F → F)
    (store_forecast : CostForecast F → S → Option String × S) where
  start-append :
      (xs ys : List (Recalculation F)) (s : S)
      → start sqrt store_forecast (xs ++ ys) s
        ≡ start sqrt store_forecast ys (start sqrt store_forecast xs s)
  unfolding start
  start-append [] ys s = refl
  start-append (x ∷ xs) ys s = start-append xs ys (run_once sqrt store_forecast x s)

  run_once_short :
      (x : Recalculation F) (history : Result String (List (DailyCostRecord F))) (s : S)
      → x.history ≡ history
      → is_too_short history ≡ true
      → run_once sqrt store_forecast x s ≡ s
  unfolding run_once generate_forecast
  run_once_short x (err e) s read _ = rw (run_once, read) refl
  run_once_short x (ok h) s read short = rw (run_once, read, short) refl

  start_short :
      (xs : List (Recalculation F)) (s : S)
      → All (λ x. is_too_short x.history ≡ true) xs
      → start sqrt store_forecast xs s ≡ s
  unfolding start
  start_short [] s _ = refl
  start_short (x ∷ xs) s (short, rest) =
      start_short xs (run_once sqrt store_forecast x s) rest
      ∙ run_once_short x x.history s refl short

  run_once-eq_stored :
      (x : Recalculation F) (h : List (DailyCostRecord F)) (f : CostForecast F) (s : S)
      → x.history ≡ ok h
      → generate_forecast sqrt x.now h ≡ some (ok f)
      → run_once sqrt store_forecast x s ≡ (store_forecast f s).1
  unfolding run_once
  run_once-eq_stored x h f s read made = rw (run_once, read, made) refl

  -- When the history of a run has at least 14 records, and those of all later runs cannot be read or
  -- have less, then the run makes a forecast without a negative cost or lower bound, and the state of
  -- the store after all runs is the one that storing this forecast left, whether or not it succeeded.
  pub start-keeps :
      IsOrdered F
      → (before later : List (Recalculation F)) (x : Recalculation F) (h : List (DailyCostRecord F))
        (s : S)
      → x.history ≡ ok h
      → 14 ≤ length h
      → All (λ x. is_too_short x.history ≡ true) later
      → (f : CostForecast F) × (generate_forecast sqrt x.now h ≡ some (ok f))
        × All IsSound f.periods
        × (start sqrt store_forecast (before ++ (x ∷ later)) s
            ≡ (store_forecast f (start sqrt store_forecast before s)).1)
  unfolding start
  start-keeps ord before later x h s read long failing =
      elim (generate_forecast-IsSound ord sqrt x.now h) [
        | inl (few, _) ↦ absurd (omega arith)
        | inr (_, (f, made, _, _, _, sound)) ↦
            let reached = start sqrt store_forecast before s in
            (
              f,
              made,
              sound,
              start-append before (x ∷ later) s
                  ∙ start_short later (run_once sqrt store_forecast x reached) failing
                  ∙ run_once-eq_stored x h f reached read made,
            )
      ]
