-- ===== src/Forecast/Seasonality.antt =====
-- pkg/forecast/forecaster.go: `DetectSeasonality`. `weekday` and `day` are those of `time.Time`. A weekday
-- out of range, where Go panics, is `none`.
use eks_financial_orchestrat.Common.{
  ℕ, zero, suc, ◌+◌, Bool, false, Option, none, some, List, [], ◌∷◌, foldl, map, length, replicate,
  modify, ltb, if◌then◌else◌,
}
use eks_financial_orchestrat.Common.Float.{Float, ◌⊕◌, ◌⊖◌, ◌⊗◌, ◌⊘◌}
use eks_financial_orchestrat.Types.{Time}
use eks_financial_orchestrat.Collector.Costs.{DailyCostRecord}
use eks_financial_orchestrat.Forecast.{SeasonalityPattern}

-- The arrays of sums and of counts.
pub record Tally (F : Type 0) : Type 0 where
  pub sums : List F
  pub counts : List ℕ

module _ {F : Type 0} ⦃fl : Float F⦄ where
  abbrev pub total : List F → F
  total xs = foldl (λ t x. t ⊕ x) (fl.of_nat 0) xs

  abbrev pub no_tally : ℕ → Tally F
  no_tally n = record { sums = replicate n (fl.of_nat 0); counts = replicate n 0 }

  abbrev pub counted : Option (List F) → Option (List ℕ) → Option (Tally F)
  counted (some sums) (some counts) = some (record { sums = sums; counts = counts })
  counted none _ = none
  counted (some sums) none = none

  abbrev pub tally_one : ℕ → F → Tally F → Option (Tally F)
  tally_one i x t = counted (modify i (λ s. s ⊕ x) t.sums) (modify i suc t.counts)

  module _ (weekday day : Time → ℕ) where
    -- The loop over the history by the day of the week.
    abbrev pub tally_weekdays : Tally F → List (DailyCostRecord F) → Option (Tally F)
    tally_weekdays t [] = some t
    tally_weekdays t (r ∷ rs) = elim (tally_one (weekday r.date) r.total_cost t) [
      | none ↦ none
      | some t' ↦ tally_weekdays t' rs
    ]

    -- The same by the day of the month, where a day out of range is left out. The days are counted
    -- from 1.
    abbrev pub tally_monthdays : Tally F → List (DailyCostRecord F) → Tally F
    tally_monthdays t [] = t
    tally_monthdays t (r ∷ rs) = elim (day r.date) [
      | zero ↦ tally_monthdays t rs
      | suc d ↦ elim (tally_one d r.total_cost t) [
        | none ↦ tally_monthdays t rs
        | some t' ↦ tally_monthdays t' rs
      ]
    ]

  -- The average of each place, 0 where nothing was counted.
  abbrev pub averages : List F → List ℕ → List F
  averages [] cs = []
  averages (s ∷ ss) [] = []
  averages (s ∷ ss) (c ∷ cs) = (if ltb 0 c then s ⊘ fl.of_nat c else fl.of_nat 0) ∷ averages ss cs

  -- The sum and the number of the values counted.
  abbrev pub overall : F → ℕ → List F → List ℕ → F × ℕ
  overall sum count [] cs = (sum, count)
  overall sum count (s ∷ ss) [] = (sum, count)
  overall sum count (s ∷ ss) (c ∷ cs) =
      let more = overall (sum ⊕ s) (count + c) ss cs in
      let same = overall sum count ss cs in if ltb 0 c then more else same

  abbrev pub mean_of : F × ℕ → F
  mean_of (sum, count) = if ltb 0 count then sum ⊘ fl.of_nat count else sum

  -- The factors at the places that are counted, relative to the mean.
  abbrev pub relative : F → List F → List ℕ → List F
  relative mean [] cs = []
  relative mean (x ∷ xs) [] = x ∷ xs
  relative mean (x ∷ xs) (c ∷ cs) = (if ltb 0 c then x ⊘ mean else x) ∷ relative mean xs cs

  abbrev pub active : List F → List ℕ → List F
  active [] cs = []
  active (x ∷ xs) [] = []
  active (x ∷ xs) (c ∷ cs) = let rest = active xs cs in if ltb 0 c then x ∷ rest else rest

  module _ (sqrt abs : F → F) where
    abbrev pub squares_from : F → List F → F
    squares_from mean xs = foldl (λ t v. let diff = v ⊖ mean in t ⊕ diff ⊗ diff) (fl.of_nat 0) xs

    -- `coefficientOfVariation`
    unfoldable pub coefficient_of_variation : List F → F
    coefficient_of_variation [] = fl.of_nat 0
    coefficient_of_variation (x ∷ xs) =
        let count = fl.of_nat (length (x ∷ xs)) in
        let mean = total (x ∷ xs) ⊘ count in
        if fl.eq mean (fl.of_nat 0)
        then fl.of_nat 0
        else sqrt (squares_from mean (x ∷ xs) ⊘ count) ⊘ abs mean

    abbrev pub varies : List F → Bool
    varies xs = fl.lt (fl.ratio 5 100) (coefficient_of_variation xs)

    abbrev pub factors_if : Bool → List F → List F
    factors_if pattern factors = if pattern then factors else []

    abbrev pub pattern_of : Tally F → Tally F → SeasonalityPattern F
    pattern_of week month =
        let mean = mean_of (overall (fl.of_nat 0) 0 week.sums week.counts) in
        let days = averages week.sums week.counts in
        let weekly = if fl.lt (fl.of_nat 0) mean then map (λ x. x ⊘ mean) days else days in
        let dates = averages month.sums month.counts in
        let monthly =
          if fl.lt (fl.of_nat 0) mean then relative mean dates month.counts else dates in
        record {
          has_weekly_pattern = varies weekly;
          has_monthly_pattern = varies (active monthly month.counts);
          weekly_factors = factors_if (varies weekly) weekly;
          monthly_factors = factors_if (varies (active monthly month.counts)) monthly;
        }

    abbrev pub no_pattern : SeasonalityPattern F
    no_pattern = record {
      has_weekly_pattern = false;
      has_monthly_pattern = false;
      weekly_factors = [];
      monthly_factors = [];
    }

    -- `DetectSeasonality`
    unfoldable pub detect_seasonality :
        (Time → ℕ) → (Time → ℕ) → List (DailyCostRecord F) → Option (SeasonalityPattern F)
    detect_seasonality weekday day history =
        if ltb (length history) 14
        then some no_pattern
        else elim (tally_weekdays weekday day (no_tally 7) history) [
          | none ↦ none
          | some week ↦ some (pattern_of week (tally_monthdays weekday day (no_tally 31) history))
        ]
