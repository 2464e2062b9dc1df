-- ===== src/Forecast/HoltWinters/InRange.antt =====
-- pkg/forecast/holtwinters.go: the loops stay in the range of their arrays.
use native.Mathlib.Nat.{mod-lt}
use eks_financial_orchestrat.Common.{
  ℕ, zero, suc, ◌+◌, ◌-◌, ◌*◌, ◌%◌, ◌<◌, ◌≤◌, ◌≡◌, refl, ap, ◌∙◌, some, List, [], ◌∷◌, length, drop,
  replicate, modify, get_elem?, ltb, length-drop, arith, inl, inr, Bool-cases,
}
use eks_financial_orchestrat.Common.Float.{Float, ◌⊕◌, ◌⊖◌, ◌⊗◌, ◌⊘◌}
use eks_financial_orchestrat.Forecast.HoltWinters.{
  Smoothing, level_loop, trend_loop, seasonal_loop, initialize, new_level, new_trend, new_component,
  smooth, update, update_all, forecast_day, forecast_days, holt_winters_forecast,
}

module _ {ℓ} {A : Type ℓ} where
  pub length-replicate : (n : ℕ) (x : A) → length (replicate n x) ≡ n
  length-replicate zero x = refl
  length-replicate (suc n) x = ap suc (length-replicate n x)

  get_elem?-in_range : (xs : List A) (i : ℕ) → i < length xs → (x : A) × (get_elem? xs i ≡ some x)
  get_elem?-in_range [] i h = elim h [ ]
  get_elem?-in_range (x ∷ xs) zero h = (x, refl)
  get_elem?-in_range (x ∷ xs) (suc i) h = get_elem?-in_range xs i (omega arith)

  pub modify-in_range :
      (i : ℕ) (f : A → A) (xs : List A)
      → i < length xs
      → (ys : List A) × (modify i f xs ≡ some ys) × (length ys ≡ length xs)
  modify-in_range i f [] h = elim h [ ]
  modify-in_range zero f (x ∷ xs) h = (f x ∷ xs, refl, refl)
  modify-in_range (suc i) f (x ∷ xs) h =
      let (ys, e, l) = modify-in_range i f xs (omega arith) in (x ∷ ys, rw e refl, ap suc l)

module _ {F : Type 0} ⦃fl : Float F⦄ (season : ℕ) (alpha beta gamma : F) where
  update-in_range :
      (t : ℕ) (v : F) (s : Smoothing F)
      → t < length s.seasonal
      → (s' : Smoothing F) × (update season alpha beta gamma t v s ≡ some s')
        × (length s'.seasonal ≡ length s.seasonal)
  update-in_range t v s h =
      let (before, e) = get_elem?-in_range s.seasonal (t - season) (omega arith) in
      let new = new_component season alpha beta gamma v s before in
      let (seasonal, w, l) = modify-in_range t (λ _. new) s.seasonal h in
      let next : Smoothing F = record {
        level = new_level season alpha beta gamma v s before;
        trend = new_trend season alpha beta gamma v s before;
        seasonal = seasonal;
      } in
      (next, rw (update, e, smooth, w) refl, l)

  update_all-in_range :
      (t : ℕ) (vs : List F) (s : Smoothing F)
      → t + length vs ≤ length s.seasonal
      → (s' : Smoothing F) × (update_all season alpha beta gamma t vs s ≡ some s')
        × (length s'.seasonal ≡ length s.seasonal)
  update_all-in_range t [] s h = (s, refl, refl)
  update_all-in_range t (v ∷ vs) s h =
      let (next, e, l) = update-in_range t v s (omega arith) in
      let (last, e', l') = update_all-in_range (suc t) vs next (omega (arith, l)) in
      (last, rw (update_all, e, e') refl, l' ∙ l)

  forecast_days-in_range :
      (n : ℕ) (s : Smoothing F) (i left : ℕ)
      → 0 < season
      → season ≤ n
      → n ≤ length s.seasonal
      → (vs : List F) × (forecast_days season alpha beta gamma n s i left ≡ some vs)
        × (length vs ≡ left)
  forecast_days-in_range n s i zero p q r = ([], refl, refl)
  forecast_days-in_range n s i (suc left) p q r =
      let at = n - season + (i + 1 - 1) % season in
      let here : at < length s.seasonal = omega (arith, mod-lt (i + 1 - 1) p) in
      let (component, e) = get_elem?-in_range s.seasonal at here in
      let (vs, e', l) = forecast_days-in_range n s (suc i) left p q r in
      let v = s.level ⊕ fl.of_nat (i + 1) ⊗ s.trend ⊕ component in
      (v ∷ vs, rw (forecast_days, forecast_day, e, e') refl, ap suc l)

  level_loop-in_range :
      (values : List F) (t : F) (i left : ℕ)
      → i + left ≤ length values
      → (x : F) × (level_loop values t i left ≡ some x)
  level_loop-in_range values t i zero h = (t, refl)
  level_loop-in_range values t i (suc left) h =
      let (x, e) = get_elem?-in_range values i (omega arith) in
      let (last, e') = level_loop-in_range values (t ⊕ x) (suc i) left (omega arith) in
      (last, rw (level_loop, e, e') refl)

  trend_loop-in_range :
      (values : List F) (t : F) (i left : ℕ)
      → season + i + left ≤ length values
      → (x : F) × (trend_loop values season t i left ≡ some x)
  trend_loop-in_range values t i zero h = (t, refl)
  trend_loop-in_range values t i (suc left) h =
      let (y, ey) = get_elem?-in_range values (season + i) (omega arith) in
      let (x, ex) = get_elem?-in_range values i (omega arith) in
      let (last, e') = trend_loop-in_range values (t ⊕ (y ⊖ x)) (suc i) left (omega arith) in
      (last, rw (trend_loop, ey, ex, e') refl)

  seasonal_loop-in_range :
      (values : List F) (level : F) (components : List F) (i left : ℕ)
      → i + left ≤ length values
      → i + left ≤ length components
      → (cs : List F) × (seasonal_loop values level components i left ≡ some cs)
        × (length cs ≡ length components)
  seasonal_loop-in_range values level components i zero h room = (components, refl, refl)
  seasonal_loop-in_range values level components i (suc left) h room =
      let (x, e) = get_elem?-in_range values i (omega arith) in
      let (next, w, l) = modify-in_range i (λ _. x ⊖ level) components (omega arith) in
      let (last, e', l') =
        seasonal_loop-in_range values level next (suc i) left (omega arith) (omega (arith, l)) in
      (last, rw (seasonal_loop, e, w, e') refl, l' ∙ l)

  initialize-in_range :
      (values : List F) (days : ℕ)
      → 2 * season ≤ length values
      → (s : Smoothing F) × (initialize values season days ≡ some s)
        × (length s.seasonal ≡ length values + days)
  unfolding initialize
  initialize-in_range values days h =
      let (sum, e₁) = level_loop-in_range values (fl.of_nat 0) 0 season (omega arith) in
      let (differences, e₂) = trend_loop-in_range values (fl.of_nat 0) 0 season (omega arith) in
      let level = sum ⊘ fl.of_nat season in
      let zeros = replicate (length values + days) (fl.of_nat 0) in
      let size = length-replicate (length values + days) (fl.of_nat 0) in
      let (cs, e₃, l) =
        seasonal_loop-in_range values level zeros 0 season (omega arith) (omega (arith, size)) in
      let start : Smoothing F = record {
        level = level;
        trend = differences ⊘ fl.of_nat (season * season);
        seasonal = cs;
      } in
      (start, rw (initialize, e₁, e₂, e₃) refl, l ∙ size)

  pub holt_winters_forecast-in_range :
      (values : List F) (days : ℕ)
      → 0 < season
      → (vs : List F) × (holt_winters_forecast season alpha beta gamma values days ≡ some vs)
        × (length vs ≡ days)
  unfolding holt_winters_forecast
  holt_winters_forecast-in_range values days p =
      elim (Bool-cases (ltb (length values) (2 * season))) [
        | inl few ↦ (replicate days (fl.of_nat 0), rw few refl, length-replicate days (fl.of_nat 0))
        | inr many ↦
            let enough : 2 * season ≤ length values = ground arith in
            let (start, begun, room) = initialize-in_range values days enough in
            let (s, e, l) =
              update_all-in_range season (drop season values) start
                (omega (arith, room, length-drop season values)) in
            let (vs, e', l') =
              forecast_days-in_range (length values) s 0 days p (omega arith)
                (omega (arith, room, l)) in
            (vs, rw (many, begun, e, e') refl, l')
      ]
