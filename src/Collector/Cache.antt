-- ===== src/Collector/Cache.antt =====
-- pkg/collector/cache.go, and `FetchAWSCosts` of collector.go with its fallback to the cache. Times
-- and durations are in nanoseconds; the lock is left out. `now` is `time.Now()`.
pub mod Fresh
use eks_financial_orchestrat.Common.{
  ℕ, ◌-◌, ◌*◌, String, true, Option, none, some, ltb, if◌then◌else◌,
}
use eks_financial_orchestrat.Common.Result.{Result, ok, err}
use eks_financial_orchestrat.Types.{Time}
use eks_financial_orchestrat.Collector.Costs.{AwsCostData}

abbrev pub default_cache_ttl : ℕ
default_cache_ttl = 30 * 60 * 1_000_000_000

pub record CostCache (F : Type 0) : Type 0 where
  pub data_stored : Option (AwsCostData F)
  pub stored_at : Time
  pub ttl : ℕ

-- `E` is the type of the errors of the fetcher.
pub data FetchError (E : Type 0) : Type 0 where
  not_configured bucket_not_configured : FetchError E
  no_cache : E → FetchError E
  cur_failed : E → FetchError E

module _ {F : Type 0} where
  -- `NewCostCache`
  unfoldable pub new_cost_cache : CostCache F
  new_cost_cache = record { data_stored = none; stored_at = 0; ttl = default_cache_ttl }

  abbrev pub expired : CostCache F → Time → Option (AwsCostData F)
  expired c now = if ltb c.ttl (now - c.stored_at) then none else c.data_stored

  -- `Get`
  unfoldable pub get_cached : CostCache F → Time → Option (AwsCostData F)
  get_cached c now = elim c.data_stored [ none ↦ none | some d ↦ expired c now ]

  -- `Set`
  unfoldable pub set_cached : CostCache F → Time → AwsCostData F → CostCache F
  set_cached c now d = record c { data_stored = some d; stored_at = now }

  -- The copy that is marked as approximate.
  abbrev pub approximate : AwsCostData F → AwsCostData F
  approximate d = record d { is_approximate = true }

  abbrev pub refresh : Option (CostCache F) → Time → AwsCostData F → Option (CostCache F)
  refresh none now d = none
  refresh (some c) now d = some (set_cached c now d)

  module _ {E : Type 0} where
    -- What a failed call falls back to.
    unfoldable pub fall_back :
        E → Option (CostCache F) → Time → Result (FetchError E) (AwsCostData F)
    unfolding get_cached
    fall_back e none now = err (no_cache e)
    fall_back e (some c) now = elim (get_cached c now) [
      | some d ↦ ok (approximate d)
      | none ↦ err (no_cache e)
    ]

    -- `FetchAWSCosts`: what it returns and the cache that it leaves. The fetcher, where there is one,
    -- is known by the result of `FetchCosts`.
    unfoldable pub fetch_aws_costs :
        Option (Result E (AwsCostData F))
        → Option (CostCache F)
        → Time
        → Result (FetchError E) (AwsCostData F) × Option (CostCache F)
    unfolding fall_back set_cached
    fetch_aws_costs none cache now = (err not_configured, cache)
    fetch_aws_costs (some (ok d)) cache now = (ok d, refresh cache now d)
    fetch_aws_costs (some (err e)) cache now = (fall_back e cache now, cache)
