-- ===== src/Collector/Cache/Fresh.antt =====
-- What `FetchAWSCosts` returns after any calls before it: the cache never forgets the last good data,
-- and never gives it out late.
use eks_financial_orchestrat.Common.{
  ◌-◌, ◌≤◌, ◌<◌, ◌≡◌, refl, inl, inr, Option, none, some, List, [], ◌∷◌, arith, ltb, Bool-cases,
}
use eks_financial_orchestrat.Common.Result.{Result, ok, err}
use eks_financial_orchestrat.Types.{Time}
use eks_financial_orchestrat.Collector.Costs.{AwsCostData}
use eks_financial_orchestrat.Collector.Cache.{
  CostCache, FetchError, no_cache, new_cost_cache, get_cached, set_cached, approximate, fall_back,
  fetch_aws_costs, default_cache_ttl,
}

-- The calls so far, the latest first, each with its time and what AWS answered.
abbrev pub Calls : Type 0 → Type 0 → Type 0
Calls F E = List (Time × Result E (AwsCostData F))

-- The cache after them.
abbrev pub cache_after : {F E : Type 0} → Calls F E → Option (CostCache F)
cache_after [] = some new_cost_cache
cache_after ((t, answer) ∷ calls) = (fetch_aws_costs (some answer) (cache_after calls) t).1

-- The last good answer and its time.
abbrev pub last_good : {F E : Type 0} → Calls F E → Option (Time × AwsCostData F)
last_good [] = none
last_good ((t, ok d) ∷ calls) = some (t, d)
last_good ((t, err e) ∷ calls) = last_good calls

-- The cache holds the last good answer.
abbrev pub Holds : {F : Type 0} → Option (Time × AwsCostData F) → CostCache F → Type 0
Holds none c = c.data_stored ≡ none
Holds (some (t, d)) c = (c.data_stored ≡ some d) × (c.stored_at ≡ t)

-- What a call at the time `now` may return, by AWS's answer to it and the last good one before it.
pub data Returns {F E : Type 0} (now : Time)
    : Result E (AwsCostData F)
      → Option (Time × AwsCostData F)
      → Result (FetchError E) (AwsCostData F)
      → Type 0 where
  good : (d : AwsCostData F) (l : Option (Time × AwsCostData F)) → Returns now (ok d) l (ok d)
  fresh :
      (e : E) (t : Time) (d : AwsCostData F)
      → now - t ≤ default_cache_ttl
      → Returns now (err e) (some (t, d)) (ok (approximate d))
  stale :
      (e : E) (t : Time) (d : AwsCostData F)
      → default_cache_ttl < now - t
      → Returns now (err e) (some (t, d)) (err (no_cache e))
  nothing : (e : E) → Returns now (err e) none (err (no_cache e))

module _ {F E : Type 0} where
  cache_after-Holds :
      (calls : Calls F E)
      → (c : CostCache F) × (cache_after calls ≡ some c)
        × (c.ttl ≡ default_cache_ttl)
        × Holds (last_good calls) c
  unfolding new_cost_cache fetch_aws_costs
  cache_after-Holds [] = (new_cost_cache, refl, refl, refl)
  cache_after-Holds ((t, ok d) ∷ calls) =
      let (c, same, ttl, _) = cache_after-Holds calls in
      (set_cached c t d, rw same refl, ttl, (refl, refl))
  cache_after-Holds ((t, err e) ∷ calls) = cache_after-Holds calls

  pub fall_back-Returns :
      (e : E) (c : CostCache F) (now : Time) (l : Option (Time × AwsCostData F))
      → c.ttl ≡ default_cache_ttl
      → Holds l c
      → Returns now (err e) l (fall_back e (some c) now)
  unfolding fall_back get_cached
  fall_back-Returns e c now none ttl h = rw h (nothing e)
  fall_back-Returns e c now (some (t, d)) ttl (h, k) =
      elim (Bool-cases (ltb default_cache_ttl (now - t))) [
        | inl late ↦ rw (h, k, ttl) (rw (fall_back, late) (stale e t d (ground arith)))
        | inr soon ↦ rw (h, k, ttl) (rw (fall_back, soon) (fresh e t d (ground arith)))
      ]

  -- With a fetcher and a cache that was new before the calls so far, a call that AWS answers
  -- returns that answer. A call that fails returns the last good answer, marked as approximate, if
  -- it is at most 30 minutes old, and an error otherwise, or if there was no good answer; the
  -- failed calls since then make no difference.
  pub fetch_aws_costs-Returns :
      (calls : Calls F E) (now : Time) (answer : Result E (AwsCostData F))
      → Returns now answer
          (last_good calls)
          (fetch_aws_costs (some answer) (cache_after calls) now).0
  unfolding fetch_aws_costs
  fetch_aws_costs-Returns calls now (ok d) = good d (last_good calls)
  fetch_aws_costs-Returns calls now (err e) =
      let (c, same, ttl, h) = cache_after-Holds calls in
      rw same (fall_back-Returns e c now (last_good calls) ttl h)
