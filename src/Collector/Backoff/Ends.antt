-- ===== src/Collector/Backoff/Ends.antt =====
-- How `retryWithBackoff` ends.
use native.Mathlib.Nat.{zero-add}
use eks_financial_orchestrat.Common.{
  ℕ, zero, suc, ◌+◌, ◌≤◌, ◌<◌, ◌≡◌, refl, sym, subst, ◌⊎◌, true, false, inl, inr, Option, none,
  some, List, [], ◌∷◌, ◌++◌, arith, nat_eq, nat_eq_iff, Bool-cases, Option-cases,
}
use eks_financial_orchestrat.Common.Float.{Float}
use eks_financial_orchestrat.Collector.Backoff.{
  CallError, is_retryable_error, RetryError, context_cancelled, call_failed, Calls, Retried,
  delay_after, finish, retry_from, retry_with_backoff,
}

module _ {F : Type 0} ⦃fl : Float F⦄ (c : Calls F) (max_retries : ℕ) where
  -- Calls 0 to k - 1 failed with errors that can be retried, and no wait after them was cut short.
  abbrev pub Retries : ℕ → Type 0
  Retries zero = Unit
  Retries (suc k) =
      Retries k
      × ((e : CallError) × (c.outcome k ≡ some e) × (is_retryable_error e ≡ true))
      × (c.done k ≡ false)

  -- The ways to end at call k.
  pub data Ends (k : ℕ) (r : Option RetryError) : Type 0 where
    succeeded : c.outcome k ≡ none → r ≡ none → Ends k r
    permanent :
        (e : CallError)
        → c.outcome k ≡ some e
        → is_retryable_error e ≡ false
        → r ≡ some (call_failed e)
        → Ends k r
    gave_up :
        (e : CallError)
        → c.outcome k ≡ some e
        → is_retryable_error e ≡ true
        → k ≡ max_retries
        → r ≡ some (call_failed e)
        → Ends k r
    interrupted :
        (e : CallError)
        → c.outcome k ≡ some e
        → is_retryable_error e ≡ true
        → k < max_retries
        → c.done k ≡ true
        → r ≡ some context_cancelled
        → Ends k r

  -- The outcome of the loop: it ended at call k.
  pub record EndsAt (k : ℕ) (r : Retried) : Type 0 where
    pub bound : k ≤ max_retries
    pub retries : Retries k
    pub ends : Ends k r.error
    pub calls : r.calls ≡ k + 1

  -- The steps of the loop.
  module _ (rounds attempt : ℕ) (last : Option RetryError) (delays : List ℕ) where
    abbrev loop : Retried
    loop = retry_from c max_retries (suc rounds) attempt last delays

    step_ok : c.outcome attempt ≡ none → loop ≡ finish c max_retries none (attempt + 1) delays
    unfolding retry_from
    step_ok o = ground arith

    module _ (e : CallError) (o : c.outcome attempt ≡ some e) where
      abbrev failed : Option RetryError
      failed = some (call_failed e)

      abbrev delays' : List ℕ
      delays' = delays ++ (delay_after attempt (c.random attempt) ∷ [])

      step_permanent :
          is_retryable_error e ≡ false → loop ≡ finish c max_retries failed (attempt + 1) delays
      unfolding retry_from
      step_permanent p = rw (o, retry_from) (rw p)

      step_last :
          is_retryable_error e ≡ true
          → attempt ≡ max_retries
          → loop ≡ finish c max_retries failed (attempt + 1) delays
      unfolding retry_from
      step_last p l = rw (o, retry_from) (rw (p, (nat_eq_iff attempt max_retries).1 l))

      step_interrupted :
          is_retryable_error e ≡ true
          → attempt < max_retries
          → c.done attempt ≡ true
          → loop ≡ finish c max_retries (some context_cancelled) (attempt + 1) delays'
      unfolding retry_from
      step_interrupted p l d =
          let other : nat_eq attempt max_retries ≡ false = ground arith in
          rw (o, retry_from) (rw (p, other, d))

      step_next :
          is_retryable_error e ≡ true
          → attempt < max_retries
          → c.done attempt ≡ false
          → loop ≡ retry_from c max_retries rounds (attempt + 1) failed delays'
      unfolding retry_from
      step_next p l d =
          let other : nat_eq attempt max_retries ≡ false = ground arith in
          rw (o, retry_from) (rw (p, other, d))

  module _ (rounds attempt : ℕ) (last : Option RetryError) (delays : List ℕ) where
    abbrev Ended : Type 0
    Ended = (k : ℕ) × EndsAt k (loop rounds attempt last delays)

    module _ (bound : attempt ≤ max_retries) (q : Retries attempt) where
      ends_now :
          {r : Option RetryError} {ds : List ℕ}
          → loop rounds attempt last delays ≡ finish c max_retries r (attempt + 1) ds
          → Ends attempt r
          → Ended
      ends_now step ends = (
        attempt,
        subst (EndsAt attempt) (sym step)
            (record { bound = bound; retries = q; ends = ends; calls = refl }),
      )

      -- A call ends the loop, or fails with an error that can be retried.
      ends_or_fails :
          Ended ⊎ ((e : CallError) × (c.outcome attempt ≡ some e) × (is_retryable_error e ≡ true))
      ends_or_fails = elim (Option-cases (c.outcome attempt)) [
        | inl o ↦ inl (ends_now (step_ok rounds attempt last delays o) (succeeded o refl))
        | inr (e, o) ↦ elim (Bool-cases (is_retryable_error e)) [
          | inr p ↦
              inl
                (ends_now (step_permanent rounds attempt last delays e o p) (permanent e o p refl))
          | inl p ↦ inr (e, o, p)
        ]
      ]

  retry_from-EndsAt :
      (rounds attempt : ℕ) (last : Option RetryError) (delays : List ℕ)
      → attempt + rounds ≡ max_retries
      → Retries attempt
      → Ended rounds attempt last delays
  retry_from-EndsAt zero attempt last delays s q =
      let here : attempt ≡ max_retries = omega arith in
      elim (ends_or_fails zero attempt last delays (omega arith) q) [
        | inl ended ↦ ended
        | inr (e, o, p) ↦
            ends_now zero attempt last delays (omega arith) q
              (step_last zero attempt last delays e o p here) (gave_up e o p here refl)
      ]
  retry_from-EndsAt (suc r) attempt last delays s q =
      elim (ends_or_fails (suc r) attempt last delays (omega arith) q) [
        | inl ended ↦ ended
        | inr (e, o, p) ↦ elim (Bool-cases (c.done attempt)) [
          | inl d ↦
              ends_now (suc r) attempt last delays (omega arith) q
                (step_interrupted (suc r) attempt last delays e o p (omega arith) d)
                (interrupted e o p (omega arith) d refl)
          | inr d ↦
              let more : Retries (attempt + 1) =
                let one : attempt + 1 ≡ suc attempt = omega arith in rw one (q, (e, o, p), d) in
              let (k, ended) =
                retry_from-EndsAt r (attempt + 1) (failed (suc r) attempt last delays e o)
                  (delays' (suc r) attempt last delays e o) (omega arith) more in
              (
                k,
                subst (EndsAt k) (sym (step_next (suc r) attempt last delays e o p (omega arith) d))
                    ended,
              )
        ]
      ]

  -- The loop ends at some call k, with k at most `max_retries`, after k + 1 calls in all. The calls
  -- before it failed with retryable errors, and the context was not cancelled in the waits between.
  -- Call k succeeded, and there is no error; or it failed with an error that is not retried, or was
  -- the last one, and its error is returned; or the context was cancelled in the wait after it.
  pub retry_with_backoff_ends : (k : ℕ) × EndsAt k (retry_with_backoff c max_retries)
  unfolding retry_with_backoff
  retry_with_backoff_ends =
      let one : max_retries + 1 ≡ suc max_retries = omega arith in
      rw one (retry_from-EndsAt max_retries 0 none [] (zero-add max_retries) tt)
