-- ===== src/Collector/Backoff.antt =====
-- pkg/collector/backoff.go: retries with exponential backoff and jitter. The function that is
-- retried is known by the outcome of each call, the context by whether it is cancelled during the
-- wait after it, and `math/rand` by the numbers drawn. Delays are in nanoseconds.
pub mod Ends
use text.Mathlib.Text.{find?}
use eks_financial_orchestrat.Common.{
  ℕ, zero, suc, ◌+◌, ◌*◌, ◌^◌, String, Bool, true, false, not, ◌||◌, Option, none, some, List, [],
  ◌∷◌, ◌++◌, ltb, leb, nat_eq, ◌==◌, if◌then◌else◌,
}
use eks_financial_orchestrat.Common.Float.{Float, ◌⊕◌, ◌⊖◌, ◌⊗◌}

-- What the code asks of an error: the code of a `smithy.APIError` and the HTTP status, where
-- `errors.As` finds them, and the text.
pub record CallError : Type 0 where
  pub api_code : Option String
  pub http_status : Option ℕ
  pub text : String

abbrev pub contains : String → String → Bool
contains s part = elim (find? s part) [ some _ ↦ true | none ↦ false ]

abbrev pub is_throttling_code : String → Bool
is_throttling_code code =
    (code == "Throttling")
    || ((code == "ThrottlingException")
        || ((code == "RequestLimitExceeded") || (code == "TooManyRequestsException")))

abbrev pub is_transient_text : String → Bool
is_transient_text text =
    contains text "connection reset"
    || (contains text "connection refused" || contains text "i/o timeout")

abbrev pub is_retryable_status : ℕ → Bool
is_retryable_status status = nat_eq status 429 || leb 500 status

-- `isRetryableError` of an error that is not nil
unfoldable pub is_retryable_error : CallError → Bool
is_retryable_error e = elim e.api_code [
  | some code ↦ elim e.http_status [
    | some status ↦ is_retryable_status status
    | none ↦ is_throttling_code code
  ]
  | none ↦ is_transient_text e.text
]

pub data RetryError : Type 0 where
  context_cancelled : RetryError
  call_failed : CallError → RetryError

-- What the function, the context and the random numbers did.
pub record Calls (F : Type 0) : Type 0 where
  pub outcome : ℕ → Option CallError
  pub done : ℕ → Bool
  pub random : ℕ → F

pub record Retried : Type 0 where
  pub error : Option RetryError
  pub calls : ℕ
  pub delays : List ℕ

abbrev pub base_delay : ℕ
base_delay = 1_000_000_000

abbrev pub max_delay : ℕ
max_delay = 32_000_000_000

module _ {F : Type 0} ⦃fl : Float F⦄ where
  -- The delay after an attempt, for a random number of [0, 1).
  unfoldable pub delay_after : ℕ → F → ℕ
  delay_after attempt random =
      let raw = base_delay * 2 ^ attempt in
      let capped = if ltb max_delay raw then max_delay else raw in
      let range = fl.of_nat capped ⊗ fl.ratio 25 100 in
      let offset = (random ⊗ fl.of_nat 2 ⊖ fl.of_nat 1) ⊗ range in
      fl.to_int (fl.of_nat capped ⊕ offset)

  module _ (c : Calls F) (max_retries : ℕ) where
    abbrev pub finish : Option RetryError → ℕ → List ℕ → Retried
    finish e n ds = record { error = e; calls = n; delays = ds }

    -- The loop with `rounds` passes left, from `attempt`; `last` is `lastErr`.
    unfoldable pub retry_from : ℕ → ℕ → Option RetryError → List ℕ → Retried
    retry_from zero attempt last delays = finish last attempt delays
    retry_from (suc rounds) attempt last delays = elim (c.outcome attempt) [
      | none ↦ finish none (attempt + 1) delays
      | some e ↦
          let failed = some (call_failed e) in
          let delays' = delays ++ (delay_after attempt (c.random attempt) ∷ []) in
          let next = retry_from rounds (attempt + 1) failed delays' in
          if not (is_retryable_error e)
          then finish failed (attempt + 1) delays
          else if nat_eq attempt max_retries
          then finish failed (attempt + 1) delays
          else if c.done attempt
          then finish (some context_cancelled) (attempt + 1) delays'
          else next
    ]

    -- `retryWithBackoff`
    unfoldable pub retry_with_backoff : Retried
    unfolding retry_from
    retry_with_backoff = retry_from (max_retries + 1) 0 none []
