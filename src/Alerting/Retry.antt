-- ===== src/Alerting/Retry.antt =====
-- How often `sendWithRetry` tries, how long it waits, and what it returns.
use native.Mathlib.Nat.{zero-add}
use eks_financial_orchestrat.Common.{
  ℕ, zero, suc, ◌+◌, ◌-◌, ◌^◌, ◌≤◌, ◌<◌, String, ◌≡◌, ◌∙◌, true, false, Option, none, some, List,
  [], ◌∷◌, ◌++◌, arith,
}
use eks_financial_orchestrat.Alerting.{
  Behaviour, cancelled, exhausted, delivery, retry_from, send_with_retry,
}

-- The waits before attempts 1 to k: 1, 2, 4, ... seconds.
abbrev pub backoffs : ℕ → List ℕ
backoffs zero = []
backoffs (suc k) = backoffs k ++ (2 ^ k ∷ [])

module _ (b : Behaviour) (max_retries : ℕ) where
  -- The attempts below k all failed, and no wait before them was cut short.
  pub record FailedBelow (k : ℕ) : Type 0 where
    pub failed : (i : ℕ) → i < k → (e : String) × (b.outcome i ≡ some e)
    pub waiting : (i : ℕ) → i < k → 0 < i → b.done i ≡ false

  -- The error of the attempt before k.
  abbrev pub last_error : ℕ → Option String
  last_error zero = none
  last_error (suc k) = b.outcome k

  -- A failed attempt leads to the next one.
  retry_from_failed :
      (rounds k : ℕ) (e : String)
      → b.outcome k ≡ some e
      → (0 < k → b.done k ≡ false)
      → retry_from b max_retries (suc rounds) k (last_error k) (backoffs (k - 1))
        ≡ retry_from b max_retries rounds (k + 1) (last_error (k + 1)) (backoffs k)
  unfolding retry_from
  retry_from_failed rounds zero e o d = ground arith
  retry_from_failed rounds (suc k) e o d = ground (arith, d)

  succeeded :
      (rounds k : ℕ)
      → (0 < k → b.done k ≡ false)
      → b.outcome k ≡ none
      → retry_from b max_retries (suc rounds) k (last_error k) (backoffs (k - 1))
        ≡ delivery b max_retries none (k + 1) (backoffs k)
  unfolding retry_from
  succeeded rounds zero d o = ground arith
  succeeded rounds (suc k) d o = ground (arith, d)

  interrupted :
      (rounds k : ℕ)
      → 0 < k
      → b.done k ≡ true
      → retry_from b max_retries (suc rounds) k (last_error k) (backoffs (k - 1))
        ≡ delivery b max_retries (some cancelled) k (backoffs k)
  unfolding retry_from
  interrupted rounds zero p d = elim p [ ]
  interrupted rounds (suc k) p d = ground arith

  -- After k failed attempts the loop stands at attempt k.
  retry_from_skip :
      (k rounds : ℕ)
      → FailedBelow k
      → retry_from b max_retries (k + rounds) 0 none []
        ≡ retry_from b max_retries rounds k (last_error k) (backoffs (k - 1))
  retry_from_skip zero rounds f = rw zero-add
  retry_from_skip (suc k) rounds f =
      let (e, o) = f.failed k (omega arith) in
      let fewer : FailedBelow k = record {
        failed = λ i l. f.failed i (omega arith);
        waiting = λ i l p. f.waiting i (omega arith) p;
      } in
      let step = retry_from_failed rounds k e o (λ p. f.waiting k (omega arith) p) in
      let shift : suc k + rounds ≡ k + suc rounds = omega arith in
      let one : k + 1 ≡ suc k = omega arith in
      let back : suc k - 1 ≡ k = omega arith in
      rw (shift, back) (retry_from_skip k (suc rounds) fewer ∙ (rw one at step))

  -- If attempt k, no later than the last one, is the first to succeed, and the context is not
  -- cancelled before it, no error is returned: after k + 1 calls and waits of 1, 2, 4, ... seconds.
  pub send_with_retry_succeeds :
      (k : ℕ)
      → k ≤ max_retries
      → FailedBelow k
      → (0 < k → b.done k ≡ false)
      → b.outcome k ≡ none
      → send_with_retry b max_retries ≡ record { error = none; sends = k + 1; waits = backoffs k }
  unfolding send_with_retry
  send_with_retry_succeeds k l f d o =
      let split : max_retries + 1 ≡ k + suc (max_retries - k) = omega arith in
      rw split (retry_from_skip k (suc (max_retries - k)) f ∙ succeeded (max_retries - k) k d o)

  -- If the context is cancelled in the wait before attempt k, which is one of the retries, and if no
  -- attempt before it succeeded and no wait before that one was cut short, then the sender is not
  -- called again after its k calls, and the error says that the context was cancelled.
  pub send_with_retry_cancelled :
      (k : ℕ)
      → 0 < k
      → k ≤ max_retries
      → FailedBelow k
      → b.done k ≡ true
      → send_with_retry b max_retries
        ≡ record { error = some cancelled; sends = k; waits = backoffs k }
  unfolding send_with_retry
  send_with_retry_cancelled k p l f d =
      let split : max_retries + 1 ≡ k + suc (max_retries - k) = omega arith in
      rw split (retry_from_skip k (suc (max_retries - k)) f ∙ interrupted (max_retries - k) k p d)

  -- If all `max_retries + 1` attempts fail and the context is never cancelled, the last error is
  -- returned, and there are no more calls.
  pub send_with_retry_exhausts :
      FailedBelow (max_retries + 1)
      → send_with_retry b max_retries ≡ record {
        error = some (exhausted max_retries (b.outcome max_retries));
        sends = max_retries + 1;
        waits = backoffs max_retries;
      }
  unfolding send_with_retry retry_from
  send_with_retry_exhausts f =
      let all = retry_from_skip (max_retries + 1) zero f in
      let whole : max_retries + 1 + 0 ≡ max_retries + 1 = omega arith in
      let next : max_retries + 1 ≡ suc max_retries = omega arith in
      let last : last_error (max_retries + 1) ≡ b.outcome max_retries = rw next in
      let back : max_retries + 1 - 1 ≡ max_retries = omega arith in rw (whole, last, back) at all
