-- ===== src/Policy/Manager/Apply.antt =====
-- What `ApplyPolicy` leaves on the API server.
use eks_financial_orchestrat.Common.{
  ℕ, ◌+◌, ◌≡◌, refl, sym, ap, ◌∙◌, ◌≢◌, inl, inr, none, some, List, [], ◌∷◌, arith,
}
use eks_financial_orchestrat.Common.Float.{Float, IsOrdered}
use eks_financial_orchestrat.Common.Result.{Result, ok, err, Result-cases}
use eks_financial_orchestrat.Kube.{KubeClient, IsApiServer, ApiError, not_found, other, defaulted}
use eks_financial_orchestrat.Types.{Time, FinancialPolicy}
use eks_financial_orchestrat.Policy.Validate.{ValidationError, validate_financial_policy}
use eks_financial_orchestrat.Policy.Validate.Exact.{
  IsValidSpec, validate_financial_policy-eq-nil_iff,
}
use eks_financial_orchestrat.Policy.Manager.{
  HistoryCodec, validation_failed, create_failed, update_failed, set_version, history_text,
  write_error, init_version_history, append_version_history, create_policy, write_next, next_policy,
  write_new, write_policy, apply_checked, update_policy, apply_policy,
}
use eks_financial_orchestrat.Policy.Manager.History.{
  IsCodec, IsVersioned, parse_congr, history_text-set_history, successor-IsVersioned, stored_text,
  init_version_history-eq_ok,
}

pub write_error-eq-none {ℓ} :
    {E E' A S : Type ℓ} (f : E → E') (r : Result E A × S) {s : S}
    → write_error f r ≡ (none, s)
    → (a : A) × (r ≡ (ok a, s))
write_error-eq-none f (ok a, s) h = (a, ground arith)
write_error-eq-none f (err e, s) h = cc

module _ {F S : Type 0} ⦃fl : Float F⦄ (client : KubeClient F S) (json : HistoryCodec F) where
  -- The version that a write gives to the policy.
  abbrev pub next_version : Result ApiError (FinancialPolicy F) → ℕ
  next_version (ok old) = old.spec.version + 1
  next_version (err e) = 1

  -- A policy that is not valid is refused with its errors, and nothing is written.
  pub apply_policy_refuses :
      IsOrdered F
      → (now : Time) (p : FinancialPolicy F) (s : S) → ¬ IsValidSpec p.spec
      → (errs : List (ValidationError F)) × (errs ≢ [])
        × (apply_policy client json now p s ≡ (some (validation_failed errs), s))
  unfolding apply_policy
  apply_policy_refuses laws now p s bad = go (validate_financial_policy p) refl
    where
      go :
          (es : List (ValidationError F))
          → validate_financial_policy p ≡ es
          → (errs : List (ValidationError F)) × (errs ≢ [])
            × (apply_policy client json now p s ≡ (some (validation_failed errs), s))
      go [] e = absurd (bad ((validate_financial_policy-eq-nil_iff laws p).0 e))
      go (x ∷ xs) e = (x ∷ xs, λ q. cc, rw (e, apply_policy))

  module _ (server : IsApiServer client) (codec : IsCodec json) where
    pub update_policy-IsVersioned :
        (now : Time) (p old : FinancialPolicy F) (s s' : S)
        → IsVersioned json old
        → update_policy client json now p old s ≡ (none, s')
        → (q : FinancialPolicy F) × (client.get p.namespace p.name s' ≡ ok q)
          × (q.spec ≡ defaulted (set_version p (old.spec.version + 1)).spec)
          × IsVersioned json q
    update_policy-IsVersioned now p old s s' v e =
        elim (Result-cases (append_version_history json now old)) [
          | inl (archived, ea) ↦
              let n = next_policy p old archived in
              let (q, sent) =
                write_error-eq-none update_failed (client.update n s) (rw (ea, write_next) at e) in
              let (r, stored, same, spec) = server.update_stores n q s s' sent in
              let text =
                stored_text n r same
                ∙ history_text-set_history (set_version p (old.spec.version + 1))
                    (history_text archived) in
              (
                r,
                stored,
                spec,
                successor-IsVersioned json codec now old archived r v ea text
                    (ap (λ t. t.version) spec),
              )
          | inr (x, ex) ↦ cc (ap (λ t. t.0) (rw (ex, write_next) at e))
        ]

    create_policy-IsVersioned :
        (p : FinancialPolicy F) (s s' : S)
        → create_policy client json p s ≡ (none, s')
        → (q : FinancialPolicy F) × (client.get p.namespace p.name s' ≡ ok q)
          × (q.spec ≡ defaulted (set_version p 1).spec)
          × IsVersioned json q
    create_policy-IsVersioned p s s' e =
        elim (Result-cases (init_version_history json (set_version p 1))) [
          | inl (n, en) ↦
              let (q, sent) =
                write_error-eq-none create_failed (client.create n s) (rw (en, write_new) at e) in
              let (r, stored, same, spec) = server.create_stores n q s s' sent in
              let (t, written, parsed) =
                init_version_history-eq_ok json codec (set_version p 1) n en in
              (
                r,
                rw (ap (λ n. n.namespace) written, ap (λ n. n.name) written) at stored,
                spec ∙ ap (λ n. defaulted n.spec) written,
                record {
                  history = [];
                  first = 1;
                  parsed = parse_congr json r n (stored_text n r same) ∙ parsed;
                  run = sym (ap (λ s. s.version) spec ∙ ap (λ n. n.spec.version) written);
                  bounded = omega arith;
                },
              )
          | inr (x, ex) ↦ cc (ap (λ t. t.0) (rw (ex, write_new) at e))
        ]

    -- If no policy is stored under the name, or the history and the version of the stored one are
    -- numbered in one run, then a successful `ApplyPolicy` leaves the given spec on the server (with
    -- an absent mode made advisory), under version 1 for a new policy and otherwise under the version
    -- after the stored one, and again with its history and version numbered in one run.
    pub apply_policy-IsVersioned :
        (now : Time) (p : FinancialPolicy F) (s s' : S)
        → ((old : FinancialPolicy F)
            → client.get p.namespace p.name s ≡ ok old
            → IsVersioned json old)
        → apply_policy client json now p s ≡ (none, s')
        → (q : FinancialPolicy F) × (client.get p.namespace p.name s' ≡ ok q)
          × (q.spec
              ≡ defaulted (set_version p (next_version (client.get p.namespace p.name s))).spec)
          × IsVersioned json q
    unfolding apply_policy
    apply_policy-IsVersioned now p s s' v e = apply_checked_go (validate_financial_policy p) e
      where
        wrote :
            (r : Result ApiError (FinancialPolicy F))
            → client.get p.namespace p.name s ≡ r
            → write_policy client json now p s r ≡ (none, s')
            → (q : FinancialPolicy F) × (client.get p.namespace p.name s' ≡ ok q)
              × (q.spec ≡ defaulted (set_version p (next_version r)).spec)
              × IsVersioned json q
        wrote (ok old) r h = update_policy-IsVersioned now p old s s' (v old r) h
        wrote (err not_found) r h = create_policy-IsVersioned p s s' h
        wrote (err (other x)) r h = cc

        apply_checked_go :
            (es : List (ValidationError F))
            → apply_checked client json now p s es ≡ (none, s')
            → (q : FinancialPolicy F) × (client.get p.namespace p.name s' ≡ ok q)
              × (q.spec
                  ≡ defaulted (set_version p (next_version (client.get p.namespace p.name s))).spec)
              × IsVersioned json q
        apply_checked_go [] h = wrote (client.get p.namespace p.name s) refl h
        apply_checked_go (x ∷ xs) h = cc
