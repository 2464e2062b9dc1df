-- ===== src/Policy/Controller/Verdict.antt =====
-- What a reconciliation leaves in the status of a policy.
use eks_financial_orchestrat.Common.{
  String, ◌≡◌, refl, sym, subst, ◌∙◌, ◌⊎◌, inl, inr, Option, none, some, List, [], ◌∷◌, arith, ◌==◌,
  eq_iff, find, if◌then◌else◌,
}
use eks_financial_orchestrat.Common.Float.{Float, IsOrdered}
use eks_financial_orchestrat.Common.Result.{Result, ok, err}
use eks_financial_orchestrat.Kube.{KubeClient, IsApiServer, ApiError, SameMeta}
use eks_financial_orchestrat.Types.{
  Time, PolicyCondition, FinancialPolicyStatus, FinancialPolicy, policy_phase_active,
  policy_phase_error,
}
use eks_financial_orchestrat.Policy.Validate.{ValidationError, validate_financial_policy}
use eks_financial_orchestrat.Policy.Validate.Exact.{
  IsValidSpec, validate_financial_policy-eq-nil_iff,
}
use eks_financial_orchestrat.Policy.Controller.{
  write_error, set_verdict, condition, set_condition, judge, reconcile_found, reconcile,
}

abbrev pub condition_of : String → List PolicyCondition → Option PolicyCondition
condition_of t cs = find (λ c. c.condition_type == t) cs

-- Setting a condition replaces the condition of its type, and leaves those of other types.
pub condition_of-set_condition :
    (t : String) (new : PolicyCondition) (cs : List PolicyCondition)
    → condition_of t (set_condition new cs)
      ≡ (if new.condition_type == t then some new else condition_of t cs)
unfolding set_condition
condition_of-set_condition t new [] = ground arith
condition_of-set_condition t new (c ∷ cs) = ground (
  arith,
  eq_iff c.condition_type new.condition_type,
  eq_iff c.condition_type t,
  eq_iff new.condition_type t,
  condition_of-set_condition t new cs,
)

-- The status says whether the specification is valid: by the phase, and by the condition "Valid".
abbrev pub HasVerdict : {F : Type 0} → FinancialPolicyStatus F → String → String → Type 0
HasVerdict st phase status =
    (st.phase ≡ phase)
    × ((c : PolicyCondition) × (condition_of "Valid" st.conditions ≡ some c) × (c.status ≡ status))

set_verdict-HasVerdict :
    {F : Type 0} (p : FinancialPolicy F) (phase status reason message : String) (now : Time)
    → HasVerdict (set_verdict p phase (condition now status reason message)).status phase status
set_verdict-HasVerdict p phase status reason message now =
    let c = condition now status reason message in
    (refl, (c, condition_of-set_condition "Valid" c p.status.conditions, refl))

module _ {F S : Type 0} ⦃fl : Float F⦄ (client : KubeClient F S)
    (render : List (ValidationError F) → String) where
  write_error-eq-none :
      (r : Result ApiError (FinancialPolicy F) × S) {s' : S}
      → write_error client render r ≡ (none, s')
      → (q : FinancialPolicy F) × (r ≡ (ok q, s'))
  write_error-eq-none (ok q, s) e = (q, ground arith)
  write_error-eq-none (err x, s) e = cc

  module _ (server : IsApiServer client) (laws : IsOrdered F) where
    verdict_stored :
        (namespace name : String) (s s' : S) (p n : FinancialPolicy F)
        → client.get namespace name s ≡ ok p
        → n.namespace ≡ p.namespace
        → n.name ≡ p.name
        → write_error client render (client.status_update n s) ≡ (none, s')
        → (q : FinancialPolicy F) × (client.get namespace name s' ≡ ok q)
          × SameMeta p q
          × (q.spec ≡ p.spec)
          × (q.status ≡ n.status)
    verdict_stored namespace name s s' p n found ns nm w =
        let (q, sent) = write_error-eq-none (client.status_update n s) w in
        let (own_ns, own_name) = server.get_names namespace name s p found in
        let (r, stored, meta, spec, status) =
          server.status_update_stores n q p s s' sent (rw (ns ∙ own_ns, nm ∙ own_name) found) in
        (r, rw (ns ∙ own_ns, nm ∙ own_name) at stored, meta, spec, status)

    -- A reconciliation that reports no error leaves the name, the namespace, the annotations and
    -- the specification of a policy alone. If the specification is valid, the phase becomes Active and
    -- the condition "Valid" is True; if not, they become Error and False.
    pub reconcile-HasVerdict :
        (now : Time) (namespace name : String) (s s' : S) (p : FinancialPolicy F)
        → client.get namespace name s ≡ ok p
        → reconcile client render now namespace name s ≡ (none, s')
        → (q : FinancialPolicy F) × (client.get namespace name s' ≡ ok q)
          × SameMeta p q
          × (q.spec ≡ p.spec)
          × ((IsValidSpec p.spec × HasVerdict q.status "Active" "True")
              ⊎ ((¬ IsValidSpec p.spec) × HasVerdict q.status "Error" "False"))
    unfolding reconcile
    reconcile-HasVerdict now namespace name s s' p found e =
        go (validate_financial_policy p) refl (rw (found, reconcile_found) at e)
      where
        go :
            (es : List (ValidationError F))
            → validate_financial_policy p ≡ es
            → write_error client render (client.status_update (judge render now p es) s)
              ≡ (none, s')
            → (q : FinancialPolicy F) × (client.get namespace name s' ≡ ok q)
              × SameMeta p q
              × (q.spec ≡ p.spec)
              × ((IsValidSpec p.spec × HasVerdict q.status "Active" "True")
                  ⊎ ((¬ IsValidSpec p.spec) × HasVerdict q.status "Error" "False"))
        go [] valid w =
            let n = judge render now p [] in
            let (q, stored, meta, spec, status) =
              verdict_stored namespace name s s' p n found refl refl w in
            let verdict =
              set_verdict-HasVerdict p policy_phase_active "True" "ValidationPassed"
                "Policy is valid" now in
            (
              q,
              stored,
              meta,
              spec,
              inl (
                (validate_financial_policy-eq-nil_iff laws p).0 valid,
                subst (λ st. HasVerdict st policy_phase_active "True") (sym status) verdict,
              ),
            )
        go (x ∷ xs) invalid w =
            let n = judge render now p (x ∷ xs) in
            let (q, stored, meta, spec, status) =
              verdict_stored namespace name s s' p n found refl refl w in
            let verdict =
              set_verdict-HasVerdict p policy_phase_error "False" "ValidationFailed"
                (render (x ∷ xs)) now in
            (
              q,
              stored,
              meta,
              spec,
              inr (
                λ v. cc (invalid, (validate_financial_policy-eq-nil_iff laws p).1 v),
                subst (λ st. HasVerdict st policy_phase_error "False") (sym status) verdict,
              ),
            )
