-- ===== src/Kube.antt =====
-- The Kubernetes API client (controller-runtime, not part of the repository) for policies, as a
-- parameter: its calls over a state `S` of the server, and what the API documents of them.
pub mod Single
use eks_financial_orchestrat.Common.{String, ◌≡◌, Option, List, All, ◌==◌, if◌then◌else◌}
use eks_financial_orchestrat.Common.Result.{Result, ok}
use eks_financial_orchestrat.Common.Dict.{get}
use eks_financial_orchestrat.Types.{
  FinancialPolicySpec, FinancialPolicy, annotations_of, policy_mode_advisory,
}

-- `not_found` is what `errors.IsNotFound` recognises.
pub data ApiError : Type 0 where
  not_found : ApiError
  other : String → ApiError

-- A write returns the object that was given, with the response decoded into it: a field that the
-- response omits, as it is empty, keeps its value.
pub record KubeClient (F S : Type 0) : Type 0 where
  pub get : String → String → S → Result ApiError (FinancialPolicy F)
  pub list : Option String → S → Result ApiError (List (FinancialPolicy F))
  pub create : FinancialPolicy F → S → Result ApiError (FinancialPolicy F) × S
  pub update : FinancialPolicy F → S → Result ApiError (FinancialPolicy F) × S
  pub status_update : FinancialPolicy F → S → Result ApiError (FinancialPolicy F) × S

module _ {F : Type 0} where
  -- The schema's default: an absent mode is stored as advisory.
  abbrev pub defaulted : FinancialPolicySpec F → FinancialPolicySpec F
  defaulted s = record s { mode = if s.mode == "" then policy_mode_advisory else s.mode }

  -- The stored object `q` has the name and the annotations of `p`.
  pub record SameMeta (p q : FinancialPolicy F) : Type 0 where
    pub name : q.name ≡ p.name
    pub namespace : q.namespace ≡ p.namespace
    pub annotation : (k : String) → get k (annotations_of q) ≡ get k (annotations_of p)

module _ {F S : Type 0} where
  -- A read returns next what an accepted write has stored. The status is a subresource: `update`
  -- keeps the status that is stored, and `status_update` keeps all the rest.
  pub record IsApiServer (c : KubeClient F S) : Type 0 where
    pub create_stores :
        (p q : FinancialPolicy F) (s s' : S)
        → c.create p s ≡ (ok q, s')
        → (r : FinancialPolicy F) × (c.get p.namespace p.name s' ≡ ok r)
          × SameMeta p r
          × (r.spec ≡ defaulted p.spec)
    pub update_stores :
        (p q : FinancialPolicy F) (s s' : S)
        → c.update p s ≡ (ok q, s')
        → (r : FinancialPolicy F) × (c.get p.namespace p.name s' ≡ ok r)
          × SameMeta p r
          × (r.spec ≡ defaulted p.spec)
    -- The response to an update has the stored status, without a phase that is empty: then the
    -- object keeps the phase that it has.
    pub update_answers :
        (p q old : FinancialPolicy F) (s s' : S) (phase : String)
        → c.update p s ≡ (ok q, s')
        → c.get p.namespace p.name s ≡ ok old
        → p.status ≡ (let st = old.status in record st { phase = phase })
        → SameMeta p q
          × (q.status ≡ (
              let st = old.status in
              record st { phase = if st.phase == "" then phase else st.phase }))
    pub status_update_stores :
        (p q old : FinancialPolicy F) (s s' : S)
        → c.status_update p s ≡ (ok q, s')
        → c.get p.namespace p.name s ≡ ok old
        → (r : FinancialPolicy F) × (c.get p.namespace p.name s' ≡ ok r)
          × SameMeta old r
          × (r.spec ≡ old.spec)
          × (r.status ≡ p.status)
    -- A listed or fetched object is the one stored under its name, and bears the name asked for.
    pub list_reads :
        (ns : Option String) (s : S) (ps : List (FinancialPolicy F))
        → c.list ns s ≡ ok ps
        → All (λ p. c.get p.namespace p.name s ≡ ok p) ps
    pub get_names :
        (ns n : String) (s : S) (p : FinancialPolicy F)
        → c.get ns n s ≡ ok p
        → (p.namespace ≡ ns) × (p.name ≡ n)
