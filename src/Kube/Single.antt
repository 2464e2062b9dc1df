-- ===== src/Kube/Single.antt =====
-- An API server that holds at most one policy.
use eks_financial_orchestrat.Common.{
  String, Bool, true, ◌&&◌, ◌≡◌, refl, sym, ap, subst, ◌∙◌, Bool-cases, inl, inr, ◌↔◌, Option, none,
  some, List, [], ◌∷◌, arith, ◌==◌, eq_iff, if◌then◌else◌, All,
}
use eks_financial_orchestrat.Common.Fixed.{Fixed, fixed_float}
use eks_financial_orchestrat.Common.Result.{Result, ok, err}
use eks_financial_orchestrat.Kube.{
  KubeClient, IsApiServer, ApiError, not_found, other, defaulted, SameMeta,
}
use eks_financial_orchestrat.Types.{FinancialPolicySpec, FinancialPolicyStatus, FinancialPolicy}

abbrev pub Policy : Type 0
Policy = FinancialPolicy Fixed

abbrev pub Slot : Type 0
Slot = Option Policy

abbrev pub is_at : String → String → Policy → Bool
is_at ns n p = (p.namespace == ns) && (p.name == n)

abbrev pub keep : Bool → Policy → List Policy
keep b p = if b then p ∷ [] else []

abbrev pub server_get : String → String → Slot → Result ApiError Policy
server_get ns n none = err not_found
server_get ns n (some p) = if is_at ns n p then ok p else err not_found

abbrev pub server_list : Option String → Slot → Result ApiError (List Policy)
server_list ns none = ok []
server_list none (some p) = ok (p ∷ [])
server_list (some ns) (some p) = ok (keep (p.namespace == ns) p)

abbrev pub accepted : Policy → FinancialPolicyStatus Fixed → Policy
accepted p st = record p { spec = defaulted p.spec; status = st }

-- A status decoded into another, where they differ in the phase alone.
abbrev pub decoded :
    FinancialPolicyStatus Fixed → FinancialPolicyStatus Fixed → FinancialPolicyStatus Fixed
decoded st into = record st { phase = if st.phase == "" then into.phase else st.phase }

abbrev pub server_create : Policy → Slot → Result ApiError Policy × Slot
server_create p none = (ok (accepted p p.status), some (accepted p p.status))
server_create p (some old) = (err (other "exists"), some old)

abbrev pub server_update : Policy → Slot → Result ApiError Policy × Slot
server_update p none = (err not_found, none)
server_update p (some old) =
    if is_at p.namespace p.name old
    then (ok (accepted p (decoded old.status p.status)), some (accepted p old.status))
    else (err not_found, some old)

abbrev pub with_status : Policy → FinancialPolicyStatus Fixed → Policy
with_status p st = record p { status = st }

abbrev pub server_status : Policy → Slot → Result ApiError Policy × Slot
server_status p none = (err not_found, none)
server_status p (some old) =
    if is_at p.namespace p.name old
    then (ok (with_status old p.status), some (with_status old p.status))
    else (err not_found, some old)

abbrev pub server : KubeClient Fixed Slot
server = record {
  get = server_get;
  list = server_list;
  create = server_create;
  update = server_update;
  status_update = server_status;
}

pub is_at_iff :
    (ns n : String) (p : Policy) → (is_at ns n p ≡ true) ↔ ((p.namespace ≡ ns) × (p.name ≡ n))
is_at_iff ns n p = ground (arith, eq_iff p.namespace ns, eq_iff p.name n)

pub get_self : (p : Policy) → server_get p.namespace p.name (some p) ≡ ok p
get_self p = ground (arith, eq_iff p.namespace p.namespace, eq_iff p.name p.name)

pub own_meta :
    (p : Policy) (s : FinancialPolicySpec Fixed) (st : FinancialPolicyStatus Fixed)
    → SameMeta p (record p { spec = s; status = st })
own_meta p s st = record { name = refl; namespace = refl; annotation = λ k. refl }

pub ok_inj : {E A : Type 0} {a b : A} → ◌≡◌ {A = Result E A} (ok a) (ok b) → a ≡ b
ok_inj e = ground arith

pub stored_as :
    (p : Policy) (s : FinancialPolicySpec Fixed) (st : FinancialPolicyStatus Fixed) (s' : Slot)
    → ◌≡◌ {A = Slot} (some (record p { spec = s; status = st })) s'
    → (r : Policy) × (server_get p.namespace p.name s' ≡ ok r) × SameMeta p r × (r.spec ≡ s)
stored_as p s st s' e =
    let r : Policy = record p { spec = s; status = st } in
    (r, rw⁻¹ e (get_self r), own_meta p s st, refl)

pub create_stores_lem :
    (p q : Policy) (s s' : Slot)
    → server_create p s ≡ (ok q, s')
    → (r : Policy) × (server_get p.namespace p.name s' ≡ ok r)
      × SameMeta p r
      × (r.spec ≡ defaulted p.spec)
create_stores_lem p q none s' e = stored_as p (defaulted p.spec) p.status s' (ap (λ t. t.1) e)
create_stores_lem p q (some old) s' e = cc

pub update_lem :
    (p q : Policy) (s s' : Slot)
    → server_update p s ≡ (ok q, s')
    → (r : Policy) × (server_get p.namespace p.name s' ≡ ok r)
      × SameMeta p r
      × (r.spec ≡ defaulted p.spec)
update_lem p q none s' e = cc
update_lem p q (some cur) s' e = elim (Bool-cases (is_at p.namespace p.name cur)) [
  | inl t ↦ stored_as p (defaulted p.spec) cur.status s' (ap (λ t. t.1) (rw t at e))
  | inr f ↦ cc (rw f at e)
]

pub answer_lem :
    (p q old : Policy) (s s' : Slot) (phase : String)
    → server_update p s ≡ (ok q, s')
    → server_get p.namespace p.name s ≡ ok old
    → p.status ≡ (let st = old.status in record st { phase = phase })
    → SameMeta p q
      × (q.status ≡ (
          let st = old.status in record st { phase = if st.phase == "" then phase else st.phase }))
answer_lem p q old none s' phase e h hs = cc
answer_lem p q old (some cur) s' phase e h hs = elim (Bool-cases (is_at p.namespace p.name cur)) [
  | inl t ↦
      let same : accepted p (decoded cur.status p.status) ≡ q =
        ok_inj (ap (λ t. t.0) (rw t at e)) in
      let here : cur ≡ old = ok_inj (rw t at h) in
      (
        subst (SameMeta p) same (own_meta p (defaulted p.spec) (decoded cur.status p.status)),
        sym (ap (λ q. q.status) same)
            ∙ ap (λ c. decoded c.status p.status) here
            ∙ ap (λ st. decoded old.status st) hs,
      )
  | inr f ↦ cc
]

pub status_lem :
    (p q old : Policy) (s s' : Slot)
    → server_status p s ≡ (ok q, s')
    → server_get p.namespace p.name s ≡ ok old
    → (r : Policy) × (server_get p.namespace p.name s' ≡ ok r)
      × SameMeta old r
      × (r.spec ≡ old.spec)
      × (r.status ≡ p.status)
status_lem p q old none s' e h = cc
status_lem p q old (some cur) s' e h = elim (Bool-cases (is_at p.namespace p.name cur)) [
  | inl t ↦
      let same : cur ≡ old = ok_inj (rw t at h) in
      let slot : ◌≡◌ {A = Slot} (some (with_status cur p.status)) s' = ap (λ t. t.1) (rw t at e) in
      (
        with_status old p.status,
        rw⁻¹ slot (rw t (ap (λ c. ok (with_status c p.status)) same)),
        own_meta old old.spec p.status,
        refl,
        refl,
      )
  | inr f ↦ cc
]

pub list_lem :
    (ns : Option String) (s : Slot) (ps : List Policy)
    → server_list ns s ≡ ok ps
    → All (λ p. server_get p.namespace p.name s ≡ ok p) ps
list_lem ns none ps e = subst (All _) (ok_inj e) tt
list_lem none (some p) ps e = subst (All _) (ok_inj e) (get_self p, tt)
list_lem (some ns) (some p) ps e = elim (Bool-cases (p.namespace == ns)) [
  | inl t ↦ subst (All _) (ok_inj (rw t at e)) (get_self p, tt)
  | inr f ↦ subst (All _) (ok_inj (rw f at e)) tt
]

pub get_lem :
    (ns n : String) (s : Slot) (p : Policy)
    → server_get ns n s ≡ ok p
    → (p.namespace ≡ ns) × (p.name ≡ n)
get_lem ns n none p e = cc
get_lem ns n (some cur) p e = elim (Bool-cases (is_at ns n cur)) [
  | inl t ↦ let same : cur ≡ p = ok_inj (rw t at e) in rw same at ((is_at_iff ns n cur).0 t)
  | inr f ↦ cc (rw f at e)
]

pub server-IsApiServer : IsApiServer server
server-IsApiServer = record {
  create_stores = create_stores_lem;
  update_stores = update_lem;
  update_answers = answer_lem;
  status_update_stores = status_lem;
  list_reads = list_lem;
  get_names = get_lem;
}
