-- ===== src/Policy/Manager/Rollback.antt =====
-- What `RollbackPolicy` leaves on the API server.
use eks_financial_orchestrat.Common.{
  ℕ, ◌+◌, String, ◌≡◌, refl, ap, ◌∙◌, none, some, inl, inr, List, nat_eq, nat_eq_iff, ◌==◌, eq_iff,
  if◌then◌else◌, find, find-eq_some, get_elem?-All, get_elem?,
}
use eks_financial_orchestrat.Common.Result.{
  Result, map_err, or_err-eq-ok, ok, err, >>=-eq-ok, map_err-eq-ok, Result-cases,
}
use eks_financial_orchestrat.Kube.{KubeClient, IsApiServer, ApiError, defaulted}
use eks_financial_orchestrat.Types.{Time, FinancialPolicy}
use eks_financial_orchestrat.Policy.Manager.{
  PolicyVersion, HistoryCodec, list_failed, policy_not_found, version_not_found,
  status_update_failed, history_text, append_version_history, parse_version_history,
  find_policy_by_name, find_version, rolled_back, roll_back, write_status, finish_rollback,
  rollback_policy,
}
use eks_financial_orchestrat.Policy.Manager.History.{
  IsCodec, IsVersioned, append_version_history-trims, successor-IsVersioned, stored_text,
}
use eks_financial_orchestrat.Policy.Manager.Apply.{write_error-eq-none}

module _ {F S : Type 0} (client : KubeClient F S) (json : HistoryCodec F) where
  -- `new` stands on the server in state `s'` where `old` stood before: it has the spec of an entry
  -- of the old history with the version asked for, under the version after the old one, in one run
  -- with its history. Its status is the old one, where an empty phase has become RolledBack.
  pub record IsRolledBack (version : ℕ) (old new : FinancialPolicy F) (s' : S) : Type 0 where
    pub history : List (PolicyVersion F)
    pub parsed : parse_version_history json old ≡ ok history
    pub target : PolicyVersion F
    pub position : ℕ
    pub in_history : get_elem? history position ≡ some target
    pub asked : target.version ≡ version
    pub stored : client.get old.namespace old.name s' ≡ ok new
    pub spec :
        new.spec ≡ defaulted (let t = target.spec in record t { version = old.spec.version + 1 })
    pub versioned : IsVersioned json new
    pub status : new.status ≡ (
        let st = old.status in
        record st { phase = if st.phase == "" then "RolledBack" else st.phase })

module _ {F : Type 0} where
  find_version-eq_ok :
      (name : String) (version : ℕ) (h : List (PolicyVersion F)) (t : PolicyVersion F)
      → find_version name version h ≡ ok t
      → (t.version ≡ version) × ((i : ℕ) × (get_elem? h i ≡ some t))
  find_version-eq_ok name version h t e =
      let there =
        or_err-eq-ok (find (λ x. nat_eq x.version version) h) (version_not_found version name) e in
      let (same, at_i) = find-eq_some (λ x. nat_eq x.version version) h there in
      ((nat_eq_iff t.version version).0 same, at_i)

write_status-eq-none :
    {F S : Type 0} (client : KubeClient F S) (r : Result ApiError (FinancialPolicy F) × S) {s' : S}
    → write_status client r ≡ (none, s')
    → (q : FinancialPolicy F) × (s : S) × (r ≡ (ok q, s))
      × ((new : FinancialPolicy F) × (client.status_update q s ≡ (ok new, s')))
write_status-eq-none client (ok q, s) e =
    (q, s, refl, write_error-eq-none status_update_failed (client.status_update q s) e)
write_status-eq-none client (err x, s) e = cc

module _ {F S : Type 0} (client : KubeClient F S) (json : HistoryCodec F) where
  -- The lookup reads an object that stands under its own name, and that is the name asked for.
  pub find_policy_by_name-eq_ok :
      IsApiServer client
      → (name : String) (s : S) (p : FinancialPolicy F) → find_policy_by_name client name s ≡ ok p
      → (client.get p.namespace p.name s ≡ ok p) × (p.name ≡ name)
  unfolding find_policy_by_name
  find_policy_by_name-eq_ok server name s p e =
      let (ps, listed, found) = >>=-eq-ok (map_err list_failed (client.list none s)) _ e in
      let reads = server.list_reads none s ps (map_err-eq-ok list_failed _ listed) in
      let there = or_err-eq-ok (find (λ q. q.name == name) ps) (policy_not_found name) found in
      let (named, (i, at_i)) = find-eq_some (λ q. q.name == name) ps there in
      (
        get_elem?-All (λ p. client.get p.namespace p.name s ≡ ok p) ps i reads at_i,
        (eq_iff p.name name).0 named,
      )

  -- What a successful rollback computes before it writes.
  roll_back-eq_ok :
      (now : Time) (name : String) (version : ℕ) (old n : FinancialPolicy F)
      → roll_back json now name version old ≡ ok n
      → (h : List (PolicyVersion F)) × (t : PolicyVersion F) × (archived : FinancialPolicy F)
        × (parse_version_history json old ≡ ok h)
        × (find_version name version h ≡ ok t)
        × (append_version_history json now old ≡ ok archived)
        × (n ≡ rolled_back old t archived)
  unfolding roll_back
  roll_back-eq_ok now name version old n e =
      let (h, parsed, e₁) = >>=-eq-ok (parse_version_history json old) _ e in
      let (t, found, e₂) = >>=-eq-ok (find_version name version h) _ e₁ in
      let (archived, appended, e₃) = >>=-eq-ok (append_version_history json now old) _ e₂ in
      (h, t, archived, parsed, found, appended, cc)

  module _ (server : IsApiServer client) (codec : IsCodec json) where
    write_rollback-IsRolledBack :
        (now : Time) (name : String) (version : ℕ) (old n : FinancialPolicy F) (s s' : S)
        → client.get old.namespace old.name s ≡ ok old
        → IsVersioned json old
        → roll_back json now name version old ≡ ok n
        → write_status client (client.update n s) ≡ (none, s')
        → (new : FinancialPolicy F) × IsRolledBack client json version old new s'
    write_rollback-IsRolledBack now name version old n s s' read v e w =
        let (h, t, archived, parsed, found, appended, same) =
          roll_back-eq_ok now name version old n e in
        let (asked, (i, at_i)) = find_version-eq_ok name version h t found in
        let (_, text, _, kept, _) =
          append_version_history-trims json codec now old archived appended in
        let (q, s₁, sent, (new, accepted)) = write_status-eq-none client (client.update n s) w in
        let name_n : n.name ≡ old.name = ap (λ n. n.name) same ∙ ap (λ n. n.name) kept in
        let namespace_n : n.namespace ≡ old.namespace =
          ap (λ n. n.namespace) same ∙ ap (λ n. n.namespace) kept in
        let (updated, stored, meta, spec) = server.update_stores n q s s₁ sent in
        let (names, answer) =
          server.update_answers n q old s s₁ "RolledBack" sent (rw (namespace_n, name_n) read)
            (ap (λ n. n.status) same) in
        let (kept_at, stored', meta', spec', status') =
          server.status_update_stores q new updated s₁ s' accepted
            (rw (names.namespace, names.name) stored) in
        let whole = spec' ∙ spec ∙ ap (λ n. defaulted n.spec) same in
        let texts =
          stored_text updated kept_at meta' ∙ stored_text n updated meta ∙ ap history_text same in
        (
          kept_at,
          record {
            history = h;
            parsed = parsed;
            target = t;
            position = i;
            in_history = at_i;
            asked = asked;
            stored = rw (names.namespace ∙ namespace_n, names.name ∙ name_n) at stored';
            spec = whole;
            versioned =
                successor-IsVersioned json codec now old archived kept_at v appended texts
                  (ap (λ s. s.version) whole);
            status = status' ∙ answer;
          },
        )

    -- When the policy found under the name has its history and version numbered in one run, a
    -- successful `RollbackPolicy` leaves it with the spec of an entry of its history that has the
    -- version asked for (an absent mode made advisory), under the version after its own, again
    -- numbered in one run with its history. Its status stays as it was, but for an empty phase, which
    -- becomes RolledBack: the code sets this phase, but `Update` ignores the status it is given, and
    -- its response puts the stored phase, if there is one, back into the object.
    pub rollback_policy-IsRolledBack :
        (now : Time) (name : String) (version : ℕ) (old : FinancialPolicy F) (s s' : S)
        → find_policy_by_name client name s ≡ ok old
        → IsVersioned json old
        → rollback_policy client json now name version s ≡ (none, s')
        → (new : FinancialPolicy F) × IsRolledBack client json version old new s'
    unfolding rollback_policy
    rollback_policy-IsRolledBack now name version old s s' found v e =
        let e' = rw found at e in
        elim (Result-cases (roll_back json now name version old)) [
          | inl (n, computed) ↦
              write_rollback-IsRolledBack now name version old n s s'
                (find_policy_by_name-eq_ok server name s old found).0 v computed
                (rw (computed, finish_rollback) at e')
          | inr (x, failed) ↦ cc (ap (λ t. t.0) (rw (failed, finish_rollback) at e'))
        ]
