-- ===== src/Policy/Manager/Undo.antt =====
-- `ApplyPolicy` followed by `RollbackPolicy` to the version that it replaced.
use eks_financial_orchestrat.Common.{
  ℕ, zero, suc, ◌+◌, ◌-◌, ◌≤◌, ◌≡◌, refl, sym, ap, subst, ◌∙◌, none, some, inl, inr, List, [], ◌∷◌,
  ◌++◌, arith, ltb, length, length-append, drop, get_elem?, Bool-cases,
}
use eks_financial_orchestrat.Common.Float.{Float}
use eks_financial_orchestrat.Common.Result.{Result, ok, Result-cases}
use eks_financial_orchestrat.Kube.{KubeClient, IsApiServer, ApiError, defaulted}
use eks_financial_orchestrat.Types.{Time, FinancialPolicy}
use eks_financial_orchestrat.Policy.Validate.{ValidationError, validate_financial_policy}
use eks_financial_orchestrat.Policy.Manager.{
  PolicyVersion, HistoryCodec, max_version_history, trim, set_version, history_text,
  current_version, parse_version_history, append_version_history, update_failed, next_policy,
  write_next, apply_checked, update_policy, apply_policy, find_policy_by_name, rollback_policy,
}
use eks_financial_orchestrat.Policy.Manager.History.{
  IsCodec, IsRun, IsVersioned, parse_congr, history_text-set_history, stored_text,
  append_version_history-trims,
}
use eks_financial_orchestrat.Policy.Manager.Apply.{write_error-eq-none, update_policy-IsVersioned}
use eks_financial_orchestrat.Policy.Manager.Rollback.{
  IsRolledBack, find_policy_by_name-eq_ok, rollback_policy-IsRolledBack,
}

module _ {F : Type 0} where
  drop-append_one :
      (n : ℕ) (h : List (PolicyVersion F)) (e : PolicyVersion F)
      → n ≤ length h
      → drop n (h ++ (e ∷ [])) ≡ drop n h ++ (e ∷ [])
  drop-append_one zero h e l = refl
  drop-append_one (suc n) [] e l = elim l [ ]
  drop-append_one (suc n) (x ∷ h) e l = drop-append_one n h e (omega arith)

  -- The newest entry is never trimmed.
  trim-append_one :
      (h : List (PolicyVersion F)) (e : PolicyVersion F)
      → (h' : List (PolicyVersion F)) × (trim (h ++ (e ∷ [])) ≡ h' ++ (e ∷ []))
  trim-append_one h e = elim (Bool-cases (ltb max_version_history (length (h ++ (e ∷ []))))) [
    | inl long ↦
        let n = length (h ++ (e ∷ [])) - max_version_history in
        (drop n h, rw long (drop-append_one n h e (omega (arith, length-append h (e ∷ [])))))
    | inr short ↦ (h, rw short refl)
  ]

  -- In a run, the newest version is above those before it, so that its number is its own.
  IsRun-last :
      (a b : ℕ) (h : List (PolicyVersion F)) (e : PolicyVersion F)
      → IsRun a (h ++ (e ∷ [])) b
      → a ≤ e.version
  IsRun-last a b [] e (v, _, _) = omega arith
  IsRun-last a b (x ∷ h) e (_, _, run) = let later = IsRun-last (a + 1) b h e run in omega arith

  IsRun-newest :
      (a b i : ℕ) (h : List (PolicyVersion F)) (e t : PolicyVersion F)
      → IsRun a (h ++ (e ∷ [])) b
      → get_elem? (h ++ (e ∷ [])) i ≡ some t
      → t.version ≡ e.version
      → t ≡ e
  IsRun-newest a b zero [] e t run at_i same = cc
  IsRun-newest a b (suc i) [] e t run at_i same = cc
  IsRun-newest a b zero (x ∷ h) e t (v, _, run) at_i same =
      let later = IsRun-last (a + 1) b h e run in
      let here : x ≡ t = cc in
      let number : x.version ≡ t.version = ap (λ x. x.version) here in absurd (omega arith)
  IsRun-newest a b (suc i) (x ∷ h) e t (_, _, run) at_i same =
      IsRun-newest (a + 1) b i h e t run at_i same

module _ {F S : Type 0} ⦃fl : Float F⦄ (client : KubeClient F S) (json : HistoryCodec F) where
  read_at :
      (q p : FinancialPolicy F) (s : S) (r : Result ApiError (FinancialPolicy F))
      → q.namespace ≡ p.namespace
      → q.name ≡ p.name
      → client.get q.namespace q.name s ≡ r
      → client.get p.namespace p.name s ≡ r
  read_at q p s r e e' read = cc

  -- A successful write of a policy that is stored is an update of it.
  apply_policy-update :
      (now : Time) (p old : FinancialPolicy F) (s s' : S)
      → client.get p.namespace p.name s ≡ ok old
      → apply_policy client json now p s ≡ (none, s')
      → update_policy client json now p old s ≡ (none, s')
  unfolding apply_policy
  apply_policy-update now p old s s' read e = checked (validate_financial_policy p) e
    where
      checked :
          (es : List (ValidationError F))
          → apply_checked client json now p s es ≡ (none, s')
          → update_policy client json now p old s ≡ (none, s')
      checked [] h = rw read at h
      checked (x ∷ xs) h = cc

  module _ (server : IsApiServer client) (codec : IsCodec json) where
    -- The replaced spec is the newest entry of the history that an update leaves.
    update_policy-archives :
        (now : Time) (p old : FinancialPolicy F) (s s' : S)
        → update_policy client json now p old s ≡ (none, s')
        → (q : FinancialPolicy F) × (h : List (PolicyVersion F)) × (client.get p.namespace p.name s'
            ≡ ok q)
          × (parse_version_history json q ≡ ok (h ++ (current_version now old ∷ [])))
    update_policy-archives now p old s s' e =
        elim (Result-cases (append_version_history json now old)) [
          | inl (archived, ea) ↦
              let n = next_policy p old archived in
              let (q, sent) =
                write_error-eq-none update_failed (client.update n s) (rw (ea, write_next) at e) in
              let (r, stored, same, spec) = server.update_stores n q s s' sent in
              let text =
                stored_text n r same
                ∙ history_text-set_history (set_version p (old.spec.version + 1))
                    (history_text archived) in
              let (h, t, parsed, kept, parsed') =
                append_version_history-trims json codec now old archived ea in
              let (h', trimmed) = trim-append_one h (current_version now old) in
              (r, h', stored, parse_congr json r archived text ∙ parsed' ∙ ap ok trimmed)
          | inr (x, ex) ↦ cc (ap (λ t. t.0) (rw (ex, write_next) at e))
        ]

    undone_spec :
        (now : Time) (old found new : FinancialPolicy F) (h : List (PolicyVersion F)) (s'' : S)
        → IsVersioned json found
        → parse_version_history json found ≡ ok (h ++ (current_version now old ∷ []))
        → found.spec.version ≡ old.spec.version + 1
        → IsRolledBack client json old.spec.version found new s''
        → new.spec ≡ defaulted (let t = old.spec in record t { version = old.spec.version + 2 })
    undone_spec now old found new h s'' v parsed next back =
        let entry = current_version now old in
        let run_of : v.history ≡ h ++ (entry ∷ []) = cc (v.parsed) in
        let back_of : back.history ≡ h ++ (entry ∷ []) = cc (back.parsed) in
        let is_entry : back.target ≡ entry =
          IsRun-newest v.first found.spec.version back.position h entry back.target
            (rw run_of at v.run) (rw back_of at back.in_history) back.asked in
        let two : old.spec.version + 1 + 1 ≡ old.spec.version + 2 = omega arith in
        back.spec ∙ rw (is_entry, next, two)

    -- When a policy `old` is stored whose history and version are numbered in one run, `ApplyPolicy`
    -- writes `p` over it, the lookup by name then finds that policy, and `RollbackPolicy` to the
    -- version of `old` succeeds, then the stored policy has the spec of `old` again, under its version
    -- raised by 2 (an absent mode made advisory), and its history and version are numbered in one run.
    pub rollback_policy-apply_policy :
        (now later : Time) (p old found : FinancialPolicy F) (s s' s'' : S)
        → client.get p.namespace p.name s ≡ ok old
        → IsVersioned json old
        → apply_policy client json now p s ≡ (none, s')
        → find_policy_by_name client p.name s' ≡ ok found
        → found.namespace ≡ p.namespace
        → rollback_policy client json later p.name old.spec.version s' ≡ (none, s'')
        → (new : FinancialPolicy F) × (client.get p.namespace p.name s'' ≡ ok new)
          × (new.spec ≡ defaulted (let t = old.spec in record t { version = old.spec.version + 2 }))
          × IsVersioned json new
    rollback_policy-apply_policy now later p old found s s' s'' read v applied looked_up here
          undone =
        let updated = apply_policy-update now p old s s' read applied in
        let (q, h, read_q, parsed_q) = update_policy-archives now p old s s' updated in
        let (q', read_q', spec_q, v_q) =
          update_policy-IsVersioned client json server codec now p old s s' v updated in
        let (read_found, named) =
          find_policy_by_name-eq_ok client json server p.name s' found looked_up in
        let read_here = read_at found p s' (ok found) here named read_found in
        let is_q : q ≡ found = cc in
        let is_q' : q' ≡ found = cc in
        let v_found = subst (IsVersioned json) is_q' v_q in
        let (new, back) =
          rollback_policy-IsRolledBack client json server codec later p.name old.spec.version found
            s' s'' looked_up v_found undone in
        (
          new,
          read_at found p s'' (ok new) here named back.stored,
          undone_spec now old found new h s'' v_found
              (subst (λ f. parse_version_history json f ≡ ok (h ++ (current_version now old ∷ [])))
                is_q parsed_q)
              (ap (λ f. f.spec.version) (sym is_q') ∙ ap (λ t. t.version) spec_q) back,
          back.versioned,
        )
