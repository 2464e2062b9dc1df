-- ===== src/Policy/Manager/Queries.antt =====
-- What `GetPolicyHistory` and `GetActivePolicy` return.
use mathlib.Core.List.{Perm}
use mathlib.Core.List.Perm
use mathlib.Core.Option.{some-injective}
use eks_financial_orchestrat.Common.{
  ℕ, ◌+◌, ◌≤◌, String, ◌≡◌, refl, ap, ◌∙◌, ◌≢◌, ◌⊎◌, false, Option, none, some, inl, inr, List, [],
  ◌∷◌, ◌++◌, arith, ltb, eq_iff, find, get_elem?, All, find-eq_some, find-eq_none, Option-cases,
  Bool-cases,
}
use eks_financial_orchestrat.Common.Dict.{or_zero}
use eks_financial_orchestrat.Common.Result.{ok, ◌>>=◌}
use eks_financial_orchestrat.Kube.{KubeClient}
use eks_financial_orchestrat.Types.{Time, FinancialPolicy, policy_phase_active}
use eks_financial_orchestrat.Policy.Manager.{
  PolicyVersion, HistoryCodec, parse_version_history, current_version, insert_version,
  sort_versions, is_active, pick_active, find_policy_by_name, get_policy_history, get_active_policy,
}
use eks_financial_orchestrat.Policy.Manager.History.{IsVersioned, IsRun, IsRun-append}

module _ {F : Type 0} where
  abbrev pub IsAscending : List (PolicyVersion F) → Type 0
  IsAscending [] = Unit
  IsAscending (e ∷ es) = All (λ x. e.version ≤ x.version) es × IsAscending es

  All-insert_version :
      (n : ℕ) (e : PolicyVersion F) (h : List (PolicyVersion F))
      → n ≤ e.version
      → All (λ x. n ≤ x.version) h
      → All (λ x. n ≤ x.version) (insert_version e h)
  All-insert_version n e [] l a = (l, tt)
  All-insert_version n e (x ∷ h) l (b, a) = elim (Bool-cases (ltb x.version e.version)) [
    | inl t ↦ rw t (b, All-insert_version n e h l a)
    | inr f ↦ rw f (l, (b, a))
  ]

  All-le :
      (m n : ℕ) (h : List (PolicyVersion F))
      → m ≤ n
      → All (λ x. n ≤ x.version) h
      → All (λ x. m ≤ x.version) h
  All-le m n [] l a = tt
  All-le m n (x ∷ h) l (b, a) = (omega arith, All-le m n h l a)

  insert_version-IsAscending :
      (e : PolicyVersion F) (h : List (PolicyVersion F))
      → IsAscending h
      → IsAscending (insert_version e h)
  insert_version-IsAscending e [] a = (tt, tt)
  insert_version-IsAscending e (x ∷ h) (b, a) = elim (Bool-cases (ltb x.version e.version)) [
    | inl t ↦
        rw t (All-insert_version x.version e h (ground arith) b, insert_version-IsAscending e h a)
    | inr f ↦ rw f (
        let l : e.version ≤ x.version = ground arith in
        ((l, All-le e.version x.version h l b), (b, a)))
  ]

  sort_versions-IsAscending : (h : List (PolicyVersion F)) → IsAscending (sort_versions h)
  sort_versions-IsAscending [] = tt
  sort_versions-IsAscending (e ∷ h) =
      insert_version-IsAscending e (sort_versions h) (sort_versions-IsAscending h)

  insert_version-perm :
      (e : PolicyVersion F) (h : List (PolicyVersion F)) → Perm (insert_version e h) (e ∷ h)
  insert_version-perm e [] = Perm.refl (e ∷ [])
  insert_version-perm e (x ∷ h) = elim (Bool-cases (ltb x.version e.version)) [
    | inl t ↦ rw t (Perm.trans (Perm.cons x (insert_version-perm e h)) (Perm.swap e x h))
    | inr f ↦ rw f (Perm.refl (e ∷ x ∷ h))
  ]

  sort_versions-perm : (h : List (PolicyVersion F)) → Perm (sort_versions h) h
  sort_versions-perm [] = Perm.refl []
  sort_versions-perm (e ∷ h) =
      Perm.trans (insert_version-perm e (sort_versions h)) (Perm.cons e (sort_versions-perm h))

  -- A run is sorted already.
  sort_versions-IsRun : (a b : ℕ) (h : List (PolicyVersion F)) → IsRun a h b → sort_versions h ≡ h
  sort_versions-IsRun a b [] r = refl
  sort_versions-IsRun a b (e ∷ []) r = refl
  sort_versions-IsRun a b (e ∷ x ∷ h) (p, q, r) =
      rw (sort_versions-IsRun (a + 1) b (x ∷ h) r) (ground arith)

  not_active :
      (items : List (FinancialPolicy F))
      → All (λ p. is_active p ≡ false) items
      → All (λ p. p.status.phase ≢ policy_phase_active) items
  not_active [] a = tt
  not_active (p ∷ ps) (h, a) =
      (λ e. cc (h, (eq_iff p.status.phase policy_phase_active).1 e), not_active ps a)

  -- An active item, or the first where none is active.
  abbrev pub IsPicked : List (FinancialPolicy F) → FinancialPolicy F → Type 0
  IsPicked items q =
      (((i : ℕ) × (get_elem? items i ≡ some q)) × (q.status.phase ≡ policy_phase_active))
      ⊎ ((get_elem? items 0 ≡ some q) × All (λ p. p.status.phase ≢ policy_phase_active) items)

  pick_active-IsPicked :
      (items : List (FinancialPolicy F)) (q : FinancialPolicy F)
      → pick_active items ≡ some q
      → IsPicked items q
  pick_active-IsPicked [] q e = cc
  pick_active-IsPicked (p ∷ ps) q e = elim (Option-cases (find is_active (p ∷ ps))) [
    | inl missing ↦
        let first : p ≡ q = some-injective _ _ (rw (missing, or_zero) at e) in
        inr (ap some first, not_active (p ∷ ps) (find-eq_none is_active (p ∷ ps) missing))
    | inr (x, there) ↦
        let same : x ≡ q = some-injective _ _ (rw (there) at e) in
        let (active, at_i) = find-eq_some is_active (p ∷ ps) (there ∙ ap some same) in
        inl (at_i, (eq_iff q.status.phase policy_phase_active).0 active)
  ]

  -- What is picked from a list: nothing from the empty list only.
  abbrev pub Picks : List (FinancialPolicy F) → Option (FinancialPolicy F) → Type 0
  Picks items none = items ≡ []
  Picks items (some q) = IsPicked items q

  pick_active-Picks : (items : List (FinancialPolicy F)) → Picks items (pick_active items)
  pick_active-Picks [] = refl
  pick_active-Picks (p ∷ ps) =
      pick_active-IsPicked (p ∷ ps) (or_zero p (find is_active (p ∷ ps))) refl

module _ {F S : Type 0} (client : KubeClient F S) (json : HistoryCodec F) where
  -- The history of a policy that is found and whose annotation parses is, in ascending order of
  -- version, the entries of the annotation and the present spec, each as often as there.
  pub get_policy_history-perm :
      (now : Time) (name : String) (s : S) (p : FinancialPolicy F) (h : List (PolicyVersion F))
      → find_policy_by_name client name s ≡ ok p
      → parse_version_history json p ≡ ok h
      → (r : List (PolicyVersion F)) × (get_policy_history client json now name s ≡ ok r)
        × IsAscending r
        × Perm r (h ++ (current_version now p ∷ []))
  unfolding get_policy_history
  get_policy_history-perm now name s p h found parsed =
      let all = h ++ (current_version now p ∷ []) in
      (
        sort_versions all,
        rw (found, ◌>>=◌) (rw (parsed, ◌>>=◌)),
        sort_versions-IsAscending all,
        sort_versions-perm all,
      )

  -- Where the annotation and the version of a policy are numbered in one run, the sort changes
  -- nothing: the history ends with the present spec, and is again one run.
  pub get_policy_history-IsVersioned :
      (now : Time) (name : String) (s : S) (p : FinancialPolicy F)
      → find_policy_by_name client name s ≡ ok p
      → (v : IsVersioned json p)
      → (get_policy_history client json now name s ≡ ok (v.history ++ (current_version now p ∷ [])))
        × IsRun v.first (v.history ++ (current_version now p ∷ [])) (p.spec.version + 1)
  unfolding get_policy_history
  get_policy_history-IsVersioned now name s p found v =
      let all = v.history ++ (current_version now p ∷ []) in
      let run =
        IsRun-append v.first p.spec.version v.history (current_version now p) v.run refl refl in
      (
        rw (found, ◌>>=◌)
            (rw (v.parsed, ◌>>=◌)
              (ap ok (sort_versions-IsRun v.first (p.spec.version + 1) all run))),
        run,
      )

  -- What `GetActivePolicy` picks from the listed policies: nothing exactly when there are none, and
  -- otherwise an active one, or the first one where none is active.
  pub get_active_policy_lem :
      (namespace : String) (s : S) (items : List (FinancialPolicy F))
      → client.list (some namespace) s ≡ ok items
      → (r : Option (FinancialPolicy F)) × (get_active_policy client namespace s ≡ ok r)
        × Picks items r
  unfolding get_active_policy
  get_active_policy_lem namespace s items listed =
      (pick_active items, rw (listed, ◌>>=◌), pick_active-Picks items)
