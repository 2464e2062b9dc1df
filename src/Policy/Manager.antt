-- ===== src/Policy/Manager.antt =====
-- pkg/policy/manager.go and the `PolicyVersion` of types.go: `DefaultPolicyManager` over a
-- Kubernetes client. A method with a receiver takes the client and the server's state, and returns
-- its error, if any, with the new state. `now` is `time.Now()`.
pub mod History
pub mod Apply
pub mod Rollback
pub mod Queries
pub mod Undo
use eks_financial_orchestrat.Common.{
  ℕ, suc, ◌+◌, ◌-◌, String, Bool, true, false, Option, none, some, List, [], ◌∷◌, ◌++◌, ltb, nat_eq,
  ◌==◌, if◌then◌else◌, length, drop, find,
}
use eks_financial_orchestrat.Common.Dict.{Dict, get, put, or_zero}
use eks_financial_orchestrat.Common.Float.{Float}
use eks_financial_orchestrat.Common.Result.{Result, ok, err, ◌>>=◌, map_err, or_err}
use eks_financial_orchestrat.Kube.{KubeClient, ApiError, not_found, other}
use eks_financial_orchestrat.Types.{
  Time, FinancialPolicySpec, FinancialPolicy, annotations_of, policy_phase_active,
  policy_phase_rolled_back,
}
use eks_financial_orchestrat.Policy.Validate.{ValidationError, validate_financial_policy}

abbrev pub version_history_annotation : String
version_history_annotation = "finops.eks.io/version-history"

abbrev pub max_version_history : ℕ
max_version_history = 10

pub record PolicyVersion (F : Type 0) : Type 0 where
  pub version : ℕ
  pub spec : FinancialPolicySpec F
  pub timestamp : Time

-- `json.Marshal` and `json.Unmarshal` at `[]PolicyVersion`.
pub record HistoryCodec (F : Type 0) : Type 0 where
  pub marshal : List (PolicyVersion F) → Result String String
  pub unmarshal : String → Result String (List (PolicyVersion F))

pub data PolicyError (F : Type 0) : Type 0 where
  validation_failed : List (ValidationError F) → PolicyError F
  get_failed list_failed create_failed update_failed status_update_failed : ApiError → PolicyError F
  init_history_failed unmarshal_failed marshal_failed : String → PolicyError F
  policy_not_found : String → PolicyError F
  version_not_found : ℕ → String → PolicyError F

module _ {F : Type 0} where
  abbrev pub history_text : FinancialPolicy F → String
  history_text p = or_zero "" (get version_history_annotation (annotations_of p))

  abbrev pub set_history : FinancialPolicy F → String → FinancialPolicy F
  set_history p text = record p {
    annotations = some (put version_history_annotation text (annotations_of p));
  }

  abbrev pub set_version : FinancialPolicy F → ℕ → FinancialPolicy F
  set_version p v = let s = p.spec in record p { spec = record s { version = v } }

  -- Keeps the last `max_version_history` entries.
  abbrev pub trim : List (PolicyVersion F) → List (PolicyVersion F)
  trim h = if ltb max_version_history (length h) then drop (length h - max_version_history) h else h

  abbrev pub current_version : Time → FinancialPolicy F → PolicyVersion F
  current_version now p = record { version = p.spec.version; spec = p.spec; timestamp = now }

  module _ (json : HistoryCodec F) where
    -- A nil map, a missing key and an empty text all mean that there is no history.
    unfoldable pub parse_version_history :
        FinancialPolicy F → Result (PolicyError F) (List (PolicyVersion F))
    parse_version_history p =
        let text = history_text p in
        if text == "" then ok [] else map_err unmarshal_failed (json.unmarshal text)

    unfoldable pub init_version_history :
        FinancialPolicy F → Result (PolicyError F) (FinancialPolicy F)
    init_version_history p =
        map_err init_history_failed (json.marshal []) >>= λ text. ok (set_history p text)

    unfoldable pub append_version_history :
        Time → FinancialPolicy F → Result (PolicyError F) (FinancialPolicy F)
    append_version_history now p = do
      history ← parse_version_history p
      text ← map_err marshal_failed (json.marshal (trim (history ++ (current_version now p ∷ []))))
      ok (set_history p text)

-- The first error of a write, with the state that it leaves.
abbrev pub write_error {ℓ} : {E E' A S : Type ℓ} → (E → E') → Result E A × S → Option E' × S
write_error f (ok a, s) = (none, s)
write_error f (err e, s) = (some (f e), s)

module _ {F : Type 0} where
  -- Ascending order of versions.
  abbrev pub insert_version : PolicyVersion F → List (PolicyVersion F) → List (PolicyVersion F)
  insert_version e [] = e ∷ []
  insert_version e (h ∷ hs) =
      let rest = h ∷ insert_version e hs in if ltb h.version e.version then rest else e ∷ h ∷ hs

  -- `sort.Slice(history, func(i, j int) bool { return history[i].Version < history[j].Version })`
  abbrev pub sort_versions : List (PolicyVersion F) → List (PolicyVersion F)
  sort_versions [] = []
  sort_versions (e ∷ es) = insert_version e (sort_versions es)

  -- The first active item, or else the first.
  abbrev pub is_active : FinancialPolicy F → Bool
  is_active p = p.status.phase == policy_phase_active

  abbrev pub pick_active : List (FinancialPolicy F) → Option (FinancialPolicy F)
  pick_active [] = none
  pick_active (p ∷ ps) = some (or_zero p (find is_active (p ∷ ps)))

  -- The policy that is written over `existing`: `policy` with the next version, the history to
  -- which the present spec of `existing` was added, and the resource version of `existing`. (The
  -- test for `existing.Annotations != nil` passes, since the history was just written there.)
  abbrev pub next_policy :
      FinancialPolicy F → FinancialPolicy F → FinancialPolicy F → FinancialPolicy F
  next_policy policy existing archived =
      let next = set_version policy (existing.spec.version + 1) in
      let copied = set_history next (history_text archived) in
      record copied { resource_version = existing.resource_version }

  -- The version that a rollback returns to.
  abbrev pub find_version :
      String → ℕ → List (PolicyVersion F) → Result (PolicyError F) (PolicyVersion F)
  find_version name version history =
      or_err (find (λ h. nat_eq h.version version) history) (version_not_found version name)

  -- The policy that it writes.
  abbrev pub rolled_back :
      FinancialPolicy F → PolicyVersion F → FinancialPolicy F → FinancialPolicy F
  rolled_back policy target archived =
      let status = policy.status in
      let p = record archived {
        spec = target.spec;
        status = record status { phase = policy_phase_rolled_back };
      } in
      set_version p (policy.spec.version + 1)

  unfoldable pub roll_back :
      HistoryCodec F
      → Time
      → String
      → ℕ
      → FinancialPolicy F
      → Result (PolicyError F) (FinancialPolicy F)
  roll_back json now name version policy = do
    history ← parse_version_history json policy
    target ← find_version name version history
    archived ← append_version_history json now policy
    ok (rolled_back policy target archived)

module _ {F S : Type 0} (client : KubeClient F S) where
  abbrev pub write_new : S → Result (PolicyError F) (FinancialPolicy F) → Option (PolicyError F) × S
  write_new s (ok p) = write_error create_failed (client.create p s)
  write_new s (err e) = (some e, s)

  abbrev pub write_next :
      FinancialPolicy F
      → FinancialPolicy F
      → S
      → Result (PolicyError F) (FinancialPolicy F)
      → Option (PolicyError F) × S
  write_next policy existing s (ok archived) =
      write_error update_failed (client.update (next_policy policy existing archived) s)
  write_next policy existing s (err e) = (some e, s)

  unfoldable pub get_active_policy :
      String → S → Result (PolicyError F) (Option (FinancialPolicy F))
  get_active_policy namespace s =
      map_err list_failed (client.list (some namespace) s) >>= λ items. ok (pick_active items)

  unfoldable pub list_policies : S → Result (PolicyError F) (List (FinancialPolicy F))
  list_policies s = map_err list_failed (client.list none s)

  unfoldable pub find_policy_by_name : String → S → Result (PolicyError F) (FinancialPolicy F)
  unfolding list_policies
  find_policy_by_name name s = do
    policies ← list_policies s
    or_err (find (λ p. p.name == name) policies) (policy_not_found name)

  -- `Update`, and then `Status().Update` of the object that `Update` returned.
  abbrev pub write_status : Result ApiError (FinancialPolicy F) × S → Option (PolicyError F) × S
  write_status (ok q, s) = write_error status_update_failed (client.status_update q s)
  write_status (err e, s) = (some (update_failed e), s)

  abbrev pub finish_rollback :
      S → Result (PolicyError F) (FinancialPolicy F) → Option (PolicyError F) × S
  finish_rollback s (ok p) = write_status (client.update p s)
  finish_rollback s (err e) = (some e, s)

  module _ (json : HistoryCodec F) where
    abbrev pub create_policy : FinancialPolicy F → S → Option (PolicyError F) × S
    create_policy policy s = write_new s (init_version_history json (set_version policy 1))

    abbrev pub update_policy :
        Time → FinancialPolicy F → FinancialPolicy F → S → Option (PolicyError F) × S
    update_policy now policy existing s =
        write_next policy existing s (append_version_history json now existing)

    abbrev pub write_policy :
        Time
        → FinancialPolicy F
        → S
        → Result ApiError (FinancialPolicy F)
        → Option (PolicyError F) × S
    write_policy now policy s (ok existing) = update_policy now policy existing s
    write_policy now policy s (err not_found) = create_policy policy s
    write_policy now policy s (err (other e)) = (some (get_failed (other e)), s)

    abbrev pub apply_checked :
        Time → FinancialPolicy F → S → List (ValidationError F) → Option (PolicyError F) × S
    apply_checked now policy s [] =
        write_policy now policy s (client.get policy.namespace policy.name s)
    apply_checked now policy s (e ∷ es) = (some (validation_failed (e ∷ es)), s)

    unfoldable pub apply_policy :
        ⦃fl : Float F⦄ → Time → FinancialPolicy F → S → Option (PolicyError F) × S
    apply_policy now policy s = apply_checked now policy s (validate_financial_policy policy)

    unfoldable pub get_policy_history :
        Time → String → S → Result (PolicyError F) (List (PolicyVersion F))
    get_policy_history now name s = do
      policy ← find_policy_by_name name s
      history ← parse_version_history json policy
      ok (sort_versions (history ++ (current_version now policy ∷ [])))

    unfoldable pub rollback_policy : Time → String → ℕ → S → Option (PolicyError F) × S
    rollback_policy now name version s =
        finish_rollback s (find_policy_by_name name s >>= roll_back json now name version)
