-- ===== src/Policy/Manager/History.antt =====
-- The version history that is kept in an annotation: what `appendVersionHistory` makes of it, and
-- the numbering that the history and the current version share.
use eks_financial_orchestrat.Common.{
  ℕ, zero, suc, ◌+◌, ◌-◌, ◌≤◌, String, ◌≡◌, refl, sym, subst, ap, ◌∙◌, ◌≢◌, inl, inr, List, [], ◌∷◌,
  ◌++◌, arith, ltb, eq_iff, length, drop, length-drop, Bool-cases,
}
use eks_financial_orchestrat.Common.Dict.{get, get-put, or_zero, get-put_self}
use eks_financial_orchestrat.Common.Result.{ok, map_err, >>=-eq-ok, map_err-eq-ok}
use eks_financial_orchestrat.Kube.{SameMeta}
use eks_financial_orchestrat.Types.{Time, FinancialPolicy, annotations_of}
use eks_financial_orchestrat.Policy.Manager.{
  PolicyVersion, HistoryCodec, marshal_failed, init_history_failed, max_version_history,
  version_history_annotation, history_text, set_history, trim, current_version,
  parse_version_history, append_version_history, init_version_history,
}

-- Decoding gives back what was encoded, and no encoding is the empty text. (The times in a spec are
-- those in whole seconds.)
pub record IsCodec {F : Type 0} (json : HistoryCodec F) : Type 0 where
  pub round_trip :
      (h : List (PolicyVersion F)) (t : String)
      → json.marshal h ≡ ok t
      → (json.unmarshal t ≡ ok h) × (t ≢ "")

module _ {F : Type 0} where
  -- The entries have the versions a, a + 1, and so on up to b - 1.
  abbrev pub IsRun : ℕ → List (PolicyVersion F) → ℕ → Type 0
  IsRun a [] b = a ≡ b
  IsRun a (e ∷ es) b = (e.version ≡ a) × (e.spec.version ≡ a) × IsRun (a + 1) es b

  pub IsRun-append :
      (a b : ℕ) (h : List (PolicyVersion F)) (e : PolicyVersion F)
      → IsRun a h b
      → e.version ≡ b
      → e.spec.version ≡ b
      → IsRun a (h ++ (e ∷ [])) (b + 1)
  IsRun-append a b [] e r p q = (omega arith, omega arith, omega arith)
  IsRun-append a b (x ∷ h) e (p, q, r) v w = (p, q, IsRun-append (a + 1) b h e r v w)

  pub IsRun-drop :
      (n a b : ℕ) (h : List (PolicyVersion F))
      → n ≤ length h
      → IsRun a h b
      → IsRun (a + n) (drop n h) b
  IsRun-drop zero a b h l r = let e : a + 0 ≡ a = omega arith in rw e r
  IsRun-drop (suc n) a b [] l r = elim l [ ]
  IsRun-drop (suc n) a b (x ∷ h) l (p, q, r) =
      let e : a + suc n ≡ a + 1 + n = omega arith in rw e (IsRun-drop n (a + 1) b h (omega arith) r)

  pub history_text-set_history :
      (p : FinancialPolicy F) (t : String) → history_text (set_history p t) ≡ t
  history_text-set_history p t =
      ap (or_zero "") (get-put_self version_history_annotation t (annotations_of p))

  -- A stored object has the history of the object that was sent.
  pub stored_text : (n q : FinancialPolicy F) → SameMeta n q → history_text q ≡ history_text n
  stored_text n q m = ap (or_zero "") (m.annotation version_history_annotation)

  -- Trimming keeps a run a run, with at most ten entries.
  pub IsRun-trim :
      (a b : ℕ) (h : List (PolicyVersion F))
      → IsRun a h b
      → (a' : ℕ) × IsRun a' (trim h) b × (length (trim h) ≤ max_version_history)
  IsRun-trim a b h r = elim (Bool-cases (ltb max_version_history (length h))) [
    | inl long ↦ rw long (
      a + (length h - max_version_history),
      IsRun-drop (length h - max_version_history) a b h (omega arith) r,
      ground (arith, length-drop (length h - max_version_history) h),
    )
    | inr short ↦ rw short (a, r, ground arith)
  ]

  module _ (json : HistoryCodec F) where
    -- The history and the current version are numbered in one run, and no more than ten old
    -- versions are kept.
    pub record IsVersioned (p : FinancialPolicy F) : Type 0 where
      pub history : List (PolicyVersion F)
      pub first : ℕ
      pub parsed : parse_version_history json p ≡ ok history
      pub run : IsRun first history p.spec.version
      pub bounded : length history ≤ max_version_history

    -- Parsing reads the annotation alone.
    pub parse_congr :
        (p q : FinancialPolicy F)
        → history_text p ≡ history_text q
        → parse_version_history json p ≡ parse_version_history json q
    unfolding parse_version_history
    parse_congr p q e = rw e

    module _ (codec : IsCodec json) where
      parse-set_history :
          (p : FinancialPolicy F) (h : List (PolicyVersion F)) (t : String)
          → json.marshal h ≡ ok t
          → parse_version_history json (set_history p t) ≡ ok h
      unfolding parse_version_history
      parse-set_history p h t e =
          let back = codec.round_trip h t e in
          rw (history_text-set_history p t) (ground (arith, back, eq_iff t ""))

      pub append_version_history-trims :
          (now : Time) (p q : FinancialPolicy F)
          → append_version_history json now p ≡ ok q
          → (h : List (PolicyVersion F)) × (t : String) × (parse_version_history json p ≡ ok h)
            × (q ≡ set_history p t)
            × (parse_version_history json q ≡ ok (trim (h ++ (current_version now p ∷ []))))
      unfolding append_version_history
      append_version_history-trims now p q e =
          let entry : List (PolicyVersion F) = current_version now p ∷ [] in
          let (h, parsed, e₁) = >>=-eq-ok (parse_version_history json p) _ e in
          let (t, encoded, e₂) =
            >>=-eq-ok (map_err marshal_failed (json.marshal (trim (h ++ entry)))) _ e₁ in
          let written = map_err-eq-ok marshal_failed (json.marshal (trim (h ++ entry))) encoded in
          let same : q ≡ set_history p t = cc in
          (
            h,
            t,
            parsed,
            same,
            ap (parse_version_history json) same
                ∙ parse-set_history p (trim (h ++ entry)) t written,
          )

      trim_lem : (h : List (PolicyVersion F)) → trim h ≡ drop (length h - 10) h
      trim_lem h = elim (Bool-cases (ltb max_version_history (length h))) [
        | inl long ↦ rw long refl
        | inr short ↦ let few : length h - 10 ≡ 0 = ground arith in rw (short, few) refl
      ]

      other_annotation :
          (p : FinancialPolicy F) (t k : String)
          → k ≢ "finops.eks.io/version-history"
          → get k (annotations_of (set_history p t)) ≡ get k (annotations_of p)
      other_annotation p t k other = ground (
        arith,
        get-put k "finops.eks.io/version-history" t (annotations_of p),
        eq_iff "finops.eks.io/version-history" k,
      )

      -- A successful append leaves all of the policy alone but the annotation
      -- finops.eks.io/version-history; if the history was `h`, the new one is `h` with the current
      -- version behind it, less all but the last ten entries.
      pub append_version_history-eq_ok :
          (now : Time) (p q : FinancialPolicy F)
          → append_version_history json now p ≡ ok q
          → (h : List (PolicyVersion F)) × (parse_version_history json p ≡ ok h)
            × (q ≡ record p { annotations = q.annotations })
            × ((k : String)
                → k ≢ "finops.eks.io/version-history"
                → get k (annotations_of q) ≡ get k (annotations_of p))
            × (let now_last : PolicyVersion F = record {
              version = p.spec.version;
              spec = p.spec;
              timestamp = now;
            } in
                let whole = h ++ (now_last ∷ []) in
                parse_version_history json q ≡ ok (drop (length whole - 10) whole))
      append_version_history-eq_ok now p q e =
          let (h, t, before, same, after) = append_version_history-trims now p q e in
          let back : set_history p t ≡ q = sym same in
          (
            h,
            before,
            subst (λ q. q ≡ record p { annotations = q.annotations }) back refl,
            subst
                (λ q.
                  (k : String)
                  → k ≢ "finops.eks.io/version-history"
                  → get k (annotations_of q) ≡ get k (annotations_of p))
                back (other_annotation p t),
            rw (trim_lem (h ++ (current_version now p ∷ []))) at after,
          )

      -- A new policy starts with no history.
      pub init_version_history-eq_ok :
          (p q : FinancialPolicy F)
          → init_version_history json p ≡ ok q
          → (t : String) × (q ≡ set_history p t) × (parse_version_history json q ≡ ok [])
      unfolding init_version_history
      init_version_history-eq_ok p q e =
          let (t, encoded, e₁) = >>=-eq-ok (map_err init_history_failed (json.marshal [])) _ e in
          let same : q ≡ set_history p t = cc in
          let written = map_err-eq-ok init_history_failed (json.marshal []) encoded in
          (t, same, ap (parse_version_history json) same ∙ parse-set_history p [] t written)

      -- Archiving the present spec of a policy whose version then goes up by one keeps the
      -- numbering, whatever else changes.
      pub successor-IsVersioned :
          (now : Time) (old archived new : FinancialPolicy F)
          → IsVersioned old
          → append_version_history json now old ≡ ok archived
          → history_text new ≡ history_text archived
          → new.spec.version ≡ old.spec.version + 1
          → IsVersioned new
      successor-IsVersioned now old archived new v e same next =
          let (h, t, parsed, _, parsed') = append_version_history-trims now old archived e in
          let here : h ≡ v.history = cc (v.parsed) in
          let run =
            IsRun-append v.first old.spec.version v.history (current_version now old) v.run refl
              refl in
          let (a, run', bound) = IsRun-trim v.first (old.spec.version + 1) _ run in
          record {
            history = trim (v.history ++ (current_version now old ∷ []));
            first = a;
            parsed = rw here at (parse_congr new archived same ∙ parsed');
            run = rw next run';
            bounded = bound;
          }
