-- ===== src/Instance/Nodes.antt =====
-- Which pods a spot interruption evicts, and what the counts of nodes are.
use mathlib.Core.Option
use native.Mathlib.Nat.{zero-add}
use eks_financial_orchestrat.Common.{
  ℕ, suc, ◌+◌, String, ◌≡◌, ◌≢◌, ◌↔◌, refl, sym, ap, subst, ◌∙◌, true, false, Option, none, some,
  inl, inr, List, [], ◌∷◌, foldl, select, length, any, All, arith, eq_iff, ◌==◌, Bool-cases, ltb,
}
use eks_financial_orchestrat.Common.Dict.{
  get, group, accumulate, get-group, accumulate-none, get-map_entries,
}
use eks_financial_orchestrat.Common.Float.{Float, ◌⊗◌, ◌⊘◌}
use eks_financial_orchestrat.Common.Result.{ok}
use eks_financial_orchestrat.Types.{Time}
use eks_financial_orchestrat.Instance.{
  PurchaseOptionStats, Node, Pod, is_skipped, evict_all, handle_spot_interruption, classify_node,
  count_node, no_stats, rate, analyze_instance_mix, hourly_cost, hundred, monthly_hours,
}

-- A pod that is to be evicted: no mirror of a static pod, and not owned by a DaemonSet.
pub record IsEvictable (p : Pod) : Type 0 where
  pub no_mirror : get "kubernetes.io/config.mirror" p.annotations ≡ none
  pub no_daemon : All (λ k. k ≢ "DaemonSet") p.owner_kinds

no_daemon_iff :
    (ks : List String) → (any (λ k. k == "DaemonSet") ks ≡ false) ↔ All (λ k. k ≢ "DaemonSet") ks
no_daemon_iff [] = ground arith
no_daemon_iff (k ∷ ks) = ground (arith, eq_iff k "DaemonSet", no_daemon_iff ks)

is_skipped-IsEvictable : (p : Pod) → (is_skipped p ≡ false) ↔ IsEvictable p
unfolding is_skipped
is_skipped-IsEvictable p = ground (arith, no_daemon_iff p.owner_kinds)

-- The evictable pods of a list, in order: every pod is taken or left by what it is.
pub data Evicted : List Pod → List Pod → Type 0 where
  nobody : Evicted [] []
  taken : {p : Pod} {ps qs : List Pod} → IsEvictable p → Evicted ps qs → Evicted (p ∷ ps) (p ∷ qs)
  left : {p : Pod} {ps qs : List Pod} → ¬ IsEvictable p → Evicted ps qs → Evicted (p ∷ ps) qs

module _ {S : Type 0} (evict : String → String → S → Option String × S) where
  abbrev pub evict_one : S → Pod → S
  evict_one s p = (evict p.namespace p.name s).1

  evict_all-Evicted :
      (ps : List Pod) (s : S)
      → (qs : List Pod) × Evicted ps qs × (evict_all evict s ps ≡ foldl evict_one s qs)
  unfolding evict_all
  evict_all-Evicted [] s = ([], nobody, refl)
  evict_all-Evicted (p ∷ ps) s = elim (Bool-cases (is_skipped p)) [
    | inl t ↦
        let (qs, e, same) = evict_all-Evicted ps s in
        (qs, left (λ v. cc (t, (is_skipped-IsEvictable p).1 v)) e, rw t same)
    | inr f ↦
        let (qs, e, same) = evict_all-Evicted ps (evict_one s p) in
        (p ∷ qs, taken ((is_skipped-IsEvictable p).0 f) e, rw f same)
  ]

  -- A spot interruption evicts, one after the other and whatever the single evictions return, the
  -- listed pods of the node that are neither mirror pods nor owned by a DaemonSet. It evicts no
  -- other pods.
  pub handle_spot_interruption-Evicted :
      (pods : List Pod) (s : S)
      → (qs : List Pod) × Evicted pods qs
        × (handle_spot_interruption evict (ok pods) s ≡ foldl evict_one s qs)
  unfolding handle_spot_interruption
  handle_spot_interruption-Evicted pods s = evict_all-Evicted pods s

select_nonempty :
    (option : String) (nodes : List Node) {n : Node} {ns : List Node}
    → select (λ n. classify_node n == option) nodes ≡ n ∷ ns
    → ltb 0 (length nodes) ≡ true
select_nonempty option [] e = cc
select_nonempty option (x ∷ xs) e = ground arith

module _ {F : Type 0} ⦃fl : Float F⦄ where
  -- The entry of an option, for the nodes that are classified as it.
  pub record IsCount (total : ℕ) (option : String) (nodes : List Node) (s : PurchaseOptionStats F)
      : Type 0 where
    pub count : s.count ≡ length nodes
    pub percentage : s.percentage ≡ (fl.of_nat (length nodes) ⊘ fl.of_nat total) ⊗ hundred
    pub cost : s.cost ≡ (fl.of_nat (length nodes) ⊗ hourly_cost option) ⊗ monthly_hours

  abbrev pub IsCountEntry : ℕ → String → List Node → Option (PurchaseOptionStats F) → Type 0
  IsCountEntry total option [] o = o ≡ none
  IsCountEntry total option (n ∷ ns) o =
      (s : PurchaseOptionStats F) × (o ≡ some s) × IsCount total option (n ∷ ns) s

  count_fold :
      (s : PurchaseOptionStats F) (ns : List Node)
      → foldl count_node s ns ≡ record s { count = s.count + length ns }
  count_fold s [] = let same : s.count + 0 ≡ s.count = omega arith in rw same refl
  count_fold s (n ∷ ns) =
      let shift : s.count + suc (length ns) ≡ s.count + 1 + length ns = omega arith in
      rw shift (count_fold (count_node s n) ns)

  rated :
      (total : ℕ) (option : String) (ns : List Node)
      → ltb 0 total ≡ true
      → IsCount total option ns (rate total option (foldl count_node (no_stats option) ns))
  rated total option ns h =
      let counted : foldl count_node (no_stats option) ns
          ≡ record (no_stats option) { count = length ns } =
        rw zero-add at (count_fold (no_stats option) ns) in
      rw (counted, h) (record { count = refl; percentage = refl; cost = refl })

module _ (F : Type 0) ⦃fl : Float F⦄ where
  count_entry :
      (total : ℕ) (option : String) (ns : List Node)
      → ((n : Node) (r : List Node) → ns ≡ n ∷ r → ltb 0 total ≡ true)
      → IsCountEntry {F = F} total option ns (
          Option.map
            (rate total option)
            (accumulate classify_node count_node no_stats option none ns))
  count_entry total option [] h = refl
  count_entry total option (n ∷ ns) h = (
    rate total option (foldl count_node (no_stats option) (n ∷ ns)),
    ap (Option.map (rate total option))
        (accumulate-none classify_node count_node no_stats option (n ∷ ns)),
    rated total option (n ∷ ns) (h n ns refl),
  )

  -- The analysis has an entry for a purchase option exactly when a node is classified as it. Its
  -- count is the number of these nodes, its percentage their part of all nodes, and its cost their
  -- price for a month at the hourly rate of the option.
  pub analyze_instance_mix-IsCountEntry :
      (now : Time) (nodes : List Node) (option : String)
      → IsCountEntry {F = F}
          (length nodes)
          option
          (select (λ n. classify_node n == option) nodes)
          (get option (analyze_instance_mix now nodes).by_purchase_option)
  unfolding analyze_instance_mix get
  analyze_instance_mix-IsCountEntry now nodes option =
      let total = length nodes in
      let chosen = select (λ n. classify_node n == option) nodes in
      let grouped = group classify_node count_node no_stats [] nodes in
      subst (IsCountEntry {F = F} total option chosen)
        (sym (
          get-map_entries (rate total) option grouped
          ∙ ap (Option.map (rate total option))
              (get-group classify_node count_node no_stats option [] nodes)))
        (count_entry total option chosen (λ n r e. select_nonempty option nodes e))
