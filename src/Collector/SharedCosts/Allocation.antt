-- ===== src/Collector/SharedCosts/Allocation.antt =====
-- What `allocateSharedCosts` leaves in each entry.
use mathlib.Core.Option
use eks_financial_orchestrat.Common.{
  ℕ, String, ◌≡◌, refl, sym, ap, subst, ◌∙◌, ◌≢◌, ◌⊎◌, ◌↔◌, inl, inr, Bool, true, false, Option,
  none, some, List, [], ◌∷◌, foldl, ◌||◌, not, if◌then◌else◌, arith, ◌==◌, select, length, nat_eq,
  Bool-cases,
}
use eks_financial_orchestrat.Common.Dict.{
  Dict, get, or_zero, accumulate, get-group, accumulate-none, get-map_entries,
}
use eks_financial_orchestrat.Common.Float.{Float, ◌⊕◌, ◌⊗◌, ◌⊘◌}
use eks_financial_orchestrat.Collector.Costs.{NamespaceCost, TeamCost, AggregatedCosts}
use eks_financial_orchestrat.Collector.Correlate.{sum_of, new_team}
use eks_financial_orchestrat.Collector.SharedCosts.{
  is_system_namespace, is_system, recipients, direct_sum, settle, team_for, add_namespace, allocate,
  allocate_shared_costs_with_labels,
}

-- The namespaces whose cost is shared: three by name, and those with the label.
abbrev pub is_shared : Dict (Dict String) → String → Bool
is_shared labels ns =
    ((ns == "kube-system") || ((ns == "kube-public") || (ns == "kube-node-lease")))
    || (or_zero "" (get "finops.eks.io/shared" (or_zero [] (get ns labels))) == "true")

is_system_eq : is_system ≡ is_shared
unfolding is_system_namespace
is_system_eq = refl

module _ {F : Type 0} ⦃fl : Float F⦄ where
  abbrev sharing : Dict (Dict String) → Dict (NamespaceCost F) → Dict (NamespaceCost F)
  sharing labels m = select (λ e. is_shared labels e.0) m

  abbrev pub receiving : Dict (Dict String) → Dict (NamespaceCost F) → Dict (NamespaceCost F)
  receiving labels m = select (λ e. not (is_shared labels e.0)) m

  -- A system namespace counts for nothing; another one keeps its direct cost and adds its share.
  abbrev pub IsSettled : Bool → F → F → ℕ → NamespaceCost F → NamespaceCost F → Type 0
  IsSettled true shared direct count old new = new ≡ record old { total_cost = fl.of_nat 0 }
  IsSettled false shared direct count old new =
      (new.direct_cost ≡ old.direct_cost)
      × (new.team ≡ old.team)
      × (new.shared_cost
          ≡ old.shared_cost
            ⊕ (if fl.eq direct (fl.of_nat 0)
                then shared ⊘ fl.of_nat count
                else shared ⊗ (old.direct_cost ⊘ direct)))
      × (new.total_cost ≡ new.direct_cost ⊕ new.shared_cost)

  -- The entry of a team, whose namespaces are given.
  pub record IsTeamTotal (name : String) (es : Dict (NamespaceCost F)) (t : TeamCost F)
      : Type 0 where
    pub team : t.team ≡ name
    pub direct : t.direct_cost ≡ sum_of (λ e. e.1.direct_cost) es
    pub indirect : t.indirect_cost ≡ sum_of (λ e. e.1.shared_cost) es
    pub total : t.total_cost ≡ t.direct_cost ⊕ t.indirect_cost

  abbrev pub team_entries : String → Dict (NamespaceCost F) → Dict (NamespaceCost F)
  team_entries team es =
      select (λ e. (if e.1.team == "" then "unallocated" else e.1.team) == team) es

  abbrev pub IsTeamEntry : String → Dict (NamespaceCost F) → Option (TeamCost F) → Type 0
  IsTeamEntry name [] o = o ≡ none
  IsTeamEntry name (e ∷ es) o = (t : TeamCost F) × (o ≡ some t) × IsTeamTotal name (e ∷ es) t

  team_fold :
      (t : TeamCost F) (es : Dict (NamespaceCost F))
      → t.total_cost ≡ t.direct_cost ⊕ t.indirect_cost
      → (u : TeamCost F) × (foldl add_namespace t es ≡ u)
        × (u.team ≡ t.team)
        × (u.direct_cost ≡ foldl (λ s e. s ⊕ e.1.direct_cost) t.direct_cost es)
        × (u.indirect_cost ≡ foldl (λ s e. s ⊕ e.1.shared_cost) t.indirect_cost es)
        × (u.total_cost ≡ u.direct_cost ⊕ u.indirect_cost)
  team_fold t [] h = (t, refl, refl, refl, refl, h)
  team_fold t (e ∷ es) h = team_fold (add_namespace t e) es refl

  team_entry :
      (name : String) (es : Dict (NamespaceCost F))
      → IsTeamEntry name es (accumulate team_for add_namespace new_team name none es)
  team_entry name [] = refl
  team_entry name (e ∷ es) =
      let (u, same, team, direct, indirect, total) =
        team_fold (add_namespace (new_team name) e) es refl in
      (
        u,
        accumulate-none team_for add_namespace new_team name (e ∷ es) ∙ ap some same,
        record { team = team; direct = direct; indirect = indirect; total = total },
      )

  settle-IsSettled :
      (labels : Dict (Dict String)) (shared direct : F) (count : ℕ) (ns : String)
      (c : NamespaceCost F)
      → IsSettled
          (is_system labels ns)
          shared
          direct
          count
          c
          (settle labels shared direct count ns c)
  settle-IsSettled labels shared direct count ns c = elim (Bool-cases (is_system labels ns)) [
    | inl t ↦ rw (t, settle) refl
    | inr f ↦ rw (f, settle) (refl, refl, refl, refl)
  ]

  module _ (labels : Dict (Dict String)) (costs : AggregatedCosts F) where
    abbrev pub shared : F
    shared = sum_of (λ e. e.1.direct_cost) (sharing labels costs.by_namespace)

    abbrev pub paying : Dict (NamespaceCost F)
    paying = receiving labels costs.by_namespace

    length-eq-zero : {A : Type 0} (xs : List A) → (nat_eq (length xs) 0 ≡ true) ↔ (xs ≡ [])
    length-eq-zero [] = ground arith
    length-eq-zero (x ∷ xs) = ground arith

    -- Without namespaces, without a cost to share, or without a namespace to receive it, the costs
    -- are returned as they are.
    pub allocate_shared_costs_unshared :
        (costs.by_namespace ≡ []) ⊎ ((fl.eq shared (fl.of_nat 0) ≡ true) ⊎ (paying ≡ []))
        → allocate_shared_costs_with_labels (some costs) labels ≡ some costs
    unfolding allocate_shared_costs_with_labels is_system_namespace
    allocate_shared_costs_unshared h =
        ground (arith, length-eq-zero costs.by_namespace, length-eq-zero paying)

    shares :
        fl.eq shared (fl.of_nat 0) ≡ false
        → paying ≢ []
        → allocate_shared_costs_with_labels (some costs) labels ≡ some (allocate labels costs)
    unfolding allocate_shared_costs_with_labels is_system_namespace
    shares nonzero someone =
        let empty : costs.by_namespace ≡ [] → paying ≡ [] = λ e. ap (recipients labels) e in
        ground (arith, length-eq-zero costs.by_namespace, length-eq-zero paying, empty)

    -- System namespaces are kube-system, kube-public, kube-node-lease and those whose label
    -- finops.eks.io/shared is "true". With a cost of theirs to share and another namespace to receive
    -- it, each namespace keeps its entry. The total of a system namespace becomes 0. Any other one keeps its direct cost and its team, its shared
    -- cost grows by its share (in proportion to its direct cost, or an equal share where the direct
    -- costs of all that receive sum up to 0), and its total is the sum of the two.
    pub allocate_shared_costs_settles :
        (ns : String) (old : NamespaceCost F)
        → fl.eq shared (fl.of_nat 0) ≡ false
        → paying ≢ []
        → get ns costs.by_namespace ≡ some old
        → (r : AggregatedCosts F) × (new : NamespaceCost F) × (allocate_shared_costs_with_labels
              (some costs)
              labels
            ≡ some r)
          × (get ns r.by_namespace ≡ some new)
          × IsSettled
              (is_shared labels ns)
              shared
              (sum_of (λ e. e.1.direct_cost) paying)
              (length paying)
              old
              new
    unfolding allocate is_system_namespace
    allocate_shared_costs_settles ns old nonzero someone found =
        let f = settle labels shared (direct_sum paying) (length paying) in
        (
          allocate labels costs,
          f ns old,
          shares nonzero someone,
          get-map_entries f ns costs.by_namespace ∙ ap (Option.map (f ns)) found,
          settle-IsSettled labels shared (direct_sum paying) (length paying) ns old,
        )

    -- System namespaces are kube-system, kube-public, kube-node-lease and those whose label
    -- finops.eks.io/shared is "true". With a cost of theirs to share and another namespace to receive
    -- it, the total cost is the sum of the totals of the namespaces that are not system ones. A team has an entry exactly when one of these
    -- belongs to it (to "unallocated" where the team is empty): its direct and its indirect cost
    -- are the sums of their direct and shared costs, and its total is the sum of the two.
    pub allocate_shared_costs_totals :
        fl.eq shared (fl.of_nat 0) ≡ false
        → paying ≢ []
        → (r : AggregatedCosts F) × (allocate_shared_costs_with_labels (some costs) labels ≡ some r)
          × (r.total_cost ≡ sum_of (λ e. e.1.total_cost) (receiving labels r.by_namespace))
          × ((team : String)
              → IsTeamEntry team
                  (team_entries team (receiving labels r.by_namespace))
                  (get team r.by_team))
    unfolding allocate get is_system_namespace
    allocate_shared_costs_totals nonzero someone =
        let r = allocate labels costs in
        let paid = recipients labels r.by_namespace in
        (
          r,
          shares nonzero someone,
          refl,
          λ team.
              subst (IsTeamEntry team (team_entries team paid))
                (sym (get-group team_for add_namespace new_team team [] paid))
                (team_entry team (team_entries team paid)),
        )
