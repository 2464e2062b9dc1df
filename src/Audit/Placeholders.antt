-- ===== src/Audit/Placeholders.antt =====
-- pkg/audit/writer.go: the text and the arguments of the query that `QueryEntries` builds.
use Prim.Native.String.{◌++◌}
use mathlib.Core.List
use eks_financial_orchestrat.Common.{
  ℕ, zero, suc, ◌+◌, ◌<◌, ◌⊎◌, inl, inr, String, ◌≡◌, refl, sym, ap, Bool, true, false, not, List,
  [], ◌∷◌, map, foldl, select, snoc, length, length-append, arith, ◌==◌,
}
use eks_financial_orchestrat.Sql.{SqlArg, time_arg, text_arg, int_arg}
use eks_financial_orchestrat.Common.Int.{ℤ, pos, negsuc}
use eks_financial_orchestrat.Types.{is_zero}
use eks_financial_orchestrat.Audit.{
  AuditQueryFilters, Builder, join_and, where_clause, add_condition, no_conditions,
  build_conditions, audit_query, limit_of,
}

-- A filter: whether it is given, the condition up to its placeholder's number, and its value.
abbrev pub Clause : Type 0
Clause = Bool × String × SqlArg

-- The filters in the order of the source; the empty text and the zero time are not given.
abbrev pub clauses : AuditQueryFilters → List Clause
clauses f =
    (not (f.actor == ""), "actor = $", text_arg f.actor)
    ∷ (not (f.action == ""), "action = $", text_arg f.action)
    ∷ (not (f.resource_type == ""), "resource_type = $", text_arg f.resource_type)
    ∷ (not (f.namespace == ""), "namespace = $", text_arg f.namespace)
    ∷ (not (is_zero f.start_time), "timestamp >= $", time_arg f.start_time)
    ∷ (not (is_zero f.end_time), "timestamp <= $", time_arg f.end_time)
    ∷ []

abbrev pub given_clauses : AuditQueryFilters → List Clause
given_clauses f = select (λ c. c.0) (clauses f)

abbrev arguments : List Clause → List SqlArg
arguments cs = map (λ c. c.2) cs

snoc-append :
    {A : Type 0} (xs : List A) (x : A) (ys : List A)
    → List.◌++◌ (snoc xs x) ys ≡ List.◌++◌ xs (x ∷ ys)
snoc-append [] x ys = refl
snoc-append (y ∷ xs) x ys = ap (λ l. y ∷ l) (snoc-append xs x ys)

append-nil : {A : Type 0} (xs : List A) → List.◌++◌ xs [] ≡ xs
append-nil [] = refl
append-nil (x ∷ xs) = ap (λ l. x ∷ l) (append-nil xs)

arguments-snoc : (cs : List Clause) (c : Clause) → arguments (snoc cs c) ≡ snoc (arguments cs) c.2
arguments-snoc [] c = refl
arguments-snoc (d ∷ cs) c = ap (λ l. d.2 ∷ l) (arguments-snoc cs c)

-- The limit of a query, by the number asked for.
abbrev pub IsLimit : ℤ → ℕ → Type 0
IsLimit asked limit =
    ((n : ℕ) × (0 < n) × (asked ≡ pos n) × (limit ≡ n))
    ⊎ (((asked ≡ pos 0) ⊎ ((n : ℕ) × (asked ≡ negsuc n))) × (limit ≡ 100))

limit_of_lem : (asked : ℤ) (limit : ℕ) → IsLimit asked limit → limit_of asked ≡ limit
limit_of_lem asked limit (inl (zero, p, e, l)) = elim p [ ]
limit_of_lem asked limit (inl (suc n, p, e, l)) = rw (e, l) refl
limit_of_lem asked limit (inr (inl e, l)) = rw (e, l) refl
limit_of_lem asked limit (inr (inr (n, e), l)) = rw (e, l) refl

module _ (digits : ℕ → String) where
  -- The conditions with the numbers n, n + 1, ...
  abbrev numbered : ℕ → List Clause → List String
  numbered n [] = []
  numbered n (c ∷ cs) = (c.1 ++ digits n) ∷ numbered (suc n) cs

  numbered-snoc :
      (n : ℕ) (cs : List Clause) (c : Clause)
      → numbered n (snoc cs c) ≡ snoc (numbered n cs) (c.1 ++ digits (n + length cs))
  numbered-snoc n [] c = let same : n + 0 ≡ n = omega arith in rw same refl
  numbered-snoc n (d ∷ cs) c =
      let same : n + suc (length cs) ≡ suc n + length cs = omega arith in
      rw same (ap (λ l. (d.1 ++ digits n) ∷ l) (numbered-snoc (suc n) cs c))

  -- The builder has taken these filters.
  record HasBuilt (cs : List Clause) (b : Builder) : Type 0 where
    conditions : b.conditions ≡ numbered 1 cs
    args : b.args ≡ arguments cs
    next : b.arg_idx ≡ 1 + length cs

  abbrev step : Builder → Clause → Builder
  step b c = add_condition digits c.0 c.1 c.2 b

  taken :
      (cs : List Clause) (b : Builder) (c : Clause)
      → HasBuilt cs b
      → HasBuilt (snoc cs c) (add_condition digits true c.1 c.2 b)
  taken cs b c h =
      let count : length (snoc cs c) ≡ suc (length cs) = omega (arith, length-append cs (c ∷ [])) in
      record {
        conditions = rw (h.conditions, h.next) (sym (numbered-snoc 1 cs c));
        args = rw h.args (sym (arguments-snoc cs c));
        next = rw (h.next, count) (omega arith);
      }

  build :
      (rest : List Clause) (cs : List Clause) (b : Builder)
      → HasBuilt cs b
      → HasBuilt (List.◌++◌ cs (select (λ c. c.0) rest)) (foldl step b rest)
  build [] cs b h = rw (append-nil cs) h
  build ((true, p, a) ∷ rest) cs b h =
      rw⁻¹ (snoc-append cs (true, p, a) (select (λ c. c.0) rest))
        (build rest (snoc cs (true, p, a)) (step b (true, p, a)) (taken cs b (true, p, a) h))
  build ((false, p, a) ∷ rest) cs b h = build rest cs b h

  built : (f : AuditQueryFilters) → HasBuilt (given_clauses f) (build_conditions digits f)
  unfolding build_conditions
  built f =
      build (clauses f) [] no_conditions (record { conditions = refl; args = refl; next = refl })

  -- The conditions behind the first, each after " AND ".
  abbrev pub and_text : ℕ → List Clause → String
  and_text n [] = ""
  and_text n (c ∷ cs) = " AND " ++ ((c.1 ++ digits n) ++ and_text (suc n) cs)

  abbrev pub where_text : List Clause → String
  where_text [] = ""
  where_text (c ∷ cs) = " WHERE " ++ ((c.1 ++ digits 1) ++ and_text 2 cs)

  and_text_lem : (n : ℕ) (cs : List Clause) → join_and (numbered n cs) ≡ and_text n cs
  and_text_lem n [] = refl
  and_text_lem n (c ∷ cs) = ap (λ t. " AND " ++ ((c.1 ++ digits n) ++ t)) (and_text_lem (suc n) cs)

  where_text_lem : (cs : List Clause) → where_clause (numbered 1 cs) ≡ where_text cs
  where_text_lem [] = refl
  where_text_lem (c ∷ cs) = ap (λ t. " WHERE " ++ ((c.1 ++ digits 1) ++ t)) (and_text_lem 2 cs)

  -- The query selects the rows that meet the conditions of the filters that are given, and no other,
  -- joined by AND in a fixed order and with the placeholders $1, $2, ... (without a filter it has no
  -- WHERE), latest first; the placeholder of its limit has the number after theirs. The arguments
  -- are the values of the same filters in the same order, and then the limit, which is 100 unless a
  -- positive one is asked for.
  pub audit_query-placeholders :
      (f : AuditQueryFilters) (limit : ℕ)
      → IsLimit f.limit limit
      → ((audit_query digits f).text
          ≡ "SELECT "
            ++ ("id, timestamp, actor, action, resource_type, resource_name, namespace, details, reason, expected_savings, result"
                ++ (" FROM audit_log"
                    ++ (where_text (given_clauses f)
                        ++ (" ORDER BY timestamp DESC"
                            ++ (" LIMIT $" ++ digits (1 + length (given_clauses f))))))))
        × ((audit_query digits f).args
            ≡ List.◌++◌ (map (λ c. c.2) (given_clauses f)) (int_arg limit ∷ []))
  unfolding audit_query
  audit_query-placeholders f limit is =
      let h = built f in
      let same = limit_of_lem f.limit limit is in
      (rw (h.conditions, h.next, where_text_lem (given_clauses f)) refl, rw (h.args, same) refl)
