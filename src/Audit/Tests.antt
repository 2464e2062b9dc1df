-- ===== src/Audit/Tests.antt =====
-- Runs of the audit writer and of its query.
use Prim.Native.String.{◌++◌}
use mathlib.Core.List
use eks_financial_orchestrat.Common.{
  ℕ, zero, suc, ◌+◌, inl, inr, String, ◌≡◌, refl, Option, none, some, [], ◌∷◌, map, length,
}
use eks_financial_orchestrat.Common.Int.{pos}
use eks_financial_orchestrat.Common.Fixed.{Fixed, whole, fixed_float}
use eks_financial_orchestrat.Common.Result.{Result, ok, err}
use eks_financial_orchestrat.Sql.{text_arg, int_arg}
use eks_financial_orchestrat.Audit.{
  Details, AuditLogEntry, AuditQueryFilters, AuditRow, build_conditions, audit_query, write_entry,
}
use eks_financial_orchestrat.Audit.Placeholders.{
  where_text, given_clauses, audit_query-placeholders,
}

abbrev digits : ℕ → String
digits n = elim n [
  | zero ↦ "0"
  | suc m ↦ elim m [ zero ↦ "1" | suc k ↦ elim k [ zero ↦ "2" | suc j ↦ "3" ] ]
]

abbrev filters : AuditQueryFilters
filters = record {
  actor = "";
  action = "breach_action";
  resource_type = "";
  namespace = "shop";
  start_time = 0;
  end_time = 0;
  limit = pos 0;
}

audit_query-placeholders_example :
    ((audit_query digits filters).text
      ≡ "SELECT "
        ++ ("id, timestamp, actor, action, resource_type, resource_name, namespace, details, reason, expected_savings, result"
            ++ (" FROM audit_log"
                ++ (where_text digits (given_clauses filters)
                    ++ (" ORDER BY timestamp DESC"
                        ++ (" LIMIT $" ++ digits (1 + length (given_clauses filters))))))))
    × ((audit_query digits filters).args
        ≡ List.◌++◌ (map (λ c. c.2) (given_clauses filters)) (int_arg 100 ∷ []))
audit_query-placeholders_example =
    audit_query-placeholders digits filters 100 (inr (inl refl, refl))

filters_text :
    where_text digits (given_clauses filters)
    ≡ " WHERE " ++ ("action = $1" ++ (" AND " ++ ("namespace = $2" ++ "")))
filters_text = refl

filters_args :
    (audit_query digits filters).args
    ≡ text_arg "breach_action" ∷ text_arg "shop" ∷ int_arg 100 ∷ []
unfolding audit_query build_conditions
filters_args = refl

-- Only the empty details can be marshalled.
abbrev marshal : Details Fixed → Result String String
marshal [] = ok "{}"
marshal (d ∷ ds) = err "unsupported"

abbrev entry : Details Fixed → AuditLogEntry Fixed
entry details = record {
  id = "";
  timestamp = 0;
  actor = "system";
  action = "breach_action";
  resource_type = "FinancialPolicy";
  resource_name = "budget";
  namespace = "shop";
  details = details;
  reason = "";
  expected_savings = whole 0;
  result = "success";
}

abbrev down : AuditRow Fixed → ℕ → Option String × ℕ
down row n = (some "connection refused", suc n)

-- A database that is down is asked once, and no error is returned.
write_while_down :
    write_entry marshal down 5 (entry []) (record { logged = []; database = 0 })
    ≡ (none, record { logged = entry [] ∷ []; database = 1 })
unfolding write_entry
write_while_down = refl
