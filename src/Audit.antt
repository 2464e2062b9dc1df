-- ===== src/Audit.antt =====
-- pkg/audit: writer.go and types.go, with the table audit_log. Parameters are the database (`exec` for
-- an insertion, with its error and the new state, and `run` for a query), `encoding/json` for the
-- details (`marshal`; `unmarshal` is the map that a call leaves, its error is only logged), and
-- `%d` of package fmt (`digits`). The text of the insertion,
-- and what the database rounds in a row, are left out.
mod Tests
pub mod Placeholders
use Prim.Native.String.{◌++◌}
use eks_financial_orchestrat.Common.{
  ℕ, zero, suc, ◌+◌, String, Bool, not, Option, none, some, List, [], ◌∷◌, snoc, ◌==◌,
  if◌then◌else◌,
}
use eks_financial_orchestrat.Common.Dict.{Dict}
use eks_financial_orchestrat.Common.Int.{ℤ, pos, negsuc}
use eks_financial_orchestrat.Common.Result.{Result, ok, err}
use eks_financial_orchestrat.Sql.{
  SqlArg, time_arg, text_arg, int_arg, Query, Rows, QueryError, read_answer,
}
use eks_financial_orchestrat.Types.{Time, is_zero}

-- A value of the details, a `map[string]interface{}`.
pub data Detail (F : Type 0) : Type 0 where
  text : String → Detail F
  number : F → Detail F
  flag : Bool → Detail F
  nodes : List ℕ → Detail F
  mix : Dict F → Detail F

abbrev pub Details : Type 0 → Type 0
Details F = Dict (Detail F)

pub record AuditLogEntry (F : Type 0) : Type 0 where
  pub id : String
  pub timestamp : Time
  pub actor : String
  pub action : String
  pub resource_type : String
  pub resource_name : String
  pub namespace : String
  pub details : Details F
  pub reason : String
  pub expected_savings : F
  pub result : String

pub record AuditQueryFilters : Type 0 where
  pub actor : String
  pub action : String
  pub resource_type : String
  pub namespace : String
  pub start_time : Time
  pub end_time : Time
  pub limit : ℤ

-- A row of the table, without its id. The details are JSON, or NULL.
pub record AuditRow (F : Type 0) : Type 0 where
  pub timestamp : Time
  pub actor : String
  pub action : String
  pub resource_type : String
  pub resource_name : String
  pub namespace : String
  pub details : Option String
  pub reason : String
  pub expected_savings : F
  pub result : String

-- What the writer has logged, and the database.
pub record AuditState (F S : Type 0) : Type 0 where
  pub logged : List (AuditLogEntry F)
  pub database : S

abbrev pub json_or_null : Result String String → Option String
json_or_null (ok json) = some json
json_or_null (err e) = none

abbrev pub time_or_now : Time → Time → Time
time_or_now now t = if is_zero t then now else t

module _ {F : Type 0} where
  -- The arguments of the insertion.
  abbrev pub audit_row : (Details F → Result String String) → Time → AuditLogEntry F → AuditRow F
  audit_row marshal now e = record {
    timestamp = time_or_now now e.timestamp;
    actor = e.actor;
    action = e.action;
    resource_type = e.resource_type;
    resource_name = e.resource_name;
    namespace = e.namespace;
    details = json_or_null (marshal e.details);
    reason = e.reason;
    expected_savings = e.expected_savings;
    result = e.result;
  }

  -- `emitStructuredLog`
  abbrev pub emit_structured_log : {S : Type 0} → AuditLogEntry F → AuditState F S → AuditState F S
  emit_structured_log e s = record s { logged = snoc s.logged e }

  -- An error of the database is logged, and not returned.
  abbrev pub inserted :
      {S : Type 0} → AuditState F S → Option String × S → Option String × AuditState F S
  inserted s (some e, database) = (none, record s { database = database })
  inserted s (none, database) = (none, record s { database = database })

  -- `WriteEntry` of `DefaultAuditWriter`
  unfoldable pub write_entry :
      {S : Type 0}
      → (Details F → Result String String)
      → (AuditRow F → S → Option String × S)
      → Time
      → AuditLogEntry F
      → AuditState F S
      → Option String × AuditState F S
  write_entry marshal exec now e s =
      let s' = emit_structured_log e s in inserted s' (exec (audit_row marshal now e) s'.database)

  -- `WriteEntry` and `QueryEntries` of `NoopAuditWriter`
  abbrev pub noop_write_entry : {S : Type 0} → AuditLogEntry F → S → Option String × S
  noop_write_entry e s = (none, s)

  abbrev pub noop_query_entries : AuditQueryFilters → Result QueryError (List (AuditLogEntry F))
  noop_query_entries filters = ok []

-- The conditions and arguments of a query so far, and the number of the next placeholder.
pub record Builder : Type 0 where
  pub conditions : List String
  pub args : List SqlArg
  pub arg_idx : ℕ

abbrev pub no_conditions : Builder
no_conditions = record { conditions = []; args = []; arg_idx = 1 }

-- `strings.Join(conditions, " AND ")` after " WHERE "
abbrev pub join_and : List String → String
join_and [] = ""
join_and (c ∷ cs) = " AND " ++ (c ++ join_and cs)

abbrev pub where_clause : List String → String
where_clause [] = ""
where_clause (c ∷ cs) = " WHERE " ++ (c ++ join_and cs)

-- A limit that is not positive is 100.
abbrev pub limit_of : ℤ → ℕ
limit_of (pos n) = elim n [ zero ↦ 100 | suc m ↦ suc m ]
limit_of (negsuc n) = 100

abbrev pub audit_columns : String
audit_columns =
    "id, timestamp, actor, action, resource_type, resource_name, namespace, details, reason, expected_savings, result"

module _ (digits : ℕ → String) where
  -- One of the `if` blocks.
  abbrev pub add_condition : Bool → String → SqlArg → Builder → Builder
  add_condition given prefix arg b =
      if given
      then record {
        conditions = snoc b.conditions (prefix ++ digits b.arg_idx);
        args = snoc b.args arg;
        arg_idx = b.arg_idx + 1;
      }
      else b

  unfoldable pub build_conditions : AuditQueryFilters → Builder
  build_conditions f =
      add_condition (not (is_zero f.end_time)) "timestamp <= $" (time_arg f.end_time) (
        add_condition (not (is_zero f.start_time)) "timestamp >= $" (time_arg f.start_time) (
          add_condition (not (f.namespace == "")) "namespace = $" (text_arg f.namespace) (
            add_condition (not (f.resource_type == "")) "resource_type = $"
              (text_arg f.resource_type)
              (add_condition (not (f.action == "")) "action = $" (text_arg f.action) (
                add_condition (not (f.actor == "")) "actor = $" (text_arg f.actor)
                  no_conditions)))))

  unfoldable pub audit_query : AuditQueryFilters → Query
  unfolding build_conditions
  audit_query f =
      let b = build_conditions f in
      record {
        text =
            "SELECT "
            ++ (audit_columns
                ++ (" FROM audit_log"
                    ++ (where_clause b.conditions
                        ++ (" ORDER BY timestamp DESC" ++ (" LIMIT $" ++ digits b.arg_idx)))));
        args = snoc b.args (int_arg (limit_of f.limit));
      }

module _ {F : Type 0} (unmarshal : String → Details F) where
  -- What the scan of a row leaves in an entry.
  abbrev pub scan_entry : String × AuditRow F → AuditLogEntry F
  scan_entry (id, r) = record {
    id = id;
    timestamp = r.timestamp;
    actor = r.actor;
    action = r.action;
    resource_type = r.resource_type;
    resource_name = r.resource_name;
    namespace = r.namespace;
    details = elim r.details [ none ↦ [] | some json ↦ unmarshal json ];
    reason = r.reason;
    expected_savings = r.expected_savings;
    result = r.result;
  }

  -- `QueryEntries` of `DefaultAuditWriter`
  unfoldable pub query_entries :
      (ℕ → String)
      → (Query → Result String (Rows (String × AuditRow F)))
      → AuditQueryFilters
      → Result QueryError (List (AuditLogEntry F))
  unfolding audit_query
  query_entries digits run f = read_answer scan_entry (run (audit_query digits f))
