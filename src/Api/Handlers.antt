-- ===== src/Api/Handlers.antt =====
-- pkg/api/server.go: the handlers. A response is known by its status and its body before it is written
-- as JSON.
use Prim.Native.String.{◌++◌}
use eks_financial_orchestrat.Common.{
  ℕ, ◌-◌, ◌*◌, String, ◌||◌, Option, none, some, List, [], ◌∷◌, map, find, ltb, ◌==◌, if◌then◌else◌,
}
use eks_financial_orchestrat.Common.Int.{pos}
use eks_financial_orchestrat.Common.Float.{Float}
use eks_financial_orchestrat.Common.Result.{Result, ok, err, ◌>>=◌, map_err}
use eks_financial_orchestrat.Sql.{QueryError}
use eks_financial_orchestrat.Types.{Time, is_zero, FinancialPolicy}
use eks_financial_orchestrat.Collector.Costs.{DailyCostRecord}
use eks_financial_orchestrat.Policy.Manager.{PolicyError}
use eks_financial_orchestrat.Audit.{AuditLogEntry, AuditQueryFilters}
use eks_financial_orchestrat.Api.Reports.{
  CostRecordResponse, ReportParams, CostReport, build_cost_response, build_cost_report,
}

pub record PolicyStatusEntry (F : Type 0) : Type 0 where
  pub name : String
  pub namespace : String
  pub phase : String
  pub current_cost : F
  pub budget_limit : F
  pub budget_usage_percent : F
  pub mode : String
  pub last_evaluated : Time

-- `stub` has the id, if any, and the message of an endpoint that is a stub.
pub data Body (F : Type 0) : Type 0 where
  error_body : String → Body F
  status_body : String → Body F
  stub : String → String → Body F
  costs_body : CostRecordResponse F → Body F
  forecasts_body : Body F
  forecast_body : String → Body F
  report_body : CostReport F → Body F
  policies_body : List (PolicyStatusEntry F) → Body F
  policy_body : PolicyStatusEntry F → Body F
  recommendations_body : Body F
  entries_body : List (AuditLogEntry F) → Body F

pub record Response (F : Type 0) : Type 0 where
  pub status : ℕ
  pub body : Body F

-- What the server reads: `CostStore`, `PolicyManager` and `AuditWriter`.
pub record Backend (F : Type 0) : Type 0 where
  pub query_cost_records : Time → Time → String → Result QueryError (List (DailyCostRecord F))
  pub list_policies : Result (PolicyError F) (List (FinancialPolicy F))
  pub query_entries : AuditQueryFilters → Result QueryError (List (AuditLogEntry F))

-- What the handlers use of Go's library: `strings.ToLower`, the verb `%q`, and `time.Parse`.
pub record Texts : Type 0 where
  pub to_lower : String → String
  pub quote : String → String
  pub parse_rfc3339 : String → Result String Time

abbrev pub write_json : {F : Type 0} → ℕ → Body F → Response F
write_json status body = record { status = status; body = body }

-- `writeError`
abbrev pub write_error : {F : Type 0} → ℕ → String → Response F
write_error status message = write_json status (error_body message)

abbrev pub day : ℕ
day = 24 * 3600 * 1_000_000_000

abbrev pub time_or : String → Texts → Time → String → Result String Time
time_or what texts default text =
    if text == "" then ok default else map_err (λ e. what ++ e) (texts.parse_rfc3339 text)

-- `parseTimeRange`
unfoldable pub parse_time_range : Texts → Time → (String → String) → Result String (Time × Time)
parse_time_range texts now query =
    time_or "invalid start time: " texts (now - day) (query "start") >>= λ start.
    time_or "invalid end time: " texts now (query "end") >>= λ end. ok (start, end)

abbrev pub filters_of : (String → String) → AuditQueryFilters
filters_of query = record {
  actor = query "actor";
  action = query "action";
  resource_type = query "resource_type";
  namespace = query "namespace";
  start_time = 0;
  end_time = 0;
  limit = pos 0;
}

module _ {F : Type 0} ⦃fl : Float F⦄ where
  -- The records of a range, or the error that is answered.
  abbrev pub query_range :
      Backend F
      → Texts
      → Time
      → (String → String)
      → String
      → (List (DailyCostRecord F) → Response F)
      → Response F
  query_range backend texts now query namespace answer = elim (parse_time_range texts now query) [
    | err e ↦ write_error 400 e
    | ok range ↦ elim (backend.query_cost_records range.0 range.1 namespace) [
      | err e ↦ write_error 500 "failed to query cost records"
      | ok records ↦ answer records
    ]
  ]

  -- `handleGetCosts`
  abbrev pub handle_get_costs : Backend F → Texts → Time → (String → String) → Response F
  handle_get_costs backend texts now query =
      query_range backend texts now query ""
        (λ records. write_json 200 (costs_body (build_cost_response records)))

  abbrev pub found_costs : Texts → String → List (DailyCostRecord F) → Response F
  found_costs texts namespace [] =
      write_error 404 ("no cost data found for namespace " ++ texts.quote namespace)
  found_costs texts namespace (r ∷ rs) = write_json 200 (costs_body (build_cost_response (r ∷ rs)))

  -- `handleGetCostsByNamespace`
  abbrev pub handle_get_costs_by_namespace :
      Backend F → Texts → Time → (String → String) → String → Response F
  handle_get_costs_by_namespace backend texts now query namespace =
      if namespace == ""
      then write_error 400 "namespace is required"
      else query_range backend texts now query namespace (found_costs texts namespace)

  -- `handleGetCostsByTeam`
  abbrev pub handle_get_costs_by_team :
      Backend F → Texts → Time → (String → String) → String → Response F
  handle_get_costs_by_team backend texts now query team =
      if team == ""
      then write_error 400 "team is required"
      else query_range backend texts now query "" (λ records.
        write_json 200 (costs_body (record (build_cost_response records) { team = team })))

  abbrev pub handle_get_forecasts_by_namespace : String → Response F
  handle_get_forecasts_by_namespace namespace =
      if namespace == ""
      then write_error 400 "namespace is required"
      else write_json 200 (forecast_body namespace)

  abbrev pub generate : Backend F → Time → ReportParams → Response F
  generate backend now params =
      elim (backend.query_cost_records params.start_time params.end_time "") [
        | err e ↦ write_error 500 "failed to generate report"
        | ok records ↦ write_json 200 (report_body (build_cost_report now params records))
      ]

  -- `handleGenerateReport`
  unfoldable pub handle_generate_report : Backend F → Time → Result String ReportParams → Response F
  handle_generate_report backend now (err e) = write_error 400 ("invalid request body: " ++ e)
  handle_generate_report backend now (ok params) =
      if is_zero params.start_time || is_zero params.end_time
      then write_error 400 "start_time and end_time are required"
      else if ltb params.end_time params.start_time
      then write_error 400 "end_time must be after start_time"
      else generate backend now params

  abbrev pub status_entry : FinancialPolicy F → PolicyStatusEntry F
  status_entry p = record {
    name = p.name;
    namespace = p.spec.target_namespace;
    phase = p.status.phase;
    current_cost = p.status.current_cost;
    budget_limit = p.spec.budget.monthly_limit;
    budget_usage_percent = p.status.budget_usage_percent;
    mode = p.spec.mode;
    last_evaluated = elim p.status.last_evaluated [ none ↦ 0 | some t ↦ t ];
  }

  -- `handleListPolicies`
  unfoldable pub handle_list_policies : Backend F → Response F
  handle_list_policies backend = elim backend.list_policies [
    | err e ↦ write_error 500 "failed to list policies"
    | ok ps ↦ write_json 200 (policies_body (map status_entry ps))
  ]

  abbrev pub found_policy : Texts → String → Option (FinancialPolicy F) → Response F
  found_policy texts name (some p) = write_json 200 (policy_body (status_entry p))
  found_policy texts name none = write_error 404 ("policy " ++ (texts.quote name ++ " not found"))

  -- `handleGetPolicyStatus`
  unfoldable pub handle_get_policy_status : Backend F → Texts → String → Response F
  handle_get_policy_status backend texts name =
      if name == "" then write_error 400 "policy name is required" else elim backend.list_policies [
        | err e ↦ write_error 500 "failed to get policy status"
        | ok ps ↦ found_policy texts name (find (λ p. p.name == name) ps)
      ]

  abbrev pub handle_approve_recommendation : String → Response F
  handle_approve_recommendation id =
      if id == ""
      then write_error 400 "recommendation id is required"
      else write_json 200 (stub id "recommendation approval not yet implemented")

  -- `handleGetAuditLog`
  unfoldable pub handle_get_audit_log : Backend F → (String → String) → Response F
  handle_get_audit_log backend query = elim (backend.query_entries (filters_of query)) [
    | err e ↦ write_error 500 "failed to query audit log"
    | ok entries ↦ write_json 200 (entries_body entries)
  ]
