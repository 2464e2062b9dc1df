-- ===== src/Api/Server.antt =====
-- pkg/api/server.go: the routes. A request is known by its route, as package chi (not part of the
-- repository) matches it, its role header, its query parameters and its decoded body.
pub mod Access
use Prim.Native.String.{◌++◌}
use eks_financial_orchestrat.Common.{
  ℕ, ◌-◌, ◌*◌, String, Bool, true, false, ◌||◌, Option, none, some, List, [], ◌∷◌, map, find,
  length, ltb, nat_eq, ◌==◌, if◌then◌else◌,
}
use eks_financial_orchestrat.Common.Int.{pos}
use eks_financial_orchestrat.Common.Float.{Float}
use eks_financial_orchestrat.Common.Result.{Result, ok, err, ◌>>=◌, map_err}
use eks_financial_orchestrat.Sql.{QueryError}
use eks_financial_orchestrat.Types.{Time, is_zero, FinancialPolicy}
use eks_financial_orchestrat.Collector.Costs.{DailyCostRecord}
use eks_financial_orchestrat.Policy.Manager.{PolicyError}
use eks_financial_orchestrat.Audit.{AuditLogEntry, AuditQueryFilters}
use eks_financial_orchestrat.Api.Roles.{rbac_middleware}
use eks_financial_orchestrat.Api.Reports.{
  CostRecordResponse, ReportParams, CostReport, build_cost_response, build_cost_report,
}
use eks_financial_orchestrat.Api.Handlers.{
  write_json, write_error, day, time_or, parse_time_range, filters_of, query_range,
  handle_get_costs, found_costs, handle_get_costs_by_namespace, handle_get_costs_by_team,
  handle_get_forecasts_by_namespace, generate, handle_generate_report, status_entry,
  handle_list_policies, found_policy, handle_get_policy_status, handle_approve_recommendation,
  handle_get_audit_log, PolicyStatusEntry, Body, Response, Backend, Texts, error_body, status_body,
  stub, costs_body, forecasts_body, forecast_body, report_body, policies_body, policy_body,
  recommendations_body, entries_body,
}

pub data Route : Type 0 where
  healthz readyz costs forecasts reports policies instance_mix recommendations audit_log : Route
  costs_namespace costs_team forecasts_namespace policy_status approve : String → Route

pub record Request : Type 0 where
  pub route : Route
  pub role_header : String
  pub query : String → String
  pub body : Result String ReportParams

module _ {F : Type 0} ⦃fl : Float F⦄ where
  -- The handler of a route.
  unfoldable pub handle : Backend F → Texts → Time → Request → Response F
  unfolding handle_generate_report handle_list_policies handle_get_policy_status
      handle_get_audit_log
  handle backend texts now r = elim r.route [
    | healthz ↦ write_json 200 (status_body "ok")
    | readyz ↦ write_json 200 (status_body "ready")
    | costs ↦ handle_get_costs backend texts now r.query
    | forecasts ↦ write_json 200 forecasts_body
    | reports ↦ handle_generate_report backend now r.body
    | policies ↦ handle_list_policies backend
    | instance_mix ↦ write_json 200 (stub "" "instance mix analysis not yet implemented")
    | recommendations ↦ write_json 200 recommendations_body
    | audit_log ↦ handle_get_audit_log backend r.query
    | costs_namespace n ↦ handle_get_costs_by_namespace backend texts now r.query n
    | costs_team t ↦ handle_get_costs_by_team backend texts now r.query t
    | forecasts_namespace n ↦ handle_get_forecasts_by_namespace n
    | policy_status n ↦ handle_get_policy_status backend texts n
    | approve id ↦ handle_approve_recommendation id
  ]

-- Whether a route stands below /api/v1, and its method and path.
abbrev pub is_api : Route → Bool
is_api healthz = false
is_api readyz = false
is_api _ = true

abbrev pub method_of : Route → String
method_of reports = "POST"
method_of (approve id) = "POST"
method_of _ = "GET"

abbrev pub path_of : Route → String
path_of healthz = "/healthz"
path_of readyz = "/readyz"
path_of costs = "/api/v1/costs"
path_of forecasts = "/api/v1/forecasts"
path_of reports = "/api/v1/reports"
path_of policies = "/api/v1/policies"
path_of instance_mix = "/api/v1/instance-mix"
path_of recommendations = "/api/v1/recommendations"
path_of audit_log = "/api/v1/audit-log"
path_of (costs_namespace n) = "/api/v1/costs/namespaces/" ++ n
path_of (costs_team t) = "/api/v1/costs/teams/" ++ t
path_of (forecasts_namespace n) = "/api/v1/forecasts/" ++ n
path_of (policy_status n) = "/api/v1/policies/" ++ (n ++ "/status")
path_of (approve id) = "/api/v1/recommendations" ++ ("/" ++ (id ++ "/approve"))

abbrev pub forbidden : {F : Type 0} → Response F
forbidden = write_error 403 "forbidden: insufficient permissions"

-- `ServeHTTP`
unfoldable pub serve_http :
    {F : Type 0} ⦃fl : Float F⦄ → Backend F → Texts → Time → Request → Response F
unfolding handle
serve_http backend texts now r =
    if is_api r.route
    then rbac_middleware texts.to_lower r.role_header (method_of r.route) (path_of r.route)
        forbidden (handle backend texts now r)
    else handle backend texts now r
