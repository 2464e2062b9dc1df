-- ===== src/Api/Tests.antt =====
-- Runs of the REST API.
use eks_financial_orchestrat.Common.{String, ◌≡◌, inr, arith, eq_iff, refl, List, [], ◌∷◌}
use eks_financial_orchestrat.Common.Dict.{get}
use eks_financial_orchestrat.Common.Fixed.{Fixed, whole, fixed_float}
use eks_financial_orchestrat.Common.Result.{ok, err}
use eks_financial_orchestrat.Collector.Costs.{DailyCostRecord}
use eks_financial_orchestrat.Collector.Correlate.{sum_of}
use eks_financial_orchestrat.Collector.Correlate.Sums.{total_of}
use eks_financial_orchestrat.Api.Roles.{role_of, is_authorized, rbac_middleware}
use eks_financial_orchestrat.Api.Reports.{ReportParams, build_cost_response, build_cost_report}
use eks_financial_orchestrat.Api.Reports.Sums.{cost, of_namespace, entry_of, build_cost_report-sums}
use eks_financial_orchestrat.Api.Handlers.{Backend, Texts, write_error, parse_time_range}
use eks_financial_orchestrat.Api.Server.{
  Request, approve, costs_namespace, handle, serve_http, forbidden,
}
use eks_financial_orchestrat.Api.Server.Access.{Passes, May, serve_http-Passes}

abbrev backend : Backend Fixed
backend = record {
  query_cost_records = λ start end namespace. ok [];
  list_policies = ok [];
  query_entries = λ filters. ok [];
}

abbrev texts : Texts
texts = record {
  to_lower = λ text. text;
  quote = λ text. text;
  parse_rfc3339 = λ text. err "cannot parse";
}

abbrev approval : Request
approval = record {
  route = approve "rec-1";
  role_header = "viewer";
  query = λ key. "";
  body = err "EOF";
}

serve_http-Passes_example :
    Passes
      (May (approve "rec-1") "viewer")
      (handle backend texts 10 approval)
      forbidden
      (serve_http backend texts 10 approval)
serve_http-Passes_example =
    serve_http-Passes backend texts 10 approval "viewer"
      (inr (λ e. ground (arith, eq_iff "viewer" ""), refl))

-- A viewer's report on a namespace without records.
nothing_found :
    serve_http backend texts 10 (record approval { route = costs_namespace "shop" })
    ≡ write_error 404 "no cost data found for namespace shop"
unfolding serve_http rbac_middleware is_authorized role_of handle parse_time_range
nothing_found = refl

abbrev day_cost : String → Fixed → DailyCostRecord Fixed
day_cost ns total = record {
  date = 1;
  namespace = ns;
  total_cost = total;
  day_of_week = 1;
  day_of_month = 1;
}

abbrev records : List (DailyCostRecord Fixed)
records = day_cost "shop" (whole 3) ∷ day_cost "docs" (whole 4) ∷ day_cost "shop" (whole 5) ∷ []

abbrev params : ReportParams
params = record { start_time = 1; end_time = 9; namespaces = "docs" ∷ []; teams = [] }

build_cost_report-sums_example :
    let answer = build_cost_response records in
    let report = build_cost_report 10 params records in
    (answer.total_cost ≡ sum_of cost records)
    × (report.total_cost ≡ answer.total_cost)
    × ((ns : String) → get ns answer.by_namespace ≡ total_of cost (of_namespace ns records))
    × ((ns : String) → get ns report.by_namespace ≡ entry_of ns (get ns answer.by_namespace))
    × (report.by_team ≡ [])
build_cost_report-sums_example = build_cost_report-sums 10 params records
