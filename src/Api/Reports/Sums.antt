-- ===== src/Api/Reports/Sums.antt =====
-- pkg/api/server.go: the sums of `buildCostResponse` and `buildCostReport`.
use eks_financial_orchestrat.Common.{
  String, ◌≡◌, refl, sym, ap, ◌∙◌, Option, none, some, List, [], ◌∷◌, foldl, select, false, ◌==◌,
}
use eks_financial_orchestrat.Common.Dict.{Dict, get, group, accumulate, get-group, accumulate-none}
use eks_financial_orchestrat.Common.Float.{Float, ◌⊕◌}
use eks_financial_orchestrat.Types.{Time}
use eks_financial_orchestrat.Collector.Costs.{DailyCostRecord, NamespaceCost}
use eks_financial_orchestrat.Collector.Correlate.{sum_of, new_namespace}
use eks_financial_orchestrat.Collector.Correlate.Sums.{total_of}
use eks_financial_orchestrat.Api.Reports.{
  CostRecordResponse, ReportParams, add_record, no_record_costs, build_cost_response, add_total,
  build_cost_report,
}

module _ {F : Type 0} ⦃fl : Float F⦄ where
  abbrev pub cost : DailyCostRecord F → F
  cost r = r.total_cost

  abbrev pub of_namespace : String → List (DailyCostRecord F) → List (DailyCostRecord F)
  of_namespace ns records = select (λ r. r.namespace == ns) records

  -- A namespace's entry of a report, which has a total cost only.
  abbrev pub total_entry : String → F → NamespaceCost F
  total_entry ns total = record (new_namespace false ns) { total_cost = total }

  abbrev add_cost : F → DailyCostRecord F → F
  add_cost t r = t ⊕ cost r

  abbrev by_ns : Dict F → List (DailyCostRecord F) → Dict F
  by_ns m rs = group (λ r. r.namespace) add_cost (λ _. fl.of_nat 0) m rs

  response_fields :
      (resp : CostRecordResponse F) (rs : List (DailyCostRecord F))
      → foldl add_record resp rs ≡ record resp {
        total_cost = foldl add_cost resp.total_cost rs;
        by_namespace = by_ns resp.by_namespace rs;
      }
  unfolding group
  response_fields resp [] = refl
  response_fields resp (r ∷ rs) = response_fields (add_record resp r) rs

  sums :
      (ns : String) (rs : List (DailyCostRecord F))
      → accumulate (λ r. r.namespace) add_cost (λ _. fl.of_nat 0) ns none rs ≡ total_of cost rs
  sums ns [] = refl
  sums ns (r ∷ rs) = accumulate-none (λ r. r.namespace) add_cost (λ _. fl.of_nat 0) ns (r ∷ rs)

  entry_fold :
      (c : NamespaceCost F) (rs : List (DailyCostRecord F))
      → foldl add_total c rs ≡ record c { total_cost = foldl add_cost c.total_cost rs }
  entry_fold c [] = refl
  entry_fold c (r ∷ rs) = entry_fold (add_total c r) rs

  abbrev pub entry_of : String → Option F → Option (NamespaceCost F)
  entry_of ns none = none
  entry_of ns (some total) = some (total_entry ns total)

  entries :
      (ns : String) (rs : List (DailyCostRecord F))
      → accumulate (λ r. r.namespace) add_total (new_namespace false) ns none rs
        ≡ entry_of ns (total_of cost rs)
  entries ns [] = refl
  entries ns (r ∷ rs) =
      accumulate-none (λ r. r.namespace) add_total (new_namespace false) ns (r ∷ rs)
      ∙ ap some (entry_fold (new_namespace false ns) (r ∷ rs))

  -- The answer on costs and the report agree on every list of records: the total is the sum of the
  -- records' costs in their order, and a namespace has an entry exactly when it has records, with
  -- the sum of their costs. Neither the namespaces nor the teams that the parameters name restrict
  -- the report, and it has no teams.
  pub build_cost_report-sums :
      (now : Time) (params : ReportParams) (records : List (DailyCostRecord F))
      → let answer = build_cost_response records in
        let report = build_cost_report now params records in
        (answer.total_cost ≡ sum_of cost records)
        × (report.total_cost ≡ answer.total_cost)
        × ((ns : String) → get ns answer.by_namespace ≡ total_of cost (of_namespace ns records))
        × ((ns : String) → get ns report.by_namespace ≡ entry_of ns (get ns answer.by_namespace))
        × (report.by_team ≡ [])
  unfolding build_cost_response build_cost_report get
  build_cost_report-sums now params records =
      let whole = response_fields (no_record_costs records) records in
      let total = ap (λ r. r.total_cost) whole in
      let by_namespace : (ns : String)
          → get ns (build_cost_response records).by_namespace
            ≡ total_of cost (of_namespace ns records) =
        λ ns.
          ap (λ r. get ns r.by_namespace) whole
          ∙ get-group (λ r. r.namespace) add_cost (λ _. fl.of_nat 0) ns [] records
          ∙ sums ns (of_namespace ns records) in
      let in_report : (ns : String)
          → get ns (build_cost_report now params records).by_namespace
            ≡ entry_of ns (total_of cost (of_namespace ns records)) =
        λ ns.
          get-group (λ r. r.namespace) add_total (new_namespace false) ns [] records
          ∙ entries ns (of_namespace ns records) in
      (
        total,
        sym total,
        by_namespace,
        λ ns. in_report ns ∙ ap (entry_of ns) (sym (by_namespace ns)),
        refl,
      )
