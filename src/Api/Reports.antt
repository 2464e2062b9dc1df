-- ===== src/Api/Reports.antt =====
-- pkg/api/server.go and types.go: the bodies of the answers on costs.
pub mod Sums
use eks_financial_orchestrat.Common.{String, Option, List, [], foldl, false}
use eks_financial_orchestrat.Common.Dict.{Dict, alter, group}
use eks_financial_orchestrat.Common.Float.{Float, ◌⊕◌}
use eks_financial_orchestrat.Types.{Time}
use eks_financial_orchestrat.Collector.Costs.{DailyCostRecord, NamespaceCost, TeamCost}
use eks_financial_orchestrat.Collector.Correlate.{new_namespace}

pub record CostRecordResponse (F : Type 0) : Type 0 where
  pub total_cost : F
  pub team : String
  pub by_namespace : Dict F
  pub records : List (DailyCostRecord F)

pub record ReportParams : Type 0 where
  pub start_time : Time
  pub end_time : Time
  pub namespaces : List String
  pub teams : List String

-- `by_team` is the nil map in every report.
pub record CostReport (F : Type 0) : Type 0 where
  pub generated_at : Time
  pub start_time : Time
  pub end_time : Time
  pub total_cost : F
  pub by_namespace : Dict (NamespaceCost F)
  pub by_team : Dict (TeamCost F)

module _ {F : Type 0} ⦃fl : Float F⦄ where
  abbrev pub no_record_costs : List (DailyCostRecord F) → CostRecordResponse F
  no_record_costs records = record {
    total_cost = fl.of_nat 0;
    team = "";
    by_namespace = [];
    records = records;
  }

  abbrev pub add_record : CostRecordResponse F → DailyCostRecord F → CostRecordResponse F
  add_record resp r = record resp {
    total_cost = resp.total_cost ⊕ r.total_cost;
    by_namespace = alter r.namespace (λ t. t ⊕ r.total_cost) (fl.of_nat 0) resp.by_namespace;
  }

  -- `buildCostResponse`
  unfoldable pub build_cost_response : List (DailyCostRecord F) → CostRecordResponse F
  build_cost_response records = foldl add_record (no_record_costs records) records

  abbrev pub add_total : NamespaceCost F → DailyCostRecord F → NamespaceCost F
  add_total c r = record c { total_cost = c.total_cost ⊕ r.total_cost }

  -- `buildCostReport`
  unfoldable pub build_cost_report : Time → ReportParams → List (DailyCostRecord F) → CostReport F
  build_cost_report now params records = record {
    generated_at = now;
    start_time = params.start_time;
    end_time = params.end_time;
    total_cost = foldl (λ t r. t ⊕ r.total_cost) (fl.of_nat 0) records;
    by_namespace = group (λ r. r.namespace) add_total (new_namespace false) [] records;
    by_team = [];
  }
