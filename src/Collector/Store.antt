-- ===== src/Collector/Store.antt =====
-- pkg/collector/store.go: `TimescaleDBCostStore`. The database is a parameter: `send` is `SendBatch`,
-- with the error of each row and the new state, and `run` is `Query`; `weekday` and `day` are those of
-- `time.Time`. White space in a query's text is not kept.
pub mod Direct
use Prim.Native.String.{◌++◌}
use eks_financial_orchestrat.Common.{
  ℕ, zero, suc, String, Bool, Option, none, some, List, [], ◌∷◌, map, length, ◌==◌, if◌then◌else◌,
}
use mathlib.Core.List
use eks_financial_orchestrat.Common.Dict.{Dict}
use eks_financial_orchestrat.Common.Float.{Float}
use eks_financial_orchestrat.Common.Result.{Result, ok, err}
use eks_financial_orchestrat.Sql.{SqlArg, time_arg, text_arg, Query, Rows, QueryError, read_answer}
use eks_financial_orchestrat.Types.{Time}
use eks_financial_orchestrat.Collector.Costs.{NamespaceCost, AggregatedCosts, DailyCostRecord}

-- A row of the table cost_records.
pub record CostRow (F : Type 0) : Type 0 where
  pub time : Time
  pub namespace : String
  pub service : String
  pub team : String
  pub pod_name : String
  pub node_name : String
  pub instance_type : String
  pub purchase_option : String
  pub cpu_cost : F
  pub memory_cost : F
  pub network_cost : F
  pub storage_cost : F
  pub total_cost : F
  pub is_approximate : Bool

pub data StoreError : Type 0 where
  nil_costs : StoreError
  row_failed : ℕ → String → StoreError

-- The first of the rows i, ..., i + n - 1 whose insertion failed.
abbrev pub first_failure : (ℕ → Option String) → ℕ → ℕ → Option StoreError
first_failure executed i zero = none
first_failure executed i (suc n) = elim (executed i) [
  | some e ↦ some (row_failed i e)
  | none ↦ first_failure executed (suc i) n
]

module _ {F : Type 0} ⦃fl : Float F⦄ where
  abbrev pub cost_row : Time → String → NamespaceCost F → String → F → CostRow F
  cost_row now ns c pod cost = record {
    time = now;
    namespace = ns;
    service = "";
    team = c.team;
    pod_name = pod;
    node_name = "";
    instance_type = "";
    purchase_option = "";
    cpu_cost = fl.of_nat 0;
    memory_cost = fl.of_nat 0;
    network_cost = fl.of_nat 0;
    storage_cost = fl.of_nat 0;
    total_cost = cost;
    is_approximate = c.is_approximate;
  }

  -- One row for each pod of a namespace, or one for a namespace without pods.
  abbrev pub namespace_rows : Time → String → NamespaceCost F → Dict F → List (CostRow F)
  namespace_rows now ns c [] = cost_row now ns c "" c.total_cost ∷ []
  namespace_rows now ns c (p ∷ ps) = map (λ e. cost_row now ns c e.0 e.1) (p ∷ ps)

  abbrev pub entries_rows : Time → Dict (NamespaceCost F) → List (CostRow F)
  entries_rows now [] = []
  entries_rows now ((ns, c) ∷ m) = List.◌++◌ (namespace_rows now ns c c.by_pod) (entries_rows now m)

  -- The rows that `StoreCostRecords` queues in its batch.
  unfoldable pub rows_of : AggregatedCosts F → List (CostRow F)
  rows_of costs = entries_rows costs.timestamp costs.by_namespace

  module _ {S : Type 0} (send : List (CostRow F) → S → (ℕ → Option String) × S) where
    abbrev pub send_rows : List (CostRow F) → S → Option StoreError × S
    send_rows [] s = (none, s)
    send_rows (r ∷ rs) s =
        let (executed, s') = send (r ∷ rs) s in (first_failure executed 0 (length (r ∷ rs)), s')

    -- `StoreCostRecords`
    unfoldable pub store_cost_records : Option (AggregatedCosts F) → S → Option StoreError × S
    unfolding rows_of
    store_cost_records none s = (some nil_costs, s)
    store_cost_records (some costs) s = send_rows (rows_of costs) s

abbrev pub cost_query_text : String → String
cost_query_text namespace =
    "SELECT time_bucket('1 day', time) AS day, namespace, SUM(total_cost) AS total_cost FROM cost_records WHERE time >= $1 AND time < $2"
    ++ ((if namespace == "" then "" else " AND namespace = $3")
        ++ " GROUP BY day, namespace ORDER BY day ASC")

unfoldable pub cost_query : Time → Time → String → Query
cost_query start end namespace = record {
  text = cost_query_text namespace;
  args =
      if namespace == ""
      then time_arg start ∷ time_arg end ∷ []
      else time_arg start ∷ time_arg end ∷ text_arg namespace ∷ [];
}

-- `QueryCostRecords`
unfoldable pub query_cost_records :
    {F : Type 0}
    → (Time → ℕ)
    → (Time → ℕ)
    → (Query → Result String (Rows (Time × String × F)))
    → Time
    → Time
    → String
    → Result QueryError (List (DailyCostRecord F))
unfolding cost_query
query_cost_records weekday day run start end namespace =
    read_answer
      (λ row. record {
        date = row.0;
        namespace = row.1;
        total_cost = row.2;
        day_of_week = weekday row.0;
        day_of_month = day row.0;
      })
      (run (cost_query start end namespace))
