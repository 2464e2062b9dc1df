-- ===== src/Collector/Default.antt =====
-- pkg/collector/collector.go: the construction of a `DefaultCostCollector`, and its method around the
-- correlation. `Clients` are those of Kubernetes, `Fetcher` that of AWS.
use eks_financial_orchestrat.Common.{ℕ, String, Option, none, some, List, [], ◌∷◌, length}
use eks_financial_orchestrat.Common.Float.{Float}
use eks_financial_orchestrat.Types.{Time}
use eks_financial_orchestrat.Collector.Costs.{AwsCostData, ClusterMetrics, AggregatedCosts}
use eks_financial_orchestrat.Collector.Cache.{CostCache}
use eks_financial_orchestrat.Collector.Correlate.{correlate_and_aggregate, pods_of, aws_total}

pub record DefaultCostCollector (Clients Fetcher F : Type 0) : Type 0 where
  pub clients : Clients
  pub aws_fetcher : Option Fetcher
  pub cache : Option (CostCache F)
  pub cur_bucket : String
  pub cur_prefix : String

pub record CostCollectorConfig (Fetcher F : Type 0) : Type 0 where
  pub aws_fetcher : Option Fetcher
  pub cache : Option (CostCache F)
  pub cur_bucket : String
  pub cur_prefix : String

module _ {Clients Fetcher F : Type 0} where
  -- The first of the optional arguments counts, unless it is nil.
  unfoldable pub new_default_cost_collector :
      Clients
      → List (Option (CostCollectorConfig Fetcher F))
      → DefaultCostCollector Clients Fetcher F
  new_default_cost_collector clients (some cfg ∷ rest) = record {
    clients = clients;
    aws_fetcher = cfg.aws_fetcher;
    cache = cfg.cache;
    cur_bucket = cfg.cur_bucket;
    cur_prefix = cfg.cur_prefix;
  }
  new_default_cost_collector clients _ = record {
    clients = clients;
    aws_fetcher = none;
    cache = none;
    cur_bucket = "";
    cur_prefix = "";
  }

-- The two log lines of `CorrelateAndAggregate`.
pub data CorrelationLog (F : Type 0) : Type 0 where
  correlating : (pods : ℕ) (aws_total_cost : F) → CorrelationLog F
  correlated : (namespaces teams : ℕ) (total_cost : F) → CorrelationLog F

module _ {F : Type 0} ⦃fl : Float F⦄ where
  abbrev pub log_of :
      Option (ClusterMetrics F)
      → Option (AwsCostData F)
      → AggregatedCosts F
      → List (CorrelationLog F)
  log_of metrics costs result =
      correlating (length (pods_of metrics)) (aws_total costs)
      ∷ correlated (length result.by_namespace) (length result.by_team) result.total_cost
      ∷ []

  -- The method `CorrelateAndAggregate`, with what it logs; the function that it calls has no error.
  unfoldable pub correlate :
      Time
      → Option (ClusterMetrics F)
      → Option (AwsCostData F)
      → AggregatedCosts F × List (CorrelationLog F)
  correlate now metrics costs =
      let result = correlate_and_aggregate now metrics costs in
      (result, log_of metrics costs result)
