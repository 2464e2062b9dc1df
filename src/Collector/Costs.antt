-- ===== src/Collector/Costs.antt =====
-- The records of pkg/collector/types.go that the cost pipeline works on.
use eks_financial_orchestrat.Common.{ℕ, String, Bool, Option, List}
use eks_financial_orchestrat.Common.Dict.{Dict}
use eks_financial_orchestrat.Types.{Time}

pub record PodMetrics (F : Type 0) : Type 0 where
  pub name : String
  pub namespace : String
  pub node_name : String
  pub cpu_usage : F
  pub mem_usage : F
  pub net_usage : F
  pub storage : F
  pub labels : Option (Dict String)

pub record NodeMetrics (F : Type 0) : Type 0 where
  pub name : String
  pub instance_type : String
  pub purchase_option : String
  pub cpu_capacity : F
  pub cpu_usage : F
  pub mem_capacity : F
  pub mem_usage : F
  pub net_usage : F
  pub storage : F
  pub labels : Option (Dict String)

pub record ClusterMetrics (F : Type 0) : Type 0 where
  pub timestamp : Time
  pub pods : List (PodMetrics F)
  pub nodes : List (NodeMetrics F)

pub record AwsCostData (F : Type 0) : Type 0 where
  pub start_time : Time
  pub end_time : Time
  pub by_service : Dict F
  pub by_tag : Dict F
  pub total_cost : F
  pub is_approximate : Bool

-- `tags` is empty for the nil map.
pub record CurLineItem (F : Type 0) : Type 0 where
  pub resource_id : String
  pub service_code : String
  pub usage_type : String
  pub purchase_option : String
  pub cost : F
  pub tags : Dict String

pub record CurData (F : Type 0) : Type 0 where
  pub start_time : Time
  pub end_time : Time
  pub line_items : List (CurLineItem F)
  pub total_cost : F

-- `day_of_week` and `day_of_month` follow from the date.
pub record DailyCostRecord (F : Type 0) : Type 0 where
  pub date : Time
  pub namespace : String
  pub total_cost : F
  pub day_of_week : ℕ
  pub day_of_month : ℕ

pub record NamespaceCost (F : Type 0) : Type 0 where
  pub namespace : String
  pub team : String
  pub direct_cost : F
  pub shared_cost : F
  pub total_cost : F
  pub by_service : Dict F
  pub by_pod : Dict F
  pub is_approximate : Bool

pub record TeamCost (F : Type 0) : Type 0 where
  pub team : String
  pub direct_cost : F
  pub indirect_cost : F
  pub total_cost : F
  pub namespaces : Dict F

pub record AggregatedCosts (F : Type 0) : Type 0 where
  pub timestamp : Time
  pub by_namespace : Dict (NamespaceCost F)
  pub by_team : Dict (TeamCost F)
  pub total_cost : F
