-- ===== src/Instance/Tests.antt =====
-- Runs of the instance manager.
use eks_financial_orchestrat.Common.{
  String, ◌≡◌, refl, true, Option, none, some, List, [], ◌∷◌, foldl, select, ◌==◌,
}
use eks_financial_orchestrat.Common.Dict.{get}
use eks_financial_orchestrat.Common.Fixed.{Fixed, whole, fixed_float, Fixed-IsOrdered}
use eks_financial_orchestrat.Common.Int.{◌+ℤ◌, ◌-ℤ◌}
use eks_financial_orchestrat.Common.Float.{◌≺◌}
use eks_financial_orchestrat.Common.Result.{ok}
use eks_financial_orchestrat.Types.{InstanceMixSpec, FinancialPolicy}
use eks_financial_orchestrat.Instance.{
  InstanceMixAnalysis, Node, Pod, classify_node, analyze_instance_mix, handle_spot_interruption,
}
use eks_financial_orchestrat.Instance.Recommend.{
  OptimizationRecommendation, generate_recommendation, recommend, constraints_of, choose_mix,
}
use eks_financial_orchestrat.Instance.Nodes.{
  Evicted, evict_one, IsCountEntry, handle_spot_interruption-Evicted,
  analyze_instance_mix-IsCountEntry,
}
use eks_financial_orchestrat.Instance.Limits.{
  generate_recommendation_on_demand, generate_recommendation_spot,
}

abbrev pods : List Pod
pods =
    record { name = "web"; namespace = "shop"; annotations = []; owner_kinds = "ReplicaSet" ∷ [] }
    ∷ record {
      name = "agent";
      namespace = "kube-system";
      annotations = [];
      owner_kinds = "DaemonSet" ∷ [];
    }
    ∷ []

-- Remembers the names, and refuses every eviction.
abbrev evict : String → String → List String → Option String × List String
evict ns name s = (some "disruption budget", name ∷ s)

handle_spot_interruption-Evicted_example :
    (qs : List Pod) × Evicted pods qs
    × (handle_spot_interruption evict (ok pods) [] ≡ foldl (evict_one evict) [] qs)
handle_spot_interruption-Evicted_example = handle_spot_interruption-Evicted evict pods []

abbrev nodes : List Node
nodes =
    record { labels = ("karpenter.sh/capacity-type", "SPOT") ∷ [] } ∷ record { labels = [] } ∷ []

analyze_instance_mix-IsCountEntry_example :
    IsCountEntry {F = Fixed} 2 "spot"
      (select (λ n. classify_node n == "spot") nodes)
      (get "spot" (analyze_instance_mix 1 nodes).by_purchase_option)
analyze_instance_mix-IsCountEntry_example = analyze_instance_mix-IsCountEntry Fixed 1 nodes "spot"

abbrev analysis : InstanceMixAnalysis Fixed
analysis = record {
  timestamp = 1;
  total_nodes = 4;
  by_purchase_option =
      ("on_demand", record { count = 4; percentage = whole 100; cost = whole 560 }) ∷ [];
  current_cost = whole 560;
  optimal_cost = whole 300;
  potential_savings = whole 260;
}

abbrev mix : InstanceMixSpec Fixed
mix = record {
  min_on_demand_percent = whole 30;
  max_spot_percent = whole 60;
  allowed_instance_types = [];
}

abbrev policy : FinancialPolicy Fixed
policy = record {
  name = "budget";
  namespace = "finops";
  annotations = none;
  resource_version = "";
  spec = record {
    target_namespace = "shop";
    budget = record { monthly_limit = whole 100; alert_thresholds = []; breach_action = "" };
    instance_mix = some mix;
    mode = "";
    alerting = none;
    version = 1;
  };
  status = record {
    phase = "Active";
    current_cost = whole 0;
    budget_usage_percent = whole 0;
    last_evaluated = none;
    conditions = [];
  };
}

generate_recommendation_on_demand_example :
    (r : OptimizationRecommendation Fixed) × (on_demand : Fixed) × (generate_recommendation 1
        (some analysis)
        (policy ∷ [])
      ≡ ok r)
    × (get "on_demand" r.recommended_mix ≡ some on_demand)
    × (¬ (on_demand ≺ whole 30))
generate_recommendation_on_demand_example =
    generate_recommendation_on_demand Fixed-IsOrdered 1 analysis (policy ∷ []) 0 policy mix refl
      refl refl

recommended :
    generate_recommendation 1 (some analysis) (policy ∷ [])
    ≡ ok (recommend 1 analysis (policy ∷ []))
unfolding generate_recommendation
recommended = refl

compliant : (recommend 1 analysis (policy ∷ [])).policy_compliant ≡ true
unfolding recommend choose_mix constraints_of get ◌+ℤ◌ ◌-ℤ◌
compliant = refl

compatible : ¬ (
    whole 100
    ≺ (constraints_of (policy ∷ [])).min_on_demand +ℤ (constraints_of (policy ∷ [])).max_spot)
unfolding constraints_of ◌+ℤ◌
compatible = λ e. cc

generate_recommendation_spot_example :
    (spot : Fixed) × (get "spot" (recommend 1 analysis (policy ∷ [])).recommended_mix ≡ some spot)
    × (¬ (whole 60 ≺ spot))
generate_recommendation_spot_example =
    generate_recommendation_spot Fixed-IsOrdered 1 analysis (policy ∷ []) 0 policy mix
      (recommend 1 analysis (policy ∷ [])) refl refl refl compatible recommended compliant
