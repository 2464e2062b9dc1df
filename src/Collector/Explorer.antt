-- ===== src/Collector/Explorer.antt =====
-- pkg/collector/aws.go: costs from the AWS Cost Explorer. The client is a parameter, known by what each
-- call returns, and `parse_float` is `strconv.ParseFloat`.
pub mod Sums
pub mod Report
use Prim.Native.String.{slice, len}
use text.Mathlib.Text.{starts_with}
use eks_financial_orchestrat.Common.{
  ℕ, zero, suc, ◌+◌, ◌-◌, String, Bool, true, false, not, Option, none, some, List, [], ◌∷◌, ◌++◌,
  foldl, map, select, get_elem?, ◌==◌, if◌then◌else◌,
}
use eks_financial_orchestrat.Common.Dict.{Dict, get, put, alter, or_zero}
use eks_financial_orchestrat.Common.Float.{Float, ◌⊕◌}
use eks_financial_orchestrat.Common.Result.{Result, ok, err}
use eks_financial_orchestrat.Types.{Time}
use eks_financial_orchestrat.Collector.Backoff.{
  CallError, Calls, RetryError, Retried, retry_with_backoff,
}
use eks_financial_orchestrat.Collector.Costs.{AwsCostData}

abbrev pub max_retries : ℕ
max_retries = 5

abbrev pub tag_key_prefix : String
tag_key_prefix = "tag$"

-- A group of the response; an amount is a pointer that may be nil.
pub record CostGroup : Type 0 where
  pub keys : List String
  pub metrics : Dict (Option String)

pub record ResultByTime : Type 0 where
  pub groups : List CostGroup

-- `strings.TrimPrefix`
abbrev pub trim_prefix : String → String → String
trim_prefix s prefix = if starts_with s prefix then slice s (len prefix) (len s) else s

-- What `retryWithBackoff` leaves: the answer of its last call, or its error.
abbrev pub last_answer {ℓ} : {A : Type ℓ} → (ℕ → A) → Retried → Result RetryError A
last_answer answers r = elim r.error [ none ↦ ok (answers (r.calls - 1)) | some e ↦ err e ]

module _ {F : Type 0} ⦃fl : Float F⦄ where
  abbrev pub add_to : String → F → Dict F → Dict F
  add_to k x m = alter k (λ t. t ⊕ x) (fl.of_nat 0) m

  abbrev pub add_service : List String → F → Dict F → Dict F
  add_service [] x m = m
  add_service (service ∷ ks) x m = add_to service x m

  abbrev pub add_tag : List String → F → Dict F → Dict F
  add_tag [] x m = m
  add_tag (service ∷ []) x m = m
  add_tag (service ∷ raw ∷ ks) x m =
      let tag = trim_prefix raw tag_key_prefix in if not (tag == "") then add_to tag x m else m

  abbrev pub no_costs : Time → Time → AwsCostData F
  no_costs start end = record {
    start_time = start;
    end_time = end;
    by_service = [];
    by_tag = [];
    total_cost = fl.of_nat 0;
    is_approximate = false;
  }

module _ {F : Type 0} ⦃fl : Float F⦄ (parse_float : String → Option F) where
  -- The amount of a group: 0 if it is missing, or is no number.
  abbrev pub parse_amount : Option (Option String) → F
  parse_amount (some (some text)) = or_zero (fl.of_nat 0) (parse_float text)
  parse_amount (some none) = fl.of_nat 0
  parse_amount none = fl.of_nat 0

  abbrev pub amount_of : CostGroup → F
  amount_of g = parse_amount (get "UnblendedCost" g.metrics)

  -- The body of the inner loop.
  abbrev pub add_group : AwsCostData F → CostGroup → AwsCostData F
  add_group d g = record d {
    total_cost = d.total_cost ⊕ amount_of g;
    by_service = add_service g.keys (amount_of g) d.by_service;
    by_tag = add_tag g.keys (amount_of g) d.by_tag;
  }

  -- `parseCostExplorerOutput`
  unfoldable pub parse_cost_explorer_output : List ResultByTime → Time → Time → AwsCostData F
  parse_cost_explorer_output results start end =
      foldl (λ d r. foldl add_group d r.groups) (no_costs start end) results

  -- `FetchCosts`, for the outcomes and the answers of `GetCostAndUsage`.
  unfoldable pub fetch_costs :
      Calls F → (ℕ → List ResultByTime) → Time → Time → Result RetryError (AwsCostData F)
  unfolding parse_cost_explorer_output
  fetch_costs calls answers start end =
      elim (last_answer answers (retry_with_backoff calls max_retries)) [
        | ok results ↦ ok (parse_cost_explorer_output results start end)
        | err e ↦ err e
      ]
