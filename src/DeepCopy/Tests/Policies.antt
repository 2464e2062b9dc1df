-- ===== src/DeepCopy/Tests/Policies.antt =====
-- A deep copy of a list of policies.
use eks_financial_orchestrat.Common.{ℕ, String, none, some, [], ◌∷◌, ◌≡◌, refl, arith}
use eks_financial_orchestrat.Common.Dict.{get}
use eks_financial_orchestrat.Memory.{Heap, return, load, load_as, copy_ref}
use eks_financial_orchestrat.Memory.View.{seen, view_ref, view_each}
use eks_financial_orchestrat.Memory.Laws.{plain-IsDeep}
use eks_financial_orchestrat.Memory.Independent.{write_all}
use eks_financial_orchestrat.DeepCopy.Object.{as_object, financial_policy_list_object}
use eks_financial_orchestrat.DeepCopy.Cells.{
  string_map_cell, floats_cell, strings_cell, time_cell, instance_mix_spec_cell, alerting_spec_cell,
  alerting_channels_cell, silence_windows_cell, policy_conditions_cell, financial_policies_cell,
  financial_policy_list_cell, financial_policy_list_slot,
}
use eks_financial_orchestrat.DeepCopy.Policy.{
  deep_copy_object_financial_policy_list, deep_copy_financial_policy_list,
}
use eks_financial_orchestrat.DeepCopy.Trees.{PolicyListTree}
use eks_financial_orchestrat.DeepCopy.Policy.View.{
  view_budget_spec, view_instance_mix_spec, view_alerting_channel_spec, view_silence_window_spec,
  view_alerting_spec, view_policy_condition, view_financial_policy_spec,
  view_financial_policy_status, view_financial_policy, view_financial_policy_list,
}
use eks_financial_orchestrat.DeepCopy.Independent.Lists.{
  deep_copy_object_financial_policy_list-independent,
}
use eks_financial_orchestrat.DeepCopy.Tests.{
  SmallCell, heap_of, same_time, copy_annotations, Annotations, see_annotations,
  copy_annotations-IsDeep, config, to_original, to_copy,
}

abbrev policy_heap : Heap SmallCell
policy_heap = heap_of (
    floats_cell (50 ∷ 80 ∷ [])
    ∷ strings_cell ("m5.large" ∷ [])
    ∷ instance_mix_spec_cell (record {
      min_on_demand_percent = 20;
      max_spot_percent = 80;
      allowed_instance_types = some 1;
    })
    ∷ string_map_cell config
    ∷ alerting_channels_cell (record { channel_type = "slack"; config = some 3 } ∷ [])
    ∷ silence_windows_cell (record { start = 1; end = 2; reason = "release" } ∷ [])
    ∷ alerting_spec_cell (record { channels = some 4; silence_windows = some 5 })
    ∷ time_cell 7
    ∷ policy_conditions_cell (
        record {
          condition_type = "Valid";
          status = "True";
          last_transition_time = 7;
          reason = "ok";
          message = "";
        }
        ∷ [])
    ∷ financial_policies_cell (
        record {
          type_meta = record { kind = "FinancialPolicy"; api_version = "v1alpha1" };
          object_meta = some 3;
          spec = record {
            target_namespace = "shop";
            budget = record {
              monthly_limit = 100;
              alert_thresholds = some 0;
              breach_action = "alert";
            };
            instance_mix = some 2;
            mode = "automatic";
            alerting = some 6;
            version = 1;
          };
          status = record {
            phase = "Active";
            current_cost = 10;
            budget_usage_percent = 10;
            last_evaluated = some 7;
            conditions = some 8;
          };
        }
        ∷ [])
    ∷ financial_policy_list_cell (record {
      type_meta = record { kind = "FinancialPolicyList"; api_version = "v1alpha1" };
      list_meta = "12";
      items = some 9;
    })
    ∷ [])

abbrev policy_tree : PolicyListTree ℕ Annotations String
policy_tree = record {
  type_meta = record { kind = "FinancialPolicyList"; api_version = "v1alpha1" };
  list_meta = "12";
  items = some (
      record {
        type_meta = record { kind = "FinancialPolicy"; api_version = "v1alpha1" };
        object_meta = some (λ k. get k config);
        spec = record {
          target_namespace = "shop";
          budget = record {
            monthly_limit = 100;
            alert_thresholds = some (50 ∷ 80 ∷ []);
            breach_action = "alert";
          };
          instance_mix = some (record {
            min_on_demand_percent = 20;
            max_spot_percent = 80;
            allowed_instance_types = some ("m5.large" ∷ []);
          });
          mode = "automatic";
          alerting = some (record {
            channels =
                some (record { channel_type = "slack"; config = some (λ k. get k config) } ∷ []);
            silence_windows = some (record { start = 1; end = 2; reason = "release" } ∷ []);
          });
          version = 1;
        };
        status = record {
          phase = "Active";
          current_cost = 10;
          budget_usage_percent = 10;
          last_evaluated = some 7;
          conditions = some (
              record {
                condition_type = "Valid";
                status = "True";
                last_transition_time = 7;
                reason = "ok";
                message = "";
              }
              ∷ []);
        };
      }
      ∷ []);
}

policy_tree-seen :
    view_ref financial_policy_list_slot
      (view_financial_policy_list see_annotations seen)
      (some 10)
      policy_heap
    ≡ some (some policy_tree)
unfolding view_ref view_each load_as load view_financial_policy_list view_financial_policy
    view_financial_policy_spec view_financial_policy_status view_budget_spec view_instance_mix_spec
    view_alerting_spec view_alerting_channel_spec view_silence_window_spec view_policy_condition
policy_tree-seen = refl

deep_copy_object_financial_policy_list-independent_example :
    (q : ℕ) × (h' : Heap SmallCell) × (deep_copy_object_financial_policy_list same_time
        copy_annotations return
        (some 10)
        policy_heap
      ≡ some (some (financial_policy_list_object, q), h'))
    × (view_ref financial_policy_list_slot
          (view_financial_policy_list see_annotations seen)
          (some q)
          (write_all to_original h')
        ≡ some (some policy_tree))
    × (view_ref financial_policy_list_slot
          (view_financial_policy_list see_annotations seen)
          (some 10)
          (write_all to_copy h')
        ≡ some (some policy_tree))
deep_copy_object_financial_policy_list-independent_example =
    deep_copy_object_financial_policy_list-independent (λ t. refl) copy_annotations-IsDeep
      plain-IsDeep policy_heap 10 policy_tree to_original to_copy policy_tree-seen (omega arith, tt)
      (omega arith, tt)

-- DeepCopyObject of a nil pointer is a nil interface.
deep_copy_object_nil :
    deep_copy_object_financial_policy_list same_time copy_annotations return none policy_heap
    ≡ some (none, policy_heap)
unfolding deep_copy_object_financial_policy_list deep_copy_financial_policy_list copy_ref as_object
deep_copy_object_nil = refl
