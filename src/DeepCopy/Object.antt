-- ===== src/DeepCopy/Object.antt =====
-- `runtime.Object`: nil, or a pointer to a struct of one of the types that the scheme knows.
use eks_financial_orchestrat.Common.{ℕ, Option, none, some}
use eks_financial_orchestrat.Memory.{Ref}

pub data ObjectType : Type 0 where
  financial_policy_object : ObjectType
  financial_policy_list_object : ObjectType
  cost_report_object : ObjectType
  cost_report_list_object : ObjectType
  optimization_action_object : ObjectType
  optimization_action_list_object : ObjectType

abbrev pub Object : Type 0
Object = Option (ObjectType × ℕ)

-- `if c := in.DeepCopy(); c != nil { return c }; return nil`
unfoldable pub as_object : ObjectType → Ref → Object
as_object type none = none
as_object type (some q) = some (type, q)
