-- ===== src/Api/Roles.antt =====
-- pkg/api/middleware.go: which role may send which request. `strings.ToLower` is a parameter.
use text.Mathlib.Text.{starts_with}
use eks_financial_orchestrat.Common.{String, Bool, true, false, ◌&&◌, ◌||◌, ◌==◌, if◌then◌else◌}

abbrev pub role_viewer : String
role_viewer = "viewer"

abbrev pub role_editor : String
role_editor = "editor"

abbrev pub role_admin : String
role_admin = "admin"

-- The paths that an editor may post to.
abbrev pub is_editable : String → Bool
is_editable path =
    starts_with path "/api/v1/policies"
    || (starts_with path "/api/v1/reports" || starts_with path "/api/v1/recommendations")

-- `isAuthorized`
unfoldable pub is_authorized : String → String → String → Bool
is_authorized role method path =
    if role == role_admin
    then true
    else if role == role_editor
    then if method == "GET"
      then true
      else ((method == "POST") || (method == "PUT")) && is_editable path
    else if role == role_viewer
    then method == "GET"
    else false

-- The role in a request's header `X-FinOps-Role`.
unfoldable pub role_of : (String → String) → String → String
role_of to_lower header = let role = to_lower header in if role == "" then role_viewer else role

-- `RBACMiddleware`: `forbidden`, or what the next handler answers.
unfoldable pub rbac_middleware {ℓ} :
    {A : Type ℓ} → (String → String) → String → String → String → A → A → A
unfolding is_authorized role_of
rbac_middleware to_lower header method path forbidden next =
    if is_authorized (role_of to_lower header) method path then next else forbidden
