-- ===== src/Api/Server/Access.antt =====
-- pkg/api/server.go and middleware.go: who is served at which route.
use Prim.Native.String.{◌++◌}
use text.Mathlib.TextPositions.{starts_with-append}
use eks_financial_orchestrat.Common.{
  String, ◌≡◌, ◌≢◌, refl, subst, ◌⊎◌, inl, inr, ◌↔◌, Bool, true, Bool-cases, arith, eq_iff,
  if◌then◌else◌,
}
use eks_financial_orchestrat.Common.Float.{Float}
use eks_financial_orchestrat.Types.{Time}
use eks_financial_orchestrat.Api.Roles.{
  role_viewer, role_editor, role_admin, is_editable, is_authorized, role_of, rbac_middleware,
}
use eks_financial_orchestrat.Api.Handlers.{Response, Backend, Texts}
use eks_financial_orchestrat.Api.Server.{
  Route, healthz, readyz, costs, forecasts, reports, policies, instance_mix, recommendations,
  audit_log, costs_namespace, costs_team, forecasts_namespace, policy_status, approve, Request,
  method_of, path_of, is_api, forbidden, handle, serve_http,
}

abbrev pub MayEdit : String → Type 0
MayEdit role = (role ≡ "admin") ⊎ (role ≡ "editor")

abbrev pub MayRead : String → Type 0
MayRead role = MayEdit role ⊎ (role ≡ "viewer")

-- The role of a request, by its header: in lower case, or "viewer" without one.
abbrev pub IsRole : (String → String) → String → String → Type 0
IsRole to_lower header role =
    ((to_lower header ≡ "") × (role ≡ "viewer"))
    ⊎ ((to_lower header ≢ "") × (role ≡ to_lower header))

role_of-eq :
    (to_lower : String → String) (header role : String)
    → IsRole to_lower header role
    → role_of to_lower header ≡ role
unfolding role_of
role_of-eq to_lower header role h = ground (arith, eq_iff (to_lower header) "")

-- Who may use a route.
abbrev pub May : Route → String → Type 0
May healthz role = Unit
May readyz role = Unit
May reports role = MayEdit role
May (approve id) role = MayEdit role
May _ role = MayRead role

is_authorized-get : (role path : String) → (is_authorized role "GET" path ≡ true) ↔ MayRead role
unfolding is_authorized
is_authorized-get role path = ground (
  arith,
  eq_iff role role_admin,
  eq_iff role role_editor,
  eq_iff role role_viewer,
  eq_iff "GET" "GET",
)

is_authorized-post :
    (role path : String)
    → is_editable path ≡ true
    → (is_authorized role "POST" path ≡ true) ↔ MayEdit role
unfolding is_authorized
is_authorized-post role path editable =
    ground (arith, eq_iff role role_admin, eq_iff role role_editor, eq_iff role role_viewer)

is_editable-reports : is_editable (path_of reports) ≡ true
is_editable-reports = refl

is_editable-approve : (id : String) → is_editable (path_of (approve id)) ≡ true
is_editable-approve id =
    rw (starts_with-append "/api/v1/recommendations" ("/" ++ (id ++ "/approve"))) (ground arith)

-- What is answered, by whether the condition `P` holds.
abbrev pub Passes {ℓ} : {A : Type ℓ} → Type 0 → A → A → A → Type ℓ
Passes P handled refused answer = (P × (answer ≡ handled)) ⊎ ((¬ P) × (answer ≡ refused))

guarded {ℓ} :
    {A : Type ℓ} {P : Type 0} (b : Bool) (handled refused : A)
    → (b ≡ true) ↔ P
    → Passes P handled refused (if b then handled else refused)
guarded b handled refused h = elim (Bool-cases b) [
  | inl t ↦ inl (h.0 t, rw t refl)
  | inr f ↦ inr (λ p. cc (f, h.1 p), rw f refl)
]

module _ {F : Type 0} ⦃fl : Float F⦄ (backend : Backend F) (texts : Texts) (now : Time) where
  -- Every route below /api/v1 answers with its handler to the roles that may use it, and with 403 to
  -- all others: reports and approvals are for admins and editors, all other routes are also for
  -- viewers. The role is the text of the role header in lower case, or viewer where that is empty;
  -- a request with any other role is refused. The two probes are open to everyone.
  pub serve_http-Passes :
      (r : Request) (role : String)
      → IsRole texts.to_lower r.role_header role
      → Passes
          (May r.route role)
          (handle backend texts now r)
          forbidden
          (serve_http backend texts now r)
  unfolding serve_http rbac_middleware
  serve_http-Passes r role is =
      subst
        (λ x.
          Passes (May r.route x) (handle backend texts now r) forbidden
            (serve_http backend texts now r))
        (role_of-eq texts.to_lower r.role_header role is) (go r.route)
    where
      own : String
      own = role_of texts.to_lower r.role_header

      served : Route → Response F
      served route =
          if is_api route
          then rbac_middleware texts.to_lower r.role_header (method_of route) (path_of route)
              forbidden (handle backend texts now r)
          else handle backend texts now r

      read :
          (path : String)
          → Passes (MayRead own) (handle backend texts now r) forbidden (
              rbac_middleware texts.to_lower r.role_header "GET" path forbidden
                (handle backend texts now r))
      read path = guarded (is_authorized own "GET" path) _ _ (is_authorized-get own path)

      edit :
          (path : String)
          → is_editable path ≡ true
          → Passes (MayEdit own) (handle backend texts now r) forbidden (
              rbac_middleware texts.to_lower r.role_header "POST" path forbidden
                (handle backend texts now r))
      edit path h = guarded (is_authorized own "POST" path) _ _ (is_authorized-post own path h)

      go :
          (route : Route)
          → Passes (May route own) (handle backend texts now r) forbidden (served route)
      go healthz = inl (tt, refl)
      go readyz = inl (tt, refl)
      go costs = read (path_of costs)
      go forecasts = read (path_of forecasts)
      go reports = edit (path_of reports) is_editable-reports
      go policies = read (path_of policies)
      go instance_mix = read (path_of instance_mix)
      go recommendations = read (path_of recommendations)
      go audit_log = read (path_of audit_log)
      go (costs_namespace n) = read (path_of (costs_namespace n))
      go (costs_team t) = read (path_of (costs_team t))
      go (forecasts_namespace n) = read (path_of (forecasts_namespace n))
      go (policy_status n) = read (path_of (policy_status n))
      go (approve id) = edit (path_of (approve id)) (is_editable-approve id)
