-- ===== src/App/Routes.antt =====
-- The tables of routes: the functions Register of the adapters of the domains, RegisterOps of
-- internal/platform/httpx/server.go, and the order in which New of internal/app/app.go calls them. A
-- route names the handler that it calls; how echo matches a path is not modelled.
use base_template_server_go.Base.{
  Bool, Bool-cases, List, String, [], false, if◌then◌else◌, inl, inr, nat_eq, not, refl, string_eq,
  true, ◌&&◌, ◌++◌, ◌==◌, ◌||◌, ◌∷◌, ◌≡◌, ◌⧺◌,
}
use base_template_server_go.Config.{MetricsConfig}

pub data Handler : Type 0 where
  healthz : Handler
  healthy : Handler
  readyz : Handler
  metrics : Handler
  todos_api_create : Handler
  todos_api_list : Handler
  todos_api_get : Handler
  todos_api_update : Handler
  todos_api_delete : Handler
  todos_api_get_legacy : Handler
  todos_api_update_legacy : Handler
  todos_api_delete_legacy : Handler
  todos_web_list : Handler
  todos_web_create : Handler
  todos_web_delete : Handler
  auth_api_register : Handler
  auth_api_login : Handler
  auth_api_logout : Handler
  auth_api_create_token : Handler
  auth_web_login_form : Handler
  auth_web_login : Handler
  reports_api_create : Handler
  reports_api_list : Handler
  reports_api_get : Handler
  reports_web_list : Handler
  reports_web_create : Handler
  reports_web_show : Handler
  reports_web_status_fragment : Handler

pub record Route : Type 0 where
  pub method : String
  pub path : String
  pub handler : Handler

abbrev route : String → String → Handler → Route
route method path handler = record { method = method; path = path; handler = handler }

-- e.Group(prefix)
abbrev grouped : String → List Route → List Route
grouped prefix [] = []
grouped prefix (r ∷ rs) = record r { path = prefix ⧺ r.path } ∷ grouped prefix rs

unfoldable pub ops : MetricsConfig → List Route
ops cfg =
    route "GET" "/healthz" healthz
    ∷ route "GET" "/health" healthy
    ∷ route "GET" "/" healthy
    ∷ route "GET" "/readyz" readyz
    ∷ (if cfg.enabled then route "GET" "/metrics" metrics ∷ [] else [])

unfoldable pub todos_api : List Route
todos_api = grouped "/api/v1" (
    route "POST" "/todos" todos_api_create
    ∷ route "GET" "/todos" todos_api_list
    ∷ route "GET" "/todos/:id" todos_api_get
    ∷ route "PUT" "/todos/:id" todos_api_update
    ∷ route "DELETE" "/todos/:id" todos_api_delete
    ∷ route "POST" "/create-todo" todos_api_create
    ∷ route "PUT" "/update-todo/:todo-id" todos_api_update_legacy
    ∷ route "DELETE" "/delete-todo/:todo-id" todos_api_delete_legacy
    ∷ route "GET" "/todo/:todo-id" todos_api_get_legacy
    ∷ [])

unfoldable pub todos_web : List Route
todos_web = grouped "/app" (
    route "GET" "/todos" todos_web_list
    ∷ route "POST" "/todos" todos_web_create
    ∷ route "DELETE" "/todos/:id" todos_web_delete
    ∷ [])

unfoldable pub auth_api : List Route
auth_api = grouped "/api/v1/auth" (
    route "POST" "/register" auth_api_register
    ∷ route "POST" "/login" auth_api_login
    ∷ route "POST" "/logout" auth_api_logout
    ∷ route "POST" "/token" auth_api_create_token
    ∷ [])

unfoldable pub auth_web : List Route
auth_web =
    route "GET" "/app/login" auth_web_login_form ∷ route "POST" "/app/login" auth_web_login ∷ []

unfoldable pub reports_api : List Route
reports_api = grouped "/api/v1/reports" (
    route "POST" "" reports_api_create
    ∷ route "GET" "" reports_api_list
    ∷ route "GET" "/:id" reports_api_get
    ∷ [])

unfoldable pub reports_web : List Route
reports_web = grouped "/app" (
    route "GET" "/reports" reports_web_list
    ∷ route "POST" "/reports" reports_web_create
    ∷ route "GET" "/reports/:id" reports_web_show
    ∷ route "GET" "/reports/:id/status" reports_web_status_fragment
    ∷ [])

unfoldable pub routes : MetricsConfig → List Route
unfolding ops todos_api todos_web auth_api auth_web reports_api reports_web
routes cfg = ops cfg ++ todos_api ++ todos_web ++ auth_api ++ auth_web ++ reports_api ++ reports_web

abbrev same_route : Route → Route → Bool
same_route r s = r.method == s.method && r.path == s.path

abbrev has_route : Route → List Route → Bool
has_route r [] = false
has_route r (s ∷ rs) = same_route r s || has_route r rs

abbrev distinct : List Route → Bool
distinct [] = true
distinct (r ∷ rs) = not (has_route r rs) && distinct rs

-- No registration replaces another, whether metrics are served or not.
routes-distinct : (cfg : MetricsConfig) → distinct (routes cfg) ≡ true
unfolding routes ops todos_api todos_web auth_api auth_web reports_api reports_web
routes-distinct cfg = elim (Bool-cases cfg.enabled) [
  | inl served ↦ rw served refl
  | inr hidden ↦ rw hidden refl
]
