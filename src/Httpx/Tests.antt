-- ===== src/Httpx/Tests.antt =====
-- Answers to errors, and the theorems at them.
use base_template_server_go.Base.{
  [], false, nat_eq, none, refl, some, string_eq, true, ℕ, ◌==◌, ◌∷◌, ◌≡◌,
}
use base_template_server_go.Errors.{
  GoError, foreign, http_error, internal, not_found, sentinel, text, wrap,
}
use base_template_server_go.Httpx.{
  Asked, Library, describe, error_handler, error_page, is_api, json, map_error, page, respond,
  wants_html,
}
use base_template_server_go.Op.{fail, pure}
use base_template_server_go.Config.{MetricsConfig}
use base_template_server_go.Httpx.Operations.{
  allow_credentials, metrics_handler, not_ready, ready, readyz, run_checks,
}
use base_template_server_go.Httpx.Disclosure.{error_handler_hides}

abbrev library : Library
library = record {
  status_text = λ status. "Status";
  escape_string = λ s. s;
  has_prefix = λ s prefix. s == "/api/v1/todos";
}

abbrev api_request : Asked
api_request = record { committed = false; is_htmx = false; accept = ""; route = "/api/v1/todos" }

abbrev missing : GoError
missing = wrap (sentinel not_found) "todo not found"

tests :
    (error_handler library missing api_request
      ≡ json 404 "NOT_FOUND" "not found: todo not found" none)
    × (error_handler library
          (foreign "dial tcp")
          (record api_request { accept = "text/html"; route = "/app" })
        ≡ page 500 "pages/errors/500.html" "Status" "An unexpected error occurred")
    × (error_handler library (wrap (http_error 404 none) "x") api_request
        ≡ json 500 "INTERNAL_SERVER_ERROR" "An unexpected error occurred" none)
unfolding error_handler respond describe map_error wants_html is_api error_page text
tests = (refl, refl, refl)

error_handler_hides_example :
    (error_handler library (foreign "dial tcp") api_request
      ≡ error_handler library (wrap (sentinel internal) "create user") api_request)
    × ((describe library.status_text (foreign "dial tcp")).status ≡ 500)
error_handler_hides_example =
    error_handler_hides library api_request (foreign "dial tcp")
      (wrap (sentinel internal) "create user") (refl, refl, refl, refl, refl, refl, refl, refl)
      (refl, refl, refl, refl, refl, refl, refl, refl)

abbrev private_metrics : MetricsConfig
private_metrics = record {
  enabled = true;
  basic_auth_user = "prometheus";
  basic_auth_pass = "secret";
  public = false;
}

operations :
    (metrics_handler {A = ℕ} private_metrics (some ("prometheus", "secret")) 200 401 ≡ 200)
    × (metrics_handler {A = ℕ} private_metrics (some ("prometheus", "")) 200 401 ≡ 401)
    × (metrics_handler {A = ℕ}
          (record private_metrics { basic_auth_user = ""; basic_auth_pass = "" })
          (some ("", ""))
          200
          401
        ≡ 200)
    × (allow_credentials ("*" ∷ []) ≡ false)
    × ((readyz {S = ℕ} (pure tt) (pure tt ∷ fail (foreign "jobs") ∷ []) 0).0 ≡ not_ready none)
unfolding metrics_handler allow_credentials readyz run_checks
operations = (refl, refl, refl, refl, refl)

well : (readyz {S = ℕ} (pure tt) (pure tt ∷ []) 0).0 ≡ ready
unfolding readyz run_checks
well = refl
