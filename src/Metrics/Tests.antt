-- ===== src/Metrics/Tests.antt =====
-- Requests that are counted.
use base_template_server_go.Base.{List, [], decimal, none, refl, suc, ℕ, ◌+◌, ◌∷◌, ◌≡◌, ◌≤◌}
use base_template_server_go.Op.{Op, err, ok}
use base_template_server_go.Errors.{not_found, sentinel}
use base_template_server_go.Httpx.{describe}
use base_template_server_go.Metrics.{Call, Metered, middleware, observed, path_label}
use base_template_server_go.Metrics.Counts.{Served, matching, serve, serve-matching}
use base_template_server_go.Metrics.Failures.{middleware-describe}

abbrev fresh : Metered ℕ ℕ
fresh = record {
  registry = record {
    http_requests_total = λ m p code. 0;
    http_request_duration = [];
    http_request_size_bytes = [];
    http_response_size_bytes = [];
    jobs_processed_total = λ t s. 0;
  };
  status = 200;
  size = 0;
  rest = 0;
}

abbrev get : Call
get = record { method = "GET"; path = "/app/todos"; content_length = none }

-- A handler that finds no row, and one that redirects.
abbrev missing : Op (Metered ℕ ℕ) (Unit {0})
missing w = (err (sentinel not_found), w)

abbrev moved : Op (Metered ℕ ℕ) (Unit {0})
moved w = (ok tt, record w { status = 303 })

abbrev begin : ℕ → Metered ℕ ℕ → Metered ℕ ℕ
begin n w = record w { status = 200; size = 0; rest = n }

abbrev requests : List (ℕ × Served ℕ ℕ)
requests =
    (1, record { call = get; elapsed = λ w. 5; next = missing })
    ∷ (2, record { call = get; elapsed = λ w. 6; next = moved })
    ∷ (3, record { call = get; elapsed = λ w. 7; next = moved })
    ∷ []

two_moved : matching begin "GET" "/app/todos" "303" requests fresh ≡ 2
unfolding matching middleware observed decimal
two_moved = refl

serve-matching_example :
    (serve begin requests fresh).registry.http_requests_total "GET" "/app/todos" "303"
    ≡ 0 + matching begin "GET" "/app/todos" "303" requests fresh
serve-matching_example =
    serve-matching begin requests fresh "GET" "/app/todos" "303" (λ s x. refl)
      (λ w. refl, (λ w. refl, (λ w. refl, tt)))

middleware-describe_example :
    let (res, z) = middleware get (λ w. 5) missing fresh in
    (res ≡ err (sentinel not_found))
    × (400 ≤ (describe (λ n. "") (sentinel not_found)).status)
    × (z.registry.http_requests_total "GET" (path_label "/app/todos") "200" ≡ suc 0)
middleware-describe_example =
    middleware-describe (λ n. "") get (λ w. 5) missing fresh (sentinel not_found) refl refl refl
