-- ===== src/Logging/Tests.antt =====
-- One request through the middleware.
use base_template_server_go.Base.{String, [], none, refl, some, ℕ, ◌++◌, ◌∷◌, ◌≡◌}
use base_template_server_go.Op.{Op, ok}
use base_template_server_go.Authn.{Context, background}
use base_template_server_go.Logging.{
  LogEntry, Logged, Surroundings, Traffic, context_with_request_id, info, log, middleware,
  new_entry, request_id, request_id_from_context, with_context,
}
use base_template_server_go.Logging.Traces.{middleware-traced, outcome_level, rendered}

abbrev around : Surroundings
around = record { app_env = "dev"; now = "t"; stack = "s"; marshal = λ e. some e.trace_id }

abbrev traffic : Traffic
traffic = record {
  response_request_id = "";
  request_request_id = "r1";
  method = "GET";
  path = "/";
  remote_ip = "::1";
  user_agent = "u";
}

abbrev silent : Context → Op (Logged ℕ) (Unit {0})
silent ctx w = (ok tt, w)

abbrev blank : Logged ℕ
blank = record { lines = []; rest = 200 }

-- Both lines of the request have the id that came with it.
lines_written :
    (middleware around (λ n. n) traffic "n1" "n2" none silent background blank).1.lines
    ≡ (info, "r1") ∷ (info, "r1") ∷ []
unfolding middleware log new_entry with_context context_with_request_id request_id_from_context
    request_id
lines_written = refl

middleware-traced_example :
    let id = request_id traffic "n1" in
    let ctx' = context_with_request_id background id in
    let (res, z) = middleware around (λ n. n) traffic "n1" "n2" none silent background blank in
    (first : LogEntry) × (last : LogEntry) × (first.trace_id ≡ id)
    × (last.trace_id ≡ id)
    × (first.level ≡ info)
    × ((component other : String) → (with_context (some ctx') none component other).trace_id ≡ id)
    × (let (r, y) = silent ctx' (record blank { lines = blank.lines ++ rendered around first }) in
        (res ≡ r)
        × (last.level ≡ outcome_level r)
        × (z ≡ record y { lines = y.lines ++ rendered around last }))
middleware-traced_example =
    middleware-traced around (λ n. n) traffic "n1" "n2" none silent background blank
      (λ e. absurd (cc e))
