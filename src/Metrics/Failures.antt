-- ===== src/Metrics/Failures.antt =====
-- The status that is counted for a request whose handler fails.
use base_template_server_go.Base.{
  Option, Option-cases, String, arith, decimal, eq_refl, inl, inr, none, refl, some, suc, ℕ, ◌≡◌,
  ◌≤◌,
}
use base_template_server_go.Op.{Op, err}
use base_template_server_go.Errors.{GoError}
use base_template_server_go.Httpx.{as_api_error, as_http_error, describe, map_error, map_inner}
use base_template_server_go.Metrics.{Call, Metered, middleware, observed, path_label}

map_error-fails : (e : GoError) → 400 ≤ (map_error e).0
unfolding map_error
map_error-fails e = ground arith

map_inner-fails : (o : Option GoError) → 400 ≤ (map_inner o).0
unfolding map_inner
map_inner-fails none = omega arith
map_inner-fails (some e) = map_error-fails e

describe-fails :
    (status_text : ℕ → String) (e : GoError)
    → as_http_error e ≡ none
    → 400 ≤ (describe status_text e).status
unfolding describe
describe-fails status_text e plain = elim (Option-cases (as_api_error e)) [
  | inl other ↦ rw (other, plain) (map_error-fails e)
  | inr ((inner, m, d), api) ↦ rw api (map_inner-fails inner)
]

module _ {F S : Type 0} where
  -- A handler returns an error that is not one of echo's own and has written nothing: in the
  -- response stands the status that every response starts with, 200. The error handler, which runs
  -- later, answers with a status of 400 or more; the middleware has counted the request as one with
  -- status 200 by then.
  pub middleware-describe :
      (status_text : ℕ → String) (call : Call) (elapsed : Metered F S → F)
      (next : Op (Metered F S) (Unit {0})) (w : Metered F S) (e : GoError)
      → as_http_error e ≡ none
      → (next w).0 ≡ err e
      → (next w).1.status ≡ 200
      → let (res, z) = middleware call elapsed next w in
        (res ≡ err e)
        × (400 ≤ (describe status_text e).status)
        × (z.registry.http_requests_total call.method (path_label call.path) "200"
            ≡ suc
                ((next w).1.registry.http_requests_total call.method (path_label call.path) "200"))
  unfolding middleware observed decimal
  middleware-describe status_text call elapsed next w e plain failed ok_status = (
    failed,
    describe-fails status_text e plain,
    rw (ok_status, eq_refl call.method, eq_refl (path_label call.path)) refl,
  )
