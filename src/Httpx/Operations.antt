-- ===== src/Httpx/Operations.antt =====
-- internal/platform/httpx/server.go: readiness, the guard of the metrics and the CORS rule.
use base_template_server_go.Base.{
  Bool, List, Option, String, [], arith, eq_iff, false, if◌then◌else◌, nat_eq, none, not, refl,
  some, string_eq, true, ◌==◌, ◌||◌, ◌↔◌, ◌∷◌, ◌≡◌, ◌⊎◌,
}
use base_template_server_go.Op.{Op, Result, err, is_ok, ok}
use base_template_server_go.Config.{MetricsConfig}

-- NewEcho: credentials are not allowed for the wildcard origin alone.
unfoldable pub allow_credentials : List String → Bool
allow_credentials (o ∷ []) = not (o == "*")
allow_credentials _ = true

pub data Answer : Type 0 where
  ready : Answer
  not_ready : (error : Option String) → Answer

-- The loop over the further checks, which stops at the first that fails.
unfoldable pub run_checks : {S : Type 0} → List (Op S (Unit {0})) → S → Answer × S
run_checks [] s = (ready, s)
run_checks (check ∷ checks) s =
    let rest = run_checks checks (check s).1 in
    if is_ok (check s).0 then rest else (not_ready none, (check s).1)

-- GET /readyz. `database` is database.Ready.
unfoldable pub readyz : {S : Type 0} → Op S (Unit {0}) → List (Op S (Unit {0})) → S → Answer × S
unfolding run_checks
readyz database checks s =
    let rest = run_checks checks (database s).1 in
    if is_ok (database s).0 then rest else (not_ready (some "database"), (database s).1)

abbrev has_credentials : MetricsConfig → Option (String × String) → Bool
has_credentials cfg none = false
has_credentials cfg (some (user, pass)) =
    not (not (user == cfg.basic_auth_user) || not (pass == cfg.basic_auth_pass))

-- GET /metrics, where the metrics are enabled; the credentials are Request.BasicAuth's. The answer is
-- the handler's or status 401.
unfoldable pub metrics_handler {ℓ} :
    {A : Type ℓ} → MetricsConfig → Option (String × String) → A → A → A
metrics_handler cfg credentials serve refuse =
    if cfg.public then serve else if has_credentials cfg credentials then serve else refuse

-- The metrics are served exactly to requests with the configured user and password, or to all if
-- they are public.
metrics_handler_iff :
    (cfg : MetricsConfig) (credentials : Option (String × String))
    → (metrics_handler cfg credentials true false ≡ true)
      ↔ ((cfg.public ≡ true) ⊎ (credentials ≡ some (cfg.basic_auth_user, cfg.basic_auth_pass)))
unfolding metrics_handler
metrics_handler_iff cfg none = (λ h. ground (arith, h), λ h. ground (arith, h))
metrics_handler_iff cfg (some (user, pass)) =
    let name = eq_iff user cfg.basic_auth_user in
    let word = eq_iff pass cfg.basic_auth_pass in
    (λ h. ground (arith, name, word, h), λ h. ground (arith, name, word, h))

-- Every check succeeds in the state that the ones before it left.
abbrev pub Passed : {S : Type 0} → List (Op S (Unit {0})) → S → Type 0
Passed [] s = Unit
Passed (check ∷ checks) s = ((check s).0 ≡ ok tt) × Passed checks (check s).1

passed_first :
    {S : Type 0} (r : Result (Unit {0})) (rest : Answer × S) (error : Option String) (t : S)
    → (if is_ok r then rest else (not_ready error, t)).0 ≡ ready
    → (r ≡ ok tt) × (rest.0 ≡ ready)
passed_first (ok tt) rest error t h = (refl, h)
passed_first (err x) rest error t h = absurd (cc h)

run_checks-Passed :
    {S : Type 0} (checks : List (Op S (Unit {0}))) (s : S)
    → (run_checks checks s).0 ≡ ready
    → Passed checks s
unfolding run_checks
run_checks-Passed [] s h = tt
run_checks-Passed (check ∷ checks) s h =
    let (e, later) = passed_first (check s).0 (run_checks checks (check s).1) _ _ h in
    (e, run_checks-Passed checks (check s).1 later)

-- The server reports that it is ready only after the database and every further check succeeded, each
-- in the state that the ones before it left.
readyz-Passed :
    {S : Type 0} (database : Op S (Unit {0})) (checks : List (Op S (Unit {0}))) (s : S)
    → (readyz database checks s).0 ≡ ready
    → Passed (database ∷ checks) s
unfolding readyz
readyz-Passed database checks s h =
    let (e, later) = passed_first (database s).0 (run_checks checks (database s).1) _ _ h in
    (e, run_checks-Passed checks (database s).1 later)
