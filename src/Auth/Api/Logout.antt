-- ===== src/Auth/Api/Logout.antt =====
-- The logout route.
use base_template_server_go.Auth.Postgres.Journeys.{logout_ends, service}
use base_template_server_go.Authn.{anonymous}
use base_template_server_go.Base.{
  Bool-cases, Option, Option-cases, String, Time, [], ap, false, inl, inr, nat_eq, none, refl, some,
  string_eq, subst, sym, ◌==◌, ◌∙◌, ◌∷◌, ◌≡◌,
}
use base_template_server_go.Op.{attempt-ok, fail, ok, pure}
use base_template_server_go.Config.{AuthConfig}
use base_template_server_go.Httpx.Answer.{json_answer}
use base_template_server_go.Auth.{Libraries}
use base_template_server_go.Auth.Middleware.{
  Request, Strings, bearer_token, cookie, from_cookie, identify,
}
use base_template_server_go.Auth.Postgres
use base_template_server_go.Auth.Service as AuthService
use base_template_server_go.Auth.Api.{end_session, expired_cookie, logout, parsed}

identified :
    (lib : Libraries) (str : Strings) {S : Type 0} (svc : AuthService.Service S) (cfg : AuthConfig)
    (req : Request) (now : Time) (x : S)
    → cfg.disabled ≡ false
    → bearer_token str req.authorization ≡ none
    → identify lib str svc cfg req now x
      ≡ from_cookie lib str svc cfg (cookie req cfg.session_cookie) now x
unfolding identify
identified lib str svc cfg req now x on plain = rw (on, plain) refl

module _ (lib : Libraries) (str : Strings) (db : Postgres.Database) (cfg : AuthConfig)
    (up : (q : Postgres.Statement) (t : Postgres.Tables) → db.fails q t ≡ none) where
  abbrev server : AuthService.Service Postgres.Tables
  server = service lib db cfg up

  -- The cookie of an ended session, or one that is none, stands for nobody.
  abbrev Ended : Option String → Time → Postgres.Tables → Type 0
  Ended o now t =
      let (res, z) = end_session lib server cfg (parsed lib server cfg o) t in
      (res ≡ ok tt) × (from_cookie lib str server cfg o now z ≡ (ok anonymous, z))

  ended : (o : Option String) (now : Time) (t : Postgres.Tables) → Ended o now t
  ended none now t = (refl, refl)
  ended (some value) now t = elim (Option-cases (lib.parse_uuid value)) [
    | inl bad ↦ elim (Bool-cases (value == "")) [
      | inl blank ↦ rw (bad, blank) (refl, refl)
      | inr full ↦ rw (bad, full) (refl, refl)
    ]
    | inr (sid, p) ↦
        let (closed, refused) = logout_ends lib db cfg up sid now t in
        elim (Bool-cases (value == "")) [
          | inl blank ↦ rw (p, blank, closed) (refl, refl)
          | inr full ↦ rw (p, closed, full, refused) (refl, refl)
        ]
  ]

  -- While the database answers and authentication is on, the logout route answers 204 with a cookie
  -- that clears the session cookie, whatever the request holds; and the same request sent again, at
  -- any time, is anonymous, if it has no bearer token.
  pub logout_closes :
      (req : Request) (now : Time) (t : Postgres.Tables)
      → cfg.disabled ≡ false
      → bearer_token str req.authorization ≡ none
      → let (res, z) = logout lib server cfg req t in
        (res ≡ ok (json_answer 204 tt, expired_cookie cfg.session_cookie ∷ []))
        × (identify lib str server cfg req now z ≡ (ok anonymous, z))
  unfolding logout
  logout_closes req now t on plain =
      let o = cookie req cfg.session_cookie in
      let (closed, nobody) = ended o now t in
      let all =
        attempt-ok (end_session lib server cfg (parsed lib server cfg o)) fail
          (λ _. pure (json_answer 204 tt, expired_cookie cfg.session_cookie ∷ [])) t tt closed in
      (
        ap (λ q. q.0) all,
        subst (λ z. identify lib str server cfg req now z ≡ (ok anonymous, z))
            (sym (ap (λ q. q.1) all)) (identified lib str server cfg req now _ on plain ∙ nobody),
      )
