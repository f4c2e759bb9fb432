-- ===== src/Auth/Requests.antt =====
-- What the middleware lets through, and as whom.
use base_template_server_go.Base.{
  Bool-cases, List, Option, String, Time, [], arith, eq_iff, false, if◌then◌else◌, inl, inr, nat_eq,
  none, not, refl, some, string_eq, true, ℕ, ◌==◌, ◌||◌, ◌≡◌, ◌≢◌, ◌⊎◌,
}
use base_template_server_go.Httpx.Cookies.{Cookie}
use base_template_server_go.Op.{Op, Result, err, ok, pure}
use base_template_server_go.Authn.{Principal, anonymous}
use base_template_server_go.Config.{AuthConfig}
use base_template_server_go.Auth.{Libraries, Uuid}
use base_template_server_go.Auth.Service.{Service, principal_from_bearer, principal_from_session}
use base_template_server_go.Auth.Middleware.{
  Request, Strings, bearer_token, by_header, cookie, csrf_middleware, from_bearer, from_cookie,
  from_session, identify, is_csrf_valid, is_safe_method,
}
use base_template_server_go.Auth.Credentials.{
  FromBearer, FromSession, principal_from_bearer-FromBearer, principal_from_session-FromSession,
}

module _ (lib : Libraries) (str : Strings) {S : Type 0} (svc : Service S) (cfg : AuthConfig) where
  -- Where the principal of a request comes from.
  abbrev pub Backed : Request → Time → S → Principal → Type 0
  Backed req now x p =
      (p ≡ anonymous)
      ⊎ ((token : String) × (bearer_token str req.authorization ≡ some token)
          × FromBearer lib svc token now x p)
      ⊎ ((value : String) × (session_id : Uuid) × (cookie req cfg.session_cookie ≡ some value)
          × (lib.parse_uuid value ≡ some session_id)
          × FromSession lib svc session_id now x p)

  abbrev Answers : Request → Time → S → Op S Principal → Type 0
  Answers req now x m = (p : Principal) × ((m x).0 ≡ ok p) × Backed req now x p

  nobody_named : (req : Request) (now : Time) (x : S) → Answers req now x (pure anonymous)
  nobody_named req now x = (anonymous, refl, inl refl)

  bearer_case :
      (req : Request) (now : Time) (x : S) (token : String) (r : Result Principal)
      → bearer_token str req.authorization ≡ some token
      → (principal_from_bearer lib svc token now x).0 ≡ r
      → Answers req now x (from_bearer lib str svc cfg token now)
  bearer_case req now x token (ok p) eh e = (
    p,
    rw e refl,
    inr (inl (token, eh, principal_from_bearer-FromBearer lib svc token now x p e)),
  )
  bearer_case req now x token (err z) eh e = (anonymous, rw e refl, inl refl)

  exchanged :
      (req : Request) (now : Time) (x : S) (value : String) (sid : Uuid) (r : Result Principal)
      → cookie req cfg.session_cookie ≡ some value
      → lib.parse_uuid value ≡ some sid
      → (principal_from_session lib svc sid now x).0 ≡ r
      → Answers req now x (from_session lib str svc cfg (some sid) now)
  exchanged req now x value sid (ok p) ec eu e = (
    p,
    rw e refl,
    inr (inr (value, sid, ec, eu, principal_from_session-FromSession lib svc sid now x p e)),
  )
  exchanged req now x value sid (err z) ec eu e = (anonymous, rw e refl, inl refl)

  session_case :
      (req : Request) (now : Time) (x : S) (value : String) (o : Option Uuid)
      → cookie req cfg.session_cookie ≡ some value
      → lib.parse_uuid value ≡ o
      → Answers req now x (from_session lib str svc cfg o now)
  session_case req now x value none ec eu = nobody_named req now x
  session_case req now x value (some sid) ec eu = exchanged req now x value sid _ ec eu refl

  cookie_case :
      (req : Request) (now : Time) (x : S) (o : Option String)
      → cookie req cfg.session_cookie ≡ o
      → Answers req now x (from_cookie lib str svc cfg o now)
  cookie_case req now x none ec = nobody_named req now x
  cookie_case req now x (some value) ec = elim (Bool-cases (value == "")) [
    | inl blank ↦ rw blank (nobody_named req now x)
    | inr given ↦ rw given (session_case req now x value _ ec refl)
  ]

  by_header_case :
      (req : Request) (now : Time) (x : S) (o : Option String)
      → bearer_token str req.authorization ≡ o
      → Answers req now x (by_header lib str svc cfg o (cookie req cfg.session_cookie) now)
  by_header_case req now x (some token) eh = bearer_case req now x token _ eh refl
  by_header_case req now x none eh = cookie_case req now x _ refl

  -- With authentication on, the middleware gives every request a principal and refuses none. It is
  -- the anonymous one, or the user of an unexpired token whose hash the header's token has, or the
  -- user of the unexpired session that the cookie names.
  pub identify-Backed :
      (req : Request) (now : Time) (x : S)
      → cfg.disabled ≡ false
      → (p : Principal) × ((identify lib str svc cfg req now x).0 ≡ ok p) × Backed req now x p
  unfolding identify
  identify-Backed req now x on = rw on (by_header_case req now x _ refl)

-- The double-submit test holds: a cookie that is not empty, and a header or form field equal to it.
abbrev pub Submitted : Request → AuthConfig → Type 0
Submitted req cfg =
    (value : String) × (cookie req cfg.csrf_cookie_name ≡ some value)
    × (value ≢ "")
    × ((req.csrf_header ≡ value) ⊎ ((req.csrf_header ≡ "") × (req.csrf_field ≡ value)))

presented_same :
    (v h f : String)
    → (let given = if h == "" then f else h in not (v == "" || given == "" || not (v == given)))
      ≡ true
    → (v ≢ "") × ((h ≡ v) ⊎ ((h ≡ "") × (f ≡ v)))
presented_same v h f e =
    (ground (arith, eq_iff v "", e), ground (arith, eq_iff h "", eq_iff v h, eq_iff v f, e))

submitted :
    (req : Request) (cfg : AuthConfig) (o : Option String)
    → cookie req cfg.csrf_cookie_name ≡ o
    → is_csrf_valid req cfg ≡ true
    → Submitted req cfg
unfolding is_csrf_valid
submitted req cfg none e h = absurd (cc (rw e at h))
submitted req cfg (some v) e h =
    let (named, same) = presented_same v req.csrf_header req.csrf_field (rw e at h) in
    (v, e, named, same)

-- With authentication on, a request under /app with another method than GET, HEAD or OPTIONS gets
-- to the next handler only with a cookie that is not empty and a header, or without a header a form
-- field, that is equal to it; any other such request is answered 403 and not handled.
pub csrf_middleware-Submitted :
    {S A : Type 0} (str : Strings) (cfg : AuthConfig) (next : List Cookie → Op S A)
    (reply : ℕ → String → Op S A) (req : Request) (random : String)
    → cfg.disabled ≡ false
    → str.has_prefix req.path "/app" ≡ true
    → is_safe_method req.method ≡ false
    → (Submitted req cfg × (csrf_middleware str cfg next reply req random ≡ next []))
      ⊎ (csrf_middleware str cfg next reply req random ≡ reply 403 "csrf validation failed")
unfolding csrf_middleware
csrf_middleware-Submitted str cfg next reply req random on app unsafe =
    elim (Bool-cases (is_csrf_valid req cfg)) [
      | inl valid ↦ inl (submitted req cfg _ refl valid, rw (on, app, unsafe, valid) refl)
      | inr bad ↦ inr (rw (on, app, unsafe, bad) refl)
    ]
