-- ===== src/Auth/Middleware.antt =====
-- internal/auth/middleware.go. A request is the part of it that the middleware reads; the next
-- handler is an argument.
use base_template_server_go.Base.{
  Bool, List, Option, String, Time, [], false, if◌then◌else◌, nat_eq, none, not, pos, some,
  string_eq, true, ℕ, ◌==◌, ◌||◌, ◌∷◌,
}
use base_template_server_go.Httpx.Cookies.{Cookie}
use base_template_server_go.Table.{find}
use base_template_server_go.Op.{Op, Result, err, ok, pure, ◌>>=◌}
use base_template_server_go.Authn.{Context, Principal, anonymous, with_principal}
use base_template_server_go.Config.{AuthConfig}
use base_template_server_go.Auth.{Libraries, Uuid}
use base_template_server_go.Auth.Service.{Service, principal_from_bearer, principal_from_session}

-- `authorization` is the header's value, "" when it is missing.
pub record Request : Type 0 where
  pub path : String
  pub method : String
  pub authorization : String
  pub cookies : List (String × String)
  pub csrf_header : String
  pub csrf_field : String

unfoldable pub cookie : Request → String → Option String
unfolding find
cookie req name = find name req.cookies

-- strings.ToLower, HasPrefix and TrimSpace, and the slice `s[n:]`.
pub record Strings : Type 0 where
  pub to_lower : String → String
  pub has_prefix : String → String → Bool
  pub trim_space : String → String
  pub slice_from : String → ℕ → String

unfoldable pub bearer_token : Strings → String → Option String
bearer_token str authz =
    if str.has_prefix (str.to_lower authz) "bearer "
    then some (str.trim_space (str.slice_from authz 7))
    else none

abbrev or_else {ℓ} : {A : Type ℓ} → Result A → A → A
or_else (ok a) d = a
or_else (err e) d = d

abbrev disabled_principal : Principal
disabled_principal = record { user_id = "anonymous"; roles = "user" ∷ []; auth_method = "disabled" }

module _ (lib : Libraries) (str : Strings) {S : Type 0} (svc : Service S) (cfg : AuthConfig) where
  abbrev pub from_session : Option Uuid → Time → Op S Principal
  from_session none now x = (ok anonymous, x)
  from_session (some sid) now x =
      let (r, y) = principal_from_session lib svc sid now x in (ok (or_else r anonymous), y)

  abbrev pub from_cookie : Option String → Time → Op S Principal
  from_cookie none now x = (ok anonymous, x)
  from_cookie (some value) now x =
      if value == "" then (ok anonymous, x) else from_session (lib.parse_uuid value) now x

  abbrev pub from_bearer : String → Time → Op S Principal
  from_bearer token now x =
      let (r, y) = principal_from_bearer lib svc token now x in (ok (or_else r anonymous), y)

  abbrev pub by_header : Option String → Option String → Time → Op S Principal
  by_header (some token) value now = from_bearer token now
  by_header none value now = from_cookie value now

  -- The principal that Middleware attaches.
  unfoldable pub identify : Request → Time → Op S Principal
  unfolding cookie bearer_token
  identify req now =
      if cfg.disabled
      then pure disabled_principal
      else by_header (bearer_token str req.authorization) (cookie req cfg.session_cookie) now

  unfoldable pub middleware : {A : Type 0} → (Context → Op S A) → Context → Request → Time → Op S A
  middleware next ctx req now = do p ← identify req now; next (with_principal ctx p)

-- NewCSRFToken: the bytes of `rand.Read` in hexadecimal.
abbrev pub new_csrf_token : String → String
new_csrf_token random = random

unfoldable pub ensure_csrf_cookie : Request → AuthConfig → String → List Cookie
unfolding cookie
ensure_csrf_cookie req cfg random = elim (cookie req cfg.csrf_cookie_name) [
  | some value ↦ []
  | none ↦
      record {
        name = cfg.csrf_cookie_name;
        value = random;
        path = "/";
        http_only = false;
        secure = false;
        same_site_lax = true;
        expires = none;
        max_age = pos 0;
      }
      ∷ []
]

-- cookie.Value, "" standing for the cookie's absence: the test refuses both.
abbrev value_of : Option String → String
value_of none = ""
value_of (some v) = v

abbrev csrf_presented : Request → String
csrf_presented req = if req.csrf_header == "" then req.csrf_field else req.csrf_header

unfoldable pub is_csrf_valid : Request → AuthConfig → Bool
unfolding cookie
is_csrf_valid req cfg =
    let value = value_of (cookie req cfg.csrf_cookie_name) in
    let header = csrf_presented req in not (value == "" || header == "" || not (value == header))

abbrev pub is_safe_method : String → Bool
is_safe_method m = m == "GET" || m == "HEAD" || m == "OPTIONS"

-- CSRFMiddleware. `next` gets the cookies that were set, `reply` is c.JSON.
unfoldable pub csrf_middleware :
    {S A : Type 0}
    → Strings
    → AuthConfig
    → (List Cookie → Op S A)
    → (ℕ → String → Op S A)
    → Request
    → String
    → Op S A
unfolding ensure_csrf_cookie is_csrf_valid
csrf_middleware str cfg next reply req random =
    if cfg.disabled
    then next []
    else if not (str.has_prefix req.path "/app")
    then next []
    else if is_safe_method req.method
    then next (ensure_csrf_cookie req cfg random)
    else if is_csrf_valid req cfg
    then next []
    else reply 403 "csrf validation failed"
