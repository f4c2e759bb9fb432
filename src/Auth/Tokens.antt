-- ===== src/Auth/Tokens.antt =====
-- The CSRF token of a page, from the middleware that lets the page's request through to the one that
-- checks the form that is sent back.
use base_template_server_go.Base.{
  Bool-cases, List, Option-cases, String, [], arith, eq_iff, eq_refl, if◌then◌else◌, inl, inr,
  nat_eq, refl, some, string_eq, true, ℕ, ◌≡◌, ◌≢◌, ◌⊎◌,
}
use base_template_server_go.Table.{find}
use base_template_server_go.Op.{Op}
use base_template_server_go.Config.{AuthConfig}
use base_template_server_go.Httpx.Cookies.{Cookie, find-held_last, held}
use base_template_server_go.Httpx.Render.{Exchange, Incoming, arrived}
use base_template_server_go.Httpx.Shells.{csrf, csrf_cookie}
use base_template_server_go.Auth.Middleware.{
  Request, Strings, cookie, csrf_middleware, ensure_csrf_cookie, is_csrf_valid, is_safe_method,
}

-- The part of a page's request that the middleware reads.
abbrev asking : Incoming → String → Request
asking req method = record {
  path = "";
  method = method;
  authorization = "";
  cookies = req.cookies;
  csrf_header = "";
  csrf_field = "";
}

-- The exchange of a page's request behind the middleware, which drew `random`.
abbrev pub behind_middleware : AuthConfig → Incoming → String → String → Exchange
behind_middleware cfg req method random =
    arrived req
      (if is_safe_method method then ensure_csrf_cookie (asking req method) cfg random else [])

-- The header has the token, or there is no header and the form field has it.
abbrev pub Sends : Request → String → Type 0
Sends post token =
    (post.csrf_header ≡ token) ⊎ ((post.csrf_header ≡ "") × (post.csrf_field ≡ token))

nothing_set :
    (cfg : AuthConfig) (post : Request) (random : String) {token : String}
    → cookie post cfg.csrf_cookie_name ≡ some token
    → ensure_csrf_cookie post cfg random ≡ []
unfolding ensure_csrf_cookie
nothing_set cfg post random e = rw (ensure_csrf_cookie, e) refl

csrf-held :
    (cfg : AuthConfig) (req : Incoming) (method random drawn : String)
    → let (token, y) = csrf cfg drawn (behind_middleware cfg req method random) in
      find cfg.csrf_cookie_name (held req.cookies y.set_cookies) ≡ some token
unfolding csrf held ensure_csrf_cookie cookie
csrf-held cfg req method random drawn =
    elim (Option-cases (find cfg.csrf_cookie_name req.cookies)) [
      | inl missing ↦ rw missing (
          find-held_last req.cookies (behind_middleware cfg req method random).set_cookies
            (csrf_cookie cfg drawn) refl)
      | inr (value, e) ↦ elim (Bool-cases (is_safe_method method)) [
        | inl safe ↦ rw (e, safe, nothing_set cfg (asking req method) random e) e
        | inr unsafe ↦ rw (e, unsafe) e
      ]
    ]

sent-valid :
    (cfg : AuthConfig) (post : Request) (token : String)
    → cookie post cfg.csrf_cookie_name ≡ some token
    → token ≢ ""
    → Sends post token
    → is_csrf_valid post cfg ≡ true
unfolding is_csrf_valid
sent-valid cfg post token e given (inl h) =
    rw (e, h) (ground (arith, eq_iff token "", eq_iff token token, given))
sent-valid cfg post token e given (inr (h, f)) =
    rw (e, h, f) (ground (arith, eq_iff token "", eq_iff token token, eq_refl "", given))

-- A request that the browser sends back with the token of the page it got, in the header or in the
-- form field, gets to its handler: whether the page's request had a cookie, whatever the middleware
-- and the page drew, and whatever the path and the method of the second request are. The token must
-- not be empty, and the browser must hold the cookies that it was sent.
pub csrf-csrf_middleware :
    {S A : Type 0} (str : Strings) (cfg : AuthConfig) (next : List Cookie → Op S A)
    (reply : ℕ → String → Op S A) (req : Incoming) (method random drawn again : String)
    (post : Request)
    → let (token, y) = csrf cfg drawn (behind_middleware cfg req method random) in
      post.cookies ≡ held req.cookies y.set_cookies
      → token ≢ ""
      → Sends post token
      → csrf_middleware str cfg next reply post again ≡ next []
unfolding csrf_middleware cookie
csrf-csrf_middleware str cfg next reply req method random drawn again post kept given sends =
    let token = (csrf cfg drawn (behind_middleware cfg req method random)).0 in
    let has : cookie post cfg.csrf_cookie_name ≡ some token =
      rw kept (csrf-held cfg req method random drawn) in
    let valid : is_csrf_valid post cfg ≡ true = sent-valid cfg post token has given sends in
    let quiet : ensure_csrf_cookie post cfg again ≡ [] = nothing_set cfg post again has in
    rw (quiet, valid) (ground arith)
