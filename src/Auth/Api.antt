-- ===== src/Auth/Api.antt =====
-- internal/auth/api/api.go: the handlers. What c.Bind made of the body and the values that the service
-- draws are arguments; a request is the part of it that the middleware reads.
pub mod Logout
use base_template_server_go.Base.{
  List, Option, String, Time, [], false, negsuc, none, pos, some, true, ◌∷◌,
}
use base_template_server_go.Errors.{GoError}
use base_template_server_go.Op.{Op, Result, ignore, lift, pure, rename, ◌>>=◌, ◌>>◌}
use base_template_server_go.Config.{AuthConfig}
use base_template_server_go.Httpx.Cookies.{Cookie}
use base_template_server_go.Httpx.Answer.{Answer, bad_body, json_answer}
use base_template_server_go.Auth.{Libraries, User, Uuid}
use base_template_server_go.Auth.Middleware.{Request, cookie}
use base_template_server_go.Auth.Service as AuthService

pub record Creds : Type 0 where
  pub email : String
  pub password : String

-- An answer, and the cookies set before it.
abbrev pub Answered : Type 0 → Type 0
Answered B = Answer B × List Cookie

abbrev invalid_body : GoError → GoError
invalid_body e = bad_body "invalid body" none

abbrev session_cookie : String → String → Time → Cookie
session_cookie name value expires = record {
  name = name;
  value = value;
  path = "/";
  http_only = true;
  secure = false;
  same_site_lax = true;
  expires = some expires;
  max_age = pos 0;
}

abbrev pub expired_cookie : String → Cookie
expired_cookie name = record {
  name = name;
  value = "";
  path = "/";
  http_only = false;
  secure = false;
  same_site_lax = false;
  expires = none;
  max_age = negsuc 0;
}

module _ (lib : Libraries) {S : Type 0} (svc : AuthService.Service S) (cfg : AuthConfig) where
  abbrev user_body : User → List (String × String)
  user_body u = ("user_id", lib.print_uuid u.user_id) ∷ ("email", u.email) ∷ []

  unfoldable pub register : Result Creds → Uuid → Time → Op S (Answered (List (String × String)))
  unfolding bad_body
  register bind new_id now = do
    req ← lift (rename invalid_body bind)
    u ← AuthService.register lib svc req.email req.password new_id now
    pure (json_answer 201 (user_body u), [])

  unfoldable pub login :
      Result Creds → Uuid → Time → Time → Op S (Answered (List (String × String)))
  unfolding bad_body
  login bind new_id now later = do
    req ← lift (rename invalid_body bind)
    entered ← AuthService.login lib svc req.email req.password new_id now later
    (let (sess, u) = entered in
        pure (
          json_answer 200 (user_body u),
          session_cookie cfg.session_cookie (lib.print_uuid sess.session_id) sess.expires_at ∷ [],
        ))

  abbrev pub end_session : Option Uuid → Op S (Unit {0})
  end_session none = pure tt
  end_session (some id) = ignore (AuthService.logout lib svc id)

  abbrev pub parsed : Option String → Option Uuid
  parsed none = none
  parsed (some value) = lib.parse_uuid value

  -- The error of the service is dropped.
  unfoldable pub logout : Request → Op S (Answered (Unit {0}))
  unfolding cookie
  logout req = do
    end_session (parsed (cookie req cfg.session_cookie))
    pure (json_answer 204 tt, expired_cookie cfg.session_cookie ∷ [])

  unfoldable pub create_token :
      Result Creds
      → Uuid
      → Time
      → Time
      → Result String
      → Uuid
      → Time
      → Time
      → Op S (Answered (List (String × String)))
  unfolding bad_body
  create_token bind session_id now later random token_id now' later' = do
    req ← lift (rename invalid_body bind)
    entered ← AuthService.login lib svc req.email req.password session_id now later
    token ← AuthService.create_bearer_token lib svc entered.1.user_id random token_id now' later'
    pure (json_answer 200 (("token", token) ∷ ("token_type", "Bearer") ∷ []), [])
