-- ===== src/Auth/Web.antt =====
-- internal/auth/web/web.go: the login page. The values that the calls draw are arguments.
pub mod Journey
mod Tests
use base_template_server_go.Base.{List, String, Time, [], false, pos, some, true}
use base_template_server_go.Op.{Op, attempt, ◌>>◌}
use base_template_server_go.Config.{AuthConfig}
use base_template_server_go.Httpx.Cookies.{Cookie}
use base_template_server_go.Httpx.Flash.{Codec, Flash, flash_success}
use base_template_server_go.Httpx.Render.{
  Exchange, Shell, Views, redirect_to, render_auth, render_auth_status, set_cookie,
}
use base_template_server_go.Httpx.Shells.{
  Web, consume, csrf, csrf_cookie, flashing, on_exchange, on_world, user,
}
use base_template_server_go.Auth.{Libraries, Session, Uuid}
use base_template_server_go.Auth.Service as AuthService

pub record LoginPage : Type 0 where
  pub shell : Shell
  pub error : String
  pub email : String

pub record Surroundings : Type 0 where
  pub views : Views LoginPage
  pub codec : Codec
  pub cfg : AuthConfig
  pub random : String

abbrev pub login_cookie : String → String → Time → Cookie
login_cookie name value expires = record {
  name = name;
  value = value;
  path = "/";
  http_only = true;
  secure = false;
  same_site_lax = true;
  expires = some expires;
  max_age = pos 0;
}

module _ (lib : Libraries) {S : Type 0} (svc : AuthService.Service S) (h : Surroundings) where
  abbrev pub with_token : Exchange → Exchange
  with_token = set_cookie (csrf_cookie h.cfg h.random)

  abbrev pub sign_in : List Flash → Shell
  sign_in messages = record {
    title = "Sign in";
    csrf = h.random;
    flash = messages;
    user = "";
    nav = "login";
  }

  unfoldable pub login_form : Op Exchange (Unit {0})
  unfolding consume render_auth
  login_form x =
      let (messages, y) = consume h.codec (with_token x) in
      render_auth h.views "pages/auth/login.html"
        (record { shell = sign_in messages; error = ""; email = "" }) y

  unfoldable pub refuse : String → Op Exchange (Unit {0})
  unfolding render_auth_status
  refuse email x =
      render_auth_status h.views 401 "pages/auth/login.html"
        (record { shell = sign_in []; error = "Invalid credentials"; email = email }) (with_token x)

  unfoldable pub welcome : Session → Op Exchange (Unit {0})
  unfolding flash_success
  welcome sess x =
      (flashing (λ f. flash_success h.codec f "Signed in") >> redirect_to 303 "/app/todos") (
        set_cookie
          (login_cookie h.cfg.session_cookie (lib.print_uuid sess.session_id) sess.expires_at) x)

  unfoldable pub login : Uuid → Time → Time → Op (Web S) (Unit {0})
  unfolding refuse welcome
  login new_id now later w =
      let email = w.exchange.request.form_value "email" in
      let password = w.exchange.request.form_value "password" in
      attempt (on_world (AuthService.login lib svc email password new_id now later))
        (λ e. on_exchange (refuse email)) (λ (sess, u). on_exchange (welcome sess)) w
