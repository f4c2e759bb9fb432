-- ===== src/Auth/Web/Journey.antt =====
-- From the login page to the next request of the browser.

use base_template_server_go.Config.{AuthConfig}
use base_template_server_go.Table.{find}
use base_template_server_go.Authn.{Principal}
use base_template_server_go.Auth.Middleware.{Request, Strings, bearer_token, cookie, identify}
use base_template_server_go.Base.{
  List, String, Time, [], arith, eq_iff, false, inl, inr, nat_eq, none, refl, some, string_eq, ℕ,
  ◌++◌, ◌==◌, ◌∙◌, ◌∷◌, ◌≡◌, ◌≢◌,
}
use base_template_server_go.Op.{Op, Result, Result-cases, err, ok}
use base_template_server_go.Httpx.Cookies.{Cookie, find-held_last, held}
use base_template_server_go.Httpx.Render.{Incoming, arrived}
use base_template_server_go.Httpx.Render.Success.{
  Renders, answer, render_auth_status-Answers, render_auth_status-cookies,
}
use base_template_server_go.Httpx.Shells.{Web, csrf_cookie}
use base_template_server_go.Auth.{Libraries, Session, User, Uuid}
use base_template_server_go.Auth.Service as AuthService
use base_template_server_go.Auth.Web.{
  LoginPage, Surroundings, login, login_cookie, refuse, sign_in, welcome, with_token,
}

identified :
    (lib : Libraries) (str : Strings) {S : Type 0} (svc : AuthService.Service S) (cfg : AuthConfig)
    (next : Request) (now : Time) (x : S) (value : String) (sid : Uuid) (p : Principal)
    → cfg.disabled ≡ false
    → bearer_token str next.authorization ≡ none
    → find cfg.session_cookie next.cookies ≡ some value
    → (value == "") ≡ false
    → lib.parse_uuid value ≡ some sid
    → (AuthService.principal_from_session lib svc sid now x).0 ≡ ok p
    → (identify lib str svc cfg next now x).0 ≡ ok p
unfolding identify cookie
identified lib str svc cfg next now x value sid p on silent jar filled back accepted =
    rw (on, silent, jar, filled, back, accepted) refl

module _ (lib : Libraries) {S : Type 0} (svc : AuthService.Service S) (h : Surroundings) where
  abbrev begun : Incoming → List Cookie → S → Web S
  begun req cs s = record { world = s; exchange = arrived req cs }

  abbrev pub attempted : Incoming → Uuid → Time → Time → Op S (Session × User)
  attempted req sid t1 t2 =
      AuthService.login lib svc (req.form_value "email") (req.form_value "password") sid t1 t2

  abbrev pub login_status : Result (Session × User) → ℕ
  login_status (ok a) = 303
  login_status (err e) = 401

  -- The only cookie that is set, beside that of the message.
  abbrev pub handed : Result (Session × User) → Cookie
  handed (ok (sess, u)) =
      login_cookie h.cfg.session_cookie (lib.print_uuid sess.session_id) sess.expires_at
  handed (err e) = csrf_cookie h.cfg h.random

  -- A login by the form is answered with a redirect and a session cookie if the service accepts it,
  -- and otherwise, whatever the error is, with the page again, status 401 and no session cookie. The
  -- templates must not fail.
  pub login-Answers :
      Renders h.views
      → (req : Incoming) (cs : List Cookie) (sid : Uuid) (t1 t2 : Time) (s : S)
      → let made = (attempted req sid t1 t2 s).0 in
        let (res, y) = login lib svc h sid t1 t2 (begun req cs s) in
        (answer (res, y.exchange) ≡ (ok tt, login_status made))
        × (y.exchange.set_cookies ≡ cs ++ handed made ∷ [])
        × (y.world ≡ (attempted req sid t1 t2 s).1)
  unfolding login refuse welcome
  login-Answers r req cs sid t1 t2 s = elim (Result-cases (attempted req sid t1 t2 s).0) [
    | inl ((sess, u), e) ↦ rw e (refl, refl, refl)
    | inr (z, e) ↦
        let d : LoginPage = record {
          shell = sign_in lib svc h [];
          error = "Invalid credentials";
          email = req.form_value "email";
        } in
        let x = with_token lib svc h (arrived req cs) in
        rw e (
          render_auth_status-Answers h.views r 401 "pages/auth/login.html" d x,
          render_auth_status-cookies h.views 401 "pages/auth/login.html" d x,
          refl,
        )
  ]

  -- The session of a login by the form is the one that the next request is made in: a request that
  -- the browser sends with the cookies that it then holds, and without a bearer token, gets the
  -- principal that the session is exchanged for. Ids must be printed so that they can be read, and
  -- not as the empty text; authentication is on, and the templates do not fail.
  pub login-identify :
      Renders h.views
      → (str : Strings) (req : Incoming) (cs : List Cookie) (sid : Uuid) (t1 t2 t3 : Time) (s : S)
        (sess : Session) (u : User) (next : Request) (p : Principal)
      → let (made, t) = attempted req sid t1 t2 s in
        let (res, y) = login lib svc h sid t1 t2 (begun req cs s) in
        made ≡ ok (sess, u)
        → next.cookies ≡ held req.cookies y.exchange.set_cookies
        → bearer_token str next.authorization ≡ none
        → lib.parse_uuid (lib.print_uuid sess.session_id) ≡ some sess.session_id
        → lib.print_uuid sess.session_id ≢ ""
        → (AuthService.principal_from_session lib svc sess.session_id t3 t).0 ≡ ok p
        → h.cfg.disabled ≡ false
        → (answer (res, y.exchange) ≡ (ok tt, 303))
          × ((identify lib str svc h.cfg next t3 y.world).0 ≡ ok p)
  login-identify r str req cs sid t1 t2 t3 s sess u next p made kept silent back given accepted on =
      let y = (login lib svc h sid t1 t2 (begun req cs s)).1 in
      let (answered, sets, same) = login-Answers r req cs sid t1 t2 s in
      let jar : find h.cfg.session_cookie next.cookies ≡ some (lib.print_uuid sess.session_id) =
        rw (kept, sets, made)
          (find-held_last req.cookies cs
            (login_cookie h.cfg.session_cookie (lib.print_uuid sess.session_id) sess.expires_at)
            refl) in
      let filled : (lib.print_uuid sess.session_id == "") ≡ false =
        ground (arith, eq_iff (lib.print_uuid sess.session_id) "", given) in
      (
        answered ∙ rw made refl,
        identified lib str svc h.cfg next t3 y.world (lib.print_uuid sess.session_id)
            sess.session_id p on silent jar filled back (rw same accepted),
      )
