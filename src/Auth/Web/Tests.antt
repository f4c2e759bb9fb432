-- ===== src/Auth/Web/Tests.antt =====
-- A login by the form, and the theorem at it.
use base_template_server_go.Base.{
  [], if◌then◌else◌, nat_eq, none, refl, some, string_eq, ℕ, ◌==◌, ◌∷◌, ◌≡◌,
}
use base_template_server_go.Op.{Result, ok}
use base_template_server_go.Httpx.Cookies.{held}
use base_template_server_go.Httpx.Render.{Incoming, Renderer, arrived, renderer_from}
use base_template_server_go.Httpx.Render.Success.{Renders, answer}
use base_template_server_go.Httpx.Shells.{Web}
use base_template_server_go.Auth.{Libraries, Session}
use base_template_server_go.Auth.Tests.{
  ann, config, plain_libraries, service, strings, user_7, with_cookie,
}
use base_template_server_go.Auth.Middleware.{Request, bearer_token, identify}
use base_template_server_go.Auth.Service as AuthService
use base_template_server_go.Auth.Web.{LoginPage, Surroundings, login}
use base_template_server_go.Auth.Web.Journey.{attempted, login-identify}

abbrev libraries : Libraries
libraries = record plain_libraries { print_uuid = λ id. "s3" }

abbrev renderer : Renderer LoginPage
renderer = record { error = none; execute_template = λ name v. ("<form>", none) }

abbrev around : Surroundings
around = record {
  views = record {
    default_renderer = some renderer;
    echo_renderer = none;
    new_renderer = λ root. renderer;
    echo_render = λ name v. ok "";
    shell_of = λ d. some d.shell;
  };
  codec = record {
    marshal = λ fs. none;
    unmarshal = λ s. none;
    encode = λ s. s;
    decode = λ s. none;
  };
  cfg = config;
  random = "t0";
}

renders : Renders around.views
unfolding renderer_from
renders = record { loaded = refl; executes = λ name v. refl; fragments = λ name v. ("", refl) }

abbrev form : Incoming
form = record {
  cookies = ("csrf_token", "c") ∷ [];
  header = λ name. "";
  form_value = λ name. if name == "email" then "ann" else "pw";
  param = λ name. "";
}

abbrev entered : Result (Unit {0}) × Web ℕ
entered = login libraries service around 3 10 11 (record { world = 0; exchange = arrived form [] })

abbrev next : Request
next = record with_cookie { cookies = held form.cookies entered.1.exchange.set_cookies }

abbrev sess : Session
sess = record { session_id = 3; user_id = 7; expires_at = 110 }

known :
    ((attempted libraries service around form 3 10 11 0).0 ≡ ok (sess, ann))
    × ((AuthService.principal_from_session libraries service 3 50
          (attempted libraries service around form 3 10 11 0).1).0
        ≡ ok (record user_7 { user_id = "s3" }))
unfolding AuthService.login AuthService.principal_from_session AuthService.owner_principal
    AuthService.after
known = (refl, refl)

silent : bearer_token strings "" ≡ none
unfolding bearer_token
silent = refl

login-identify_example :
    (answer (entered.0, entered.1.exchange) ≡ (ok tt, 303))
    × ((identify libraries strings service config next 50 entered.1.world).0
        ≡ ok (record user_7 { user_id = "s3" }))
login-identify_example =
    login-identify libraries service around renders strings form [] 3 10 11 50 0 sess ann next
      (record user_7 { user_id = "s3" }) known.0 refl silent refl (λ e. absurd (cc e)) known.1 refl
