-- ===== src/Auth/Tests.antt =====
-- Requests with a session, and the theorems at them.
use base_template_server_go.Httpx.Shells.{csrf}
use base_template_server_go.Httpx.Render.{Exchange, Incoming}
use base_template_server_go.Auth.Tokens.{behind_middleware, csrf-csrf_middleware}
use base_template_server_go.Base.{
  List, String, [], false, if◌then◌else◌, inr, nat_eq, none, pos, refl, some, string_eq, ℕ, ◌+◌,
  ◌==◌, ◌||◌, ◌∷◌, ◌≡◌, ◌⊎◌,
}
use base_template_server_go.Errors.{foreign, no_rows, sentinel, unauthorized, wrap}
use base_template_server_go.Httpx.Cookies.{Cookie, held}
use base_template_server_go.Op.{Op, err, fail, ok, pure}
use base_template_server_go.Authn.{Principal}
use base_template_server_go.Config.{AuthConfig}
use base_template_server_go.Auth.{Libraries, Store, User}
use base_template_server_go.Auth.Service.{
  Service, login, principal_from_bearer, principal_from_session,
}
use base_template_server_go.Auth.Middleware.{Request, Strings, csrf_middleware, identify}
use base_template_server_go.Auth.Requests.{
  Backed, Submitted, csrf_middleware-Submitted, identify-Backed,
}
use base_template_server_go.Auth.Logins.{login_indistinct}

-- Libraries that leave texts as they are.
abbrev pub plain_libraries : Libraries
plain_libraries = record {
  generate_from_password = λ password cost. ok password;
  compare_hash_and_password =
      λ hash password. if hash == password then ok tt else err (foreign "mismatch");
  sha256_hex = λ s. s;
  print_uuid = λ id. "u7";
  parse_uuid = λ s. if s == "s3" then some 3 else none;
}

abbrev pub strings : Strings
strings = record {
  to_lower = λ s. s;
  has_prefix = λ s prefix. s == "bearer t" || s == "/app";
  trim_space = λ s. s;
  slice_from = λ s n. "t";
}

abbrev pub ann : User
ann = record {
  user_id = 7;
  email = "ann";
  password_hash = "pw";
  roles = "user" ∷ [];
  created_at = 1;
}

-- A store with one user, one session and one token, and a state that counts deletions.
abbrev one_user : Store ℕ
one_user = record {
  create_user = λ arg. fail (foreign "duplicate");
  get_user_by_email = λ email. if email == "ann" then pure ann else fail (sentinel no_rows);
  get_user_by_id = λ id. pure ann;
  create_session = λ arg.
      pure (record {
        session_id = arg.session_id;
        user_id = arg.user_id;
        expires_at = arg.expires_at;
      });
  get_session = λ id. pure (record { session_id = id; user_id = 7; expires_at = 50 });
  delete_session = λ id n. (ok tt, n + 1);
  create_api_token = λ arg. fail (foreign "full");
  get_api_token_by_hash = λ hash.
      if hash == "t"
      then pure (record { token_id = 1; user_id = 7; token_hash = "t"; expires_at = 50 })
      else fail (sentinel no_rows);
}

abbrev pub config : AuthConfig
config = record {
  disabled = false;
  session_cookie = "session_id";
  session_ttl = pos 100;
  csrf_cookie_name = "csrf_token";
  token_ttl = pos 100;
  bcrypt_cost = pos 10;
}

abbrev pub service : Service ℕ
service = record { store = one_user; cfg = config }

abbrev pub with_cookie : Request
with_cookie = record {
  path = "/app";
  method = "POST";
  authorization = "";
  cookies = ("session_id", "s3") ∷ ("csrf_token", "c") ∷ [];
  csrf_header = "";
  csrf_field = "c";
}

abbrev pub user_7 : Principal
user_7 = record { user_id = "u7"; roles = "user" ∷ []; auth_method = "cookie" }

tests :
    (principal_from_session plain_libraries service 3 50 0 ≡ (ok user_7, 0))
    × (principal_from_session plain_libraries service 3 51 0
        ≡ (err (wrap (sentinel unauthorized) "session expired"), 1))
    × (principal_from_bearer plain_libraries service "t" 50 0
        ≡ (ok (record user_7 { auth_method = "bearer" }), 0))
    × (identify plain_libraries strings service config with_cookie 20 0 ≡ (ok user_7, 0))
unfolding principal_from_session principal_from_bearer identify
tests = (refl, refl, refl, refl)

identify-Backed_example :
    (p : Principal) × ((identify plain_libraries strings service config with_cookie 20 0).0 ≡ ok p)
    × Backed plain_libraries strings service config with_cookie 20 0 p
identify-Backed_example =
    identify-Backed plain_libraries strings service config with_cookie 20 0 refl

abbrev reached : List Cookie → Op ℕ ℕ
reached cookies = pure 200

abbrev reply : ℕ → String → Op ℕ ℕ
reply status message = pure status

csrf_middleware-Submitted_example :
    (Submitted with_cookie config
      × (csrf_middleware strings config reached reply with_cookie "r" ≡ reached []))
    ⊎ (csrf_middleware strings config reached reply with_cookie "r"
        ≡ reply 403 "csrf validation failed")
csrf_middleware-Submitted_example =
    csrf_middleware-Submitted strings config reached reply with_cookie "r" refl refl refl

logged_in :
    (login plain_libraries service "ann" "pw" 9 20 21 0).0
    ≡ ok (record { session_id = 9; user_id = 7; expires_at = 120 }, ann)
unfolding login
logged_in = refl

login_indistinct_example :
    (login plain_libraries service "bob" "pw" 9 20 21 0).0
    ≡ (login plain_libraries service "ann" "no" 9 20 21 5).0
login_indistinct_example =
    login_indistinct plain_libraries service "bob" "ann" "pw" "no" 9 20 21 0 5 ann
      (foreign "mismatch") refl refl refl

abbrev visiting : Incoming
visiting = record { cookies = []; header = λ name. ""; form_value = λ name. ""; param = λ name. "" }

abbrev shown : String × Exchange
shown = csrf config "t1" (behind_middleware config visiting "GET" "t0")

abbrev answered : Request
answered = record {
  path = "/app";
  method = "POST";
  authorization = "";
  cookies = held [] shown.1.set_cookies;
  csrf_header = "";
  csrf_field = "t1";
}

csrf-csrf_middleware_example :
    csrf_middleware strings config reached (λ status m. fail (foreign m)) answered "t2" ≡ reached []
unfolding csrf
csrf-csrf_middleware_example =
    csrf-csrf_middleware strings config reached (λ status m. fail (foreign m)) visiting "GET" "t0"
      "t1" "t2" answered refl (λ e. absurd (cc e)) (inr (refl, refl))
