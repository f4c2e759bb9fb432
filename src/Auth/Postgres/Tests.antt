-- ===== src/Auth/Postgres/Tests.antt =====
-- A registration, a login, a logout and a token over the Postgres store, and the theorems at them.

use base_template_server_go.Auth.Api.Logout.{logout_closes}
use base_template_server_go.Httpx.Answer.{json_answer}
use base_template_server_go.Authn.{anonymous}
use base_template_server_go.Auth.Middleware.{Request, Strings, bearer_token, identify}
use base_template_server_go.Auth.Api as Api
use base_template_server_go.Auth.Tests.{config, plain_libraries}
use base_template_server_go.Op.{Result, err, ok}
use base_template_server_go.Auth.Postgres.Journeys.{service, sign_in, token_works}
use base_template_server_go.Auth.Service.{
  Service, create_bearer_token, login, principal_from_bearer, principal_from_session, register,
}
use base_template_server_go.Auth.{Session, User}
use base_template_server_go.Base.{String, [], arith, false, none, refl, some, ◌∷◌, ◌≡◌}
use base_template_server_go.Sql.{select_one}
use base_template_server_go.Errors.{foreign}
use base_template_server_go.Auth.Postgres

abbrev quiet : Postgres.Database
quiet = record { fails = λ q t. none; violation = foreign "constraint" }

abbrev bob : Postgres.AuthUser
bob = record {
  user_id = 3;
  email = "bob";
  password_hash = "secret";
  roles = "user" ∷ [];
  created_at = 1;
}

abbrev tables : Postgres.Tables
tables = record { users = bob ∷ []; sessions = []; api_tokens = [] }

absent :
    (select_one (Postgres.with_user_id 7) tables.users ≡ none)
    × (select_one (Postgres.with_email "ann") tables.users ≡ none)
    × (select_one (Postgres.with_session_id 9) tables.sessions ≡ none)
    × (select_one (Postgres.with_user_id 3) tables.users ≡ some bob)
    × (select_one (Postgres.with_token_id 4) tables.api_tokens ≡ none)
    × (select_one (Postgres.with_hash "t") tables.api_tokens ≡ none)
unfolding select_one
absent = (refl, refl, refl, refl, refl, refl)

abbrev ann : Postgres.AuthUser
ann = record {
  user_id = 7;
  email = "ann";
  password_hash = "pw";
  roles = "user" ∷ [];
  created_at = 10;
}

abbrev up : (q : Postgres.Statement) (t : Postgres.Tables) → quiet.fails q t ≡ none
up q t = refl

abbrev server : Service Postgres.Tables
server = service plain_libraries quiet config up

abbrev joined : Result User × Postgres.Tables
joined = register plain_libraries server "ann" "pw" 7 10 tables

abbrev entered : Result (Session × User) × Postgres.Tables
entered = login plain_libraries server "ann" "pw" 9 20 21 joined.1

sign_in_example :
    (joined.0 ≡ ok (Postgres.map_user ann))
    × (entered.0
        ≡ ok (record { session_id = 9; user_id = 7; expires_at = 120 }, Postgres.map_user ann))
    × (principal_from_session plain_libraries server 9 120 entered.1
        ≡ (ok (record { user_id = "u7"; roles = "user" ∷ []; auth_method = "cookie" }), entered.1))
sign_in_example =
    sign_in plain_libraries quiet config up "ann" "pw" "pw" 7 9 10 20 21 120 tables refl refl refl
      absent.0 absent.1 absent.2 (omega arith)

abbrev made : Result String × Postgres.Tables
made = create_bearer_token plain_libraries server 3 (ok "t") 4 10 11 tables

token_works_example :
    (made.0 ≡ ok "t")
    × (principal_from_bearer plain_libraries server "t" 110 made.1
        ≡ (ok (record { user_id = "u7"; roles = "user" ∷ []; auth_method = "bearer" }), made.1))
token_works_example =
    token_works plain_libraries quiet config up bob "t" 4 10 11 110 tables absent.3 absent.4
      absent.5 (omega arith)

-- Two users may not share an e-mail address, and a session needs a user.
refusals :
    ((Postgres.create_user quiet
        (record { user_id = 8; email = "bob"; password_hash = ""; roles = []; created_at = 1 })
        tables).0
      ≡ err (foreign "constraint"))
    × ((Postgres.create_session quiet
          (record { session_id = 1; user_id = 8; expires_at = 9; created_at = 1 })
          tables).0
        ≡ err (foreign "constraint"))
unfolding Postgres.create_user Postgres.create_session select_one
refusals = (refl, refl)

abbrev texts : Strings
texts = record {
  to_lower = λ s. s;
  has_prefix = λ s prefix. false;
  trim_space = λ s. s;
  slice_from = λ s n. s;
}

abbrev leaving : Request
leaving = record {
  path = "/api/v1/auth/logout";
  method = "POST";
  authorization = "";
  cookies = ("session_id", "s3") ∷ [];
  csrf_header = "";
  csrf_field = "";
}

no_bearer : bearer_token texts "" ≡ none
unfolding bearer_token
no_bearer = refl

logout_closes_example :
    let (res, z) = Api.logout plain_libraries server config leaving entered.1 in
    (res ≡ ok (json_answer 204 tt, Api.expired_cookie "session_id" ∷ []))
    × (identify plain_libraries texts server config leaving 30 z ≡ (ok anonymous, z))
logout_closes_example =
    logout_closes plain_libraries texts quiet config up leaving 30 entered.1 refl no_bearer
