-- ===== src/Auth/Postgres.antt =====
-- internal/auth/postgres/store.go: the store that maps the rows of the statements to users, sessions
-- and tokens.
pub mod Journeys
mod Tests
use base_template_server_go.Base.{String}
use base_template_server_go.Op.{Op, pure, ◌>>=◌, ◌>>◌}
use base_template_server_go.Auth.{
  ApiToken, CreateApiTokenParams, CreateSessionParams, CreateUserParams, Session, Store, User, Uuid,
}
pub use base_template_server_go.Auth.Queries.{
  AuthUser, AuthSession, AuthApiToken, Tables, Statement, Database, with_email, with_user_id,
  with_session_id, with_token_id, with_hash,
}
use base_template_server_go.Auth.Queries as Queries

-- mapUser; a nil slice of roles and an empty one are the same list.
unfoldable pub map_user : AuthUser → User
map_user u = record {
  user_id = u.user_id;
  email = u.email;
  password_hash = u.password_hash;
  roles = u.roles;
  created_at = u.created_at;
}

abbrev pub to_session : AuthSession → Session
to_session s = record { session_id = s.session_id; user_id = s.user_id; expires_at = s.expires_at }

abbrev pub to_token : AuthApiToken → ApiToken
to_token k = record {
  token_id = k.token_id;
  user_id = k.user_id;
  token_hash = k.token_hash;
  expires_at = k.expires_at;
}

abbrev mapped : {A B : Type 0} → (A → B) → Op Tables A → Op Tables B
mapped f m = do a ← m; pure (f a)

module _ (db : Database) where
  unfoldable pub create_user : CreateUserParams → Op Tables User
  unfolding map_user
  create_user arg = mapped map_user (
      Queries.insert_user db (record {
        user_id = arg.user_id;
        email = arg.email;
        password_hash = arg.password_hash;
        roles = arg.roles;
        created_at = arg.created_at;
      }))

  unfoldable pub get_user_by_email : String → Op Tables User
  unfolding map_user
  get_user_by_email email = mapped map_user (Queries.select_user_by_email db email)

  unfoldable pub get_user_by_id : Uuid → Op Tables User
  unfolding map_user
  get_user_by_id id = mapped map_user (Queries.select_user_by_id db id)

  unfoldable pub create_session : CreateSessionParams → Op Tables Session
  create_session arg = mapped to_session (
      Queries.insert_session db (record {
        session_id = arg.session_id;
        user_id = arg.user_id;
        expires_at = arg.expires_at;
        created_at = arg.created_at;
      }))

  unfoldable pub get_session : Uuid → Op Tables Session
  get_session id = mapped to_session (Queries.select_session db id)

  unfoldable pub delete_session : Uuid → Op Tables (Unit {0})
  delete_session id = Queries.delete_session_row db id

  unfoldable pub create_api_token : CreateApiTokenParams → Op Tables ApiToken
  create_api_token arg = mapped to_token (
      Queries.insert_api_token db (record {
        token_id = arg.token_id;
        user_id = arg.user_id;
        token_hash = arg.token_hash;
        expires_at = arg.expires_at;
        created_at = arg.created_at;
      }))

  unfoldable pub get_api_token_by_hash : String → Op Tables ApiToken
  get_api_token_by_hash hash = mapped to_token (Queries.select_api_token_by_hash db hash)

  unfoldable pub postgres_store : Store Tables
  unfolding create_user get_user_by_email get_user_by_id create_session get_session delete_session
      create_api_token get_api_token_by_hash
  postgres_store = record {
    create_user = create_user;
    get_user_by_email = get_user_by_email;
    get_user_by_id = get_user_by_id;
    create_session = create_session;
    get_session = get_session;
    delete_session = delete_session;
    create_api_token = create_api_token;
    get_api_token_by_hash = get_api_token_by_hash;
  }
