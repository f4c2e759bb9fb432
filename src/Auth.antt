-- ===== src/Auth.antt =====
-- internal/auth: users, sessions and API tokens, and the port of their store.
pub mod Service
pub mod Middleware
pub mod Credentials
pub mod Requests
pub mod Api
pub mod Logins
pub mod Queries
pub mod Postgres
pub mod Web
pub mod Tokens
mod Tests
use base_template_server_go.Base.{List, Option, String, Time, ℕ, ℤ}
use base_template_server_go.Op.{Op, Result}

abbrev pub Uuid : Type 0
Uuid = ℕ

pub record User : Type 0 where
  pub user_id : Uuid
  pub email : String
  pub password_hash : String
  pub roles : List String
  pub created_at : Time

pub record Session : Type 0 where
  pub session_id : Uuid
  pub user_id : Uuid
  pub expires_at : Time

pub record ApiToken : Type 0 where
  pub token_id : Uuid
  pub user_id : Uuid
  pub token_hash : String
  pub expires_at : Time

pub record CreateUserParams : Type 0 where
  pub user_id : Uuid
  pub email : String
  pub password_hash : String
  pub roles : List String
  pub created_at : Time

pub record CreateSessionParams : Type 0 where
  pub session_id : Uuid
  pub user_id : Uuid
  pub expires_at : Time
  pub created_at : Time

pub record CreateApiTokenParams : Type 0 where
  pub token_id : Uuid
  pub user_id : Uuid
  pub token_hash : String
  pub expires_at : Time
  pub created_at : Time

pub record Store (S : Type 0) : Type 0 where
  pub create_user : CreateUserParams → Op S User
  pub get_user_by_email : String → Op S User
  pub get_user_by_id : Uuid → Op S User
  pub create_session : CreateSessionParams → Op S Session
  pub get_session : Uuid → Op S Session
  pub delete_session : Uuid → Op S (Unit {0})
  pub create_api_token : CreateApiTokenParams → Op S ApiToken
  pub get_api_token_by_hash : String → Op S ApiToken

-- bcrypt, SHA-256 in hexadecimal, and `uuid.UUID.String` and `uuid.Parse`.
pub record Libraries : Type 0 where
  pub generate_from_password : String → ℤ → Result String
  pub compare_hash_and_password : String → String → Result (Unit {0})
  pub sha256_hex : String → String
  pub print_uuid : Uuid → String
  pub parse_uuid : String → Option Uuid
