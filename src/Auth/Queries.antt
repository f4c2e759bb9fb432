-- ===== src/Auth/Queries.antt =====
-- internal/auth/postgres: rows of the tables auth.users, auth.sessions and auth.api_tokens (models.go)
-- and the statements on them (auth.sql.go). The constraints are those of
-- sql/migrations/00002_auth_schema.sql: primary keys, the unique e-mail address and token hash, and
-- the references of sessions and tokens to users. Which call of a statement fails is an argument.
use base_template_server_go.Base.{
  Bool, List, Option, String, Time, [], if◌then◌else◌, is_some, nat_eq, none, not, some, string_eq,
  ◌&&◌, ◌++◌, ◌==◌, ◌||◌, ◌∷◌,
}
use base_template_server_go.Sql.{delete_where, scan_row, select_one}
use base_template_server_go.Errors.{GoError}
use base_template_server_go.Op.{Op, err, ok}
use base_template_server_go.Auth.{Uuid}

pub record AuthUser : Type 0 where
  pub user_id : Uuid
  pub email : String
  pub password_hash : String
  pub roles : List String
  pub created_at : Time

pub record AuthSession : Type 0 where
  pub session_id : Uuid
  pub user_id : Uuid
  pub expires_at : Time
  pub created_at : Time

pub record AuthApiToken : Type 0 where
  pub token_id : Uuid
  pub user_id : Uuid
  pub token_hash : String
  pub expires_at : Time
  pub created_at : Time

pub record Tables : Type 0 where
  pub users : List AuthUser
  pub sessions : List AuthSession
  pub api_tokens : List AuthApiToken

pub data Statement : Type 0 where
  creating_token creating_session creating_user deleting_session token_by_hash session_by_id
        user_by_email user_by_id :
      Statement

-- The failures of the database, and its message on a row that a constraint forbids.
pub record Database : Type 0 where
  pub fails : Statement → Tables → Option GoError
  pub violation : GoError

abbrev pub with_email : String → AuthUser → Bool
with_email email u = u.email == email

abbrev pub with_user_id : Uuid → AuthUser → Bool
with_user_id id u = u.user_id == id

abbrev pub with_session_id : Uuid → AuthSession → Bool
with_session_id id s = s.session_id == id

abbrev pub with_token_id : Uuid → AuthApiToken → Bool
with_token_id id k = k.token_id == id

abbrev pub with_hash : String → AuthApiToken → Bool
with_hash hash k = k.token_hash == hash

-- A statement that fails leaves the tables as they were.
abbrev refuse : {A : Type 0} → Option GoError → Op Tables A → Op Tables A
refuse none m t = m t
refuse (some e) m t = (err e, t)

-- An INSERT goes through unless a constraint forbids the row.
abbrev checked : {A : Type 0} → GoError → Bool → A → (Tables → Tables) → Op Tables A
checked violation allowed row add t = if allowed then (ok row, add t) else (err violation, t)

module _ (db : Database) where
  abbrev pub insert_user : AuthUser → Op Tables AuthUser
  insert_user row t =
      let taken =
        is_some (select_one (with_user_id row.user_id) t.users)
        || is_some (select_one (with_email row.email) t.users) in
      refuse (db.fails creating_user t)
        (checked db.violation (not taken) row (λ u. record u { users = u.users ++ row ∷ [] })) t

  abbrev pub select_user_by_email : String → Op Tables AuthUser
  select_user_by_email email t =
      refuse (db.fails user_by_email t) (λ u. (scan_row (select_one (with_email email) u.users), u))
        t

  abbrev pub select_user_by_id : Uuid → Op Tables AuthUser
  select_user_by_id id t =
      refuse (db.fails user_by_id t) (λ u. (scan_row (select_one (with_user_id id) u.users), u)) t

  abbrev pub insert_session : AuthSession → Op Tables AuthSession
  insert_session row t =
      let taken = is_some (select_one (with_session_id row.session_id) t.sessions) in
      let known = is_some (select_one (with_user_id row.user_id) t.users) in
      refuse (db.fails creating_session t)
        (checked db.violation (known && not taken) row
          (λ u. record u { sessions = u.sessions ++ row ∷ [] }))
        t

  abbrev pub select_session : Uuid → Op Tables AuthSession
  select_session id t =
      refuse (db.fails session_by_id t)
        (λ u. (scan_row (select_one (with_session_id id) u.sessions), u)) t

  abbrev pub delete_session_row : Uuid → Op Tables (Unit {0})
  delete_session_row id t =
      refuse (db.fails deleting_session t)
        (λ u. (ok tt, record u { sessions = delete_where (with_session_id id) u.sessions })) t

  abbrev pub insert_api_token : AuthApiToken → Op Tables AuthApiToken
  insert_api_token row t =
      let taken =
        is_some (select_one (with_token_id row.token_id) t.api_tokens)
        || is_some (select_one (with_hash row.token_hash) t.api_tokens) in
      let known = is_some (select_one (with_user_id row.user_id) t.users) in
      refuse (db.fails creating_token t)
        (checked db.violation (known && not taken) row
          (λ u. record u { api_tokens = u.api_tokens ++ row ∷ [] }))
        t

  abbrev pub select_api_token_by_hash : String → Op Tables AuthApiToken
  select_api_token_by_hash hash t =
      refuse (db.fails token_by_hash t)
        (λ u. (scan_row (select_one (with_hash hash) u.api_tokens), u)) t
