-- ===== src/Auth/Service.antt =====
-- internal/auth/service.go. New ids, random bytes and the readings of the clock are arguments.
use base_template_server_go.Base.{
  Bool, String, Time, [], go_on, if◌then◌else◌, ltb, nat_eq, not, string_eq, ◌==◌, ◌||◌, ◌∷◌,
}
use base_template_server_go.Errors.{
  GoError, conflict, internal, is, no_rows, sentinel, unauthorized, validation, wrap,
}
use base_template_server_go.Op.{
  Op, Result, fail, guard, ignore, lift, map_err, pure, rename, ◌>>=◌, ◌>>◌,
}
use base_template_server_go.Authn.{Principal}
use base_template_server_go.Config.{AuthConfig}
use base_template_server_go.Auth.{Libraries, Session, Store, User, Uuid}

pub record Service (S : Type 0) : Type 0 where
  pub store : Store S
  pub cfg : AuthConfig

unfoldable pub new_service : {S : Type 0} → Store S → AuthConfig → Service S
new_service store cfg = record { store = store; cfg = cfg }

abbrev pub unauthorized_error : String → GoError
unauthorized_error m = wrap (sentinel unauthorized) m

abbrev internal_error : String → GoError
internal_error m = wrap (sentinel internal) m

abbrev lookup_failed : GoError → GoError
lookup_failed e =
    if is e no_rows then unauthorized_error "invalid credentials" else internal_error "lookup user"

-- now.After(t)
unfoldable pub after : Time → Time → Bool
after now t = ltb t now

module _ (lib : Libraries) {S : Type 0} (s : Service S) where
  -- Register. Every error of CreateUser is reported as a conflict.
  unfoldable pub register : String → String → Uuid → Time → Op S User
  register email password new_id now = do
    lift (
        guard (not (email == "" || password == ""))
          (wrap (sentinel validation) "email and password required"))
    hash ← lift (
        rename (λ _. internal_error "hash password")
          (lib.generate_from_password password s.cfg.bcrypt_cost))
    map_err (λ _. wrap (sentinel conflict) "create user")
        (s.store.create_user (record {
          user_id = new_id;
          email = email;
          password_hash = hash;
          roles = "user" ∷ [];
          created_at = now;
        }))

  -- Login. `now` and `later` are its two readings of the clock.
  unfoldable pub login : String → String → Uuid → Time → Time → Op S (Session × User)
  login email password new_id now later = do
    u ← map_err lookup_failed (s.store.get_user_by_email email)
    lift (
        rename (λ _. unauthorized_error "invalid credentials")
          (lib.compare_hash_and_password u.password_hash password))
    sess ←
        map_err (λ _. internal_error "create session")
          (s.store.create_session (record {
            session_id = new_id;
            user_id = u.user_id;
            expires_at = go_on now s.cfg.session_ttl;
            created_at = later;
          }))
    pure (sess, u)

  unfoldable pub logout : Uuid → Op S (Unit {0})
  logout session_id = s.store.delete_session session_id

  abbrev as_principal : User → String → Principal
  as_principal u auth_method = record {
    user_id = lib.print_uuid u.user_id;
    roles = u.roles;
    auth_method = auth_method;
  }

  -- The user behind a session or a token.
  unfoldable pub owner_principal : Uuid → String → Op S Principal
  owner_principal user_id auth_method = do
    u ← map_err (λ _. unauthorized_error "user") (s.store.get_user_by_id user_id)
    pure (as_principal u auth_method)

  -- The anonymous principal beside an error is dropped: both callers ignore it.
  unfoldable pub principal_from_session : Uuid → Time → Op S Principal
  unfolding owner_principal after
  principal_from_session session_id now = do
    sess ← map_err (λ _. unauthorized_error "session") (s.store.get_session session_id)
    (if after now sess.expires_at
        then (ignore (s.store.delete_session session_id)
            >> fail (unauthorized_error "session expired"))
        else owner_principal sess.user_id "cookie")

  -- CreateBearerToken. `random` is the result of `rand.Read`, in hexadecimal.
  unfoldable pub create_bearer_token : Uuid → Result String → Uuid → Time → Time → Op S String
  create_bearer_token user_id random new_id now later = do
    plain ← lift random
    row ← s.store.create_api_token (record {
      token_id = new_id;
      user_id = user_id;
      token_hash = lib.sha256_hex plain;
      expires_at = go_on now s.cfg.token_ttl;
      created_at = later;
    })
    pure plain

  unfoldable pub principal_from_bearer : String → Time → Op S Principal
  unfolding owner_principal after
  principal_from_bearer token now = do
    row ←
        map_err (λ _. unauthorized_error "token")
          (s.store.get_api_token_by_hash (lib.sha256_hex token))
    (if after now row.expires_at
        then fail (unauthorized_error "token expired")
        else owner_principal row.user_id "bearer")

  unfoldable pub disabled : Bool
  disabled = s.cfg.disabled
