-- ===== src/Auth/Postgres/Journeys.antt =====
-- What a user meets: registration, login, sessions and tokens over the Postgres store, while the
-- database answers.

use base_template_server_go.Base.{
  String, Time, [], arith, eq_refl, false, go_on, nat_eq, nat_eq_refl, none, refl, some, string_eq,
  ◌++◌, ◌==◌, ◌||◌, ◌∷◌, ◌≡◌, ◌≤◌,
}
use base_template_server_go.Sql.{delete_where, select_one, select_one-append, select_one-delete}
use base_template_server_go.Op.{err, ok}
use base_template_server_go.Authn.{Principal}
use base_template_server_go.Config.{AuthConfig}
use base_template_server_go.Auth.{Libraries, Uuid}
use base_template_server_go.Auth.Service.{
  Service, after, create_bearer_token, login, logout, owner_principal, principal_from_bearer,
  principal_from_session, register, unauthorized_error,
}
use base_template_server_go.Auth.Postgres

module _ (lib : Libraries) (db : Postgres.Database) (cfg : AuthConfig)
    (up : (q : Postgres.Statement) (t : Postgres.Tables) → db.fails q t ≡ none) where
  abbrev pub service : Service Postgres.Tables
  service = record { store = Postgres.postgres_store db; cfg = cfg }

  abbrev user_row : String → String → Uuid → Time → Postgres.AuthUser
  user_row email hash id now = record {
    user_id = id;
    email = email;
    password_hash = hash;
    roles = "user" ∷ [];
    created_at = now;
  }

  abbrev with_user : Postgres.AuthUser → Postgres.Tables → Postgres.Tables
  with_user row t = record t { users = t.users ++ row ∷ [] }

  abbrev session_row : Uuid → Uuid → Time → Time → Postgres.AuthSession
  session_row sid id now later = record {
    session_id = sid;
    user_id = id;
    expires_at = go_on now cfg.session_ttl;
    created_at = later;
  }

  abbrev with_session : Postgres.AuthSession → Postgres.Tables → Postgres.Tables
  with_session row t = record t { sessions = t.sessions ++ row ∷ [] }

  -- The principal of a user, by a session or by a token.
  abbrev pub principal_of : Postgres.AuthUser → String → Principal
  principal_of u auth_method = record {
    user_id = lib.print_uuid u.user_id;
    roles = u.roles;
    auth_method = auth_method;
  }

  register_new :
      (email password hash : String) (id : Uuid) (now : Time) (t : Postgres.Tables)
      → (email == "" || password == "") ≡ false
      → lib.generate_from_password password cfg.bcrypt_cost ≡ ok hash
      → select_one (Postgres.with_user_id id) t.users ≡ none
      → select_one (Postgres.with_email email) t.users ≡ none
      → register lib service email password id now t ≡ (
        ok (Postgres.map_user (user_row email hash id now)),
        with_user (user_row email hash id now) t,
      )
  unfolding register Postgres.postgres_store Postgres.create_user
  register_new email password hash id now t filled made new_id new_email =
      rw (filled, made, up Postgres.Statement.creating_user t, new_id, new_email) refl

  login_known :
      (email password : String) (sid : Uuid) (now later : Time) (t : Postgres.Tables)
      (u : Postgres.AuthUser)
      → select_one (Postgres.with_email email) t.users ≡ some u
      → select_one (Postgres.with_user_id u.user_id) t.users ≡ some u
      → lib.compare_hash_and_password u.password_hash password ≡ ok tt
      → select_one (Postgres.with_session_id sid) t.sessions ≡ none
      → login lib service email password sid now later t ≡ (
        ok (Postgres.to_session (session_row sid u.user_id now later), Postgres.map_user u),
        with_session (session_row sid u.user_id now later) t,
      )
  unfolding login Postgres.postgres_store Postgres.get_user_by_email Postgres.create_session
      Postgres.map_user
  login_known email password sid now later t u by_email by_id fits new_id =
      rw
        (
          up Postgres.Statement.user_by_email t,
          by_email,
          fits,
          up Postgres.Statement.creating_session t,
          by_id,
          new_id,
        )
        refl

  session_known :
      (sid : Uuid) (now : Time) (t : Postgres.Tables) (s : Postgres.AuthSession)
      (u : Postgres.AuthUser)
      → select_one (Postgres.with_session_id sid) t.sessions ≡ some s
      → select_one (Postgres.with_user_id s.user_id) t.users ≡ some u
      → after now s.expires_at ≡ false
      → principal_from_session lib service sid now t ≡ (ok (principal_of u "cookie"), t)
  unfolding principal_from_session owner_principal Postgres.postgres_store Postgres.get_session
      Postgres.get_user_by_id Postgres.map_user
  session_known sid now t s u found owner alive =
      rw
        (
          up Postgres.Statement.session_by_id t,
          found,
          alive,
          up Postgres.Statement.user_by_id t,
          owner,
        )
        refl

  -- While the database answers, someone who registers with an e-mail address and an id that no user
  -- has, and with a password that is hashed and compares as equal to the hash, can log in with it
  -- under a new session id, and the session is accepted, as that user, at each time up to its expiry.
  pub sign_in :
      (email password hash : String) (id sid : Uuid) (t0 t1 t2 t3 : Time) (t : Postgres.Tables)
      → (email == "" || password == "") ≡ false
      → lib.generate_from_password password cfg.bcrypt_cost ≡ ok hash
      → lib.compare_hash_and_password hash password ≡ ok tt
      → select_one (Postgres.with_user_id id) t.users ≡ none
      → select_one (Postgres.with_email email) t.users ≡ none
      → select_one (Postgres.with_session_id sid) t.sessions ≡ none
      → t3 ≤ go_on t1 cfg.session_ttl
      → let u = user_row email hash id t0 in
        let joined = register lib service email password id t0 t in
        let entered = login lib service email password sid t1 t2 joined.1 in
        (joined.0 ≡ ok (Postgres.map_user u))
        × (entered.0 ≡ ok (Postgres.to_session (session_row sid id t1 t2), Postgres.map_user u))
        × (principal_from_session lib service sid t3 entered.1
            ≡ (ok (principal_of u "cookie"), entered.1))
  unfolding after
  sign_in email password hash id sid t0 t1 t2 t3 t filled made fits new_id new_email new_sid alive =
      let u = user_row email hash id t0 in
      let first = register_new email password hash id t0 t filled made new_id new_email in
      let by_email =
        select_one-append (Postgres.with_email email) t.users u new_email (eq_refl email) in
      let by_id = select_one-append (Postgres.with_user_id id) t.users u new_id (nat_eq_refl id) in
      let second =
        login_known email password sid t1 t2 (with_user u t) u by_email by_id fits new_sid in
      let third =
        session_known sid t3 (with_session (session_row sid id t1 t2) (with_user u t))
          (session_row sid id t1 t2) u
          (select_one-append (Postgres.with_session_id sid) t.sessions (session_row sid id t1 t2)
            new_sid (nat_eq_refl sid))
          by_id (ground (arith, alive)) in
      rw (first, second, third) (refl, refl, refl)

  -- While the database answers, a logout succeeds and its session is refused afterwards, at any time.
  pub logout_ends :
      (sid : Uuid) (now : Time) (t : Postgres.Tables)
      → ((logout lib service sid t).0 ≡ ok tt)
        × (principal_from_session lib service sid now (logout lib service sid t).1
            ≡ (err (unauthorized_error "session"), (logout lib service sid t).1))
  unfolding logout principal_from_session Postgres.postgres_store Postgres.delete_session
      Postgres.get_session
  logout_ends sid now t =
      let deleted : Postgres.Tables = record t {
        sessions = delete_where (Postgres.with_session_id sid) t.sessions;
      } in
      rw
        (
          up Postgres.Statement.deleting_session t,
          up Postgres.Statement.session_by_id deleted,
          select_one-delete (Postgres.with_session_id sid) t.sessions,
        )
        (refl, refl)

  abbrev token_row : Uuid → Uuid → String → Time → Time → Postgres.AuthApiToken
  token_row kid id plain now later = record {
    token_id = kid;
    user_id = id;
    token_hash = lib.sha256_hex plain;
    expires_at = go_on now cfg.token_ttl;
    created_at = later;
  }

  abbrev with_token : Postgres.AuthApiToken → Postgres.Tables → Postgres.Tables
  with_token row t = record t { api_tokens = t.api_tokens ++ row ∷ [] }

  token_made :
      (u : Postgres.AuthUser) (plain : String) (kid : Uuid) (now later : Time) (t : Postgres.Tables)
      → select_one (Postgres.with_user_id u.user_id) t.users ≡ some u
      → select_one (Postgres.with_token_id kid) t.api_tokens ≡ none
      → select_one (Postgres.with_hash (lib.sha256_hex plain)) t.api_tokens ≡ none
      → create_bearer_token lib service u.user_id (ok plain) kid now later t
        ≡ (ok plain, with_token (token_row kid u.user_id plain now later) t)
  unfolding create_bearer_token Postgres.postgres_store Postgres.create_api_token
  token_made u plain kid now later t known new_kid new_hash =
      rw (up Postgres.Statement.creating_token t, known, new_kid, new_hash) refl

  token_known :
      (plain : String) (now : Time) (t : Postgres.Tables) (k : Postgres.AuthApiToken)
      (u : Postgres.AuthUser)
      → select_one (Postgres.with_hash (lib.sha256_hex plain)) t.api_tokens ≡ some k
      → select_one (Postgres.with_user_id k.user_id) t.users ≡ some u
      → after now k.expires_at ≡ false
      → principal_from_bearer lib service plain now t ≡ (ok (principal_of u "bearer"), t)
  unfolding principal_from_bearer owner_principal Postgres.postgres_store
      Postgres.get_api_token_by_hash Postgres.get_user_by_id Postgres.map_user
  token_known plain now t k u found owner alive =
      rw
        (
          up Postgres.Statement.token_by_hash t,
          found,
          alive,
          up Postgres.Statement.user_by_id t,
          owner,
        )
        refl

  -- While the database answers, a bearer token that is made for a user of the table, under an id and
  -- with a hash that no token has, is accepted, as that user, at each time up to its expiry.
  pub token_works :
      (u : Postgres.AuthUser) (plain : String) (kid : Uuid) (now later t3 : Time)
      (t : Postgres.Tables)
      → select_one (Postgres.with_user_id u.user_id) t.users ≡ some u
      → select_one (Postgres.with_token_id kid) t.api_tokens ≡ none
      → select_one (Postgres.with_hash (lib.sha256_hex plain)) t.api_tokens ≡ none
      → t3 ≤ go_on now cfg.token_ttl
      → let made = create_bearer_token lib service u.user_id (ok plain) kid now later t in
        (made.0 ≡ ok plain)
        × (principal_from_bearer lib service plain t3 made.1
            ≡ (ok (principal_of u "bearer"), made.1))
  unfolding after
  token_works u plain kid now later t3 t known new_kid new_hash alive =
      let k = token_row kid u.user_id plain now later in
      let live : after t3 k.expires_at ≡ false = ground (arith, alive) in
      let first = token_made u plain kid now later t known new_kid new_hash in
      let second =
        token_known plain t3 (with_token k t) k u
          (select_one-append (Postgres.with_hash (lib.sha256_hex plain)) t.api_tokens k new_hash
            (eq_refl (lib.sha256_hex plain)))
          known live in
      rw (first, second) (refl, refl)
