-- ===== src/Auth/Credentials.antt =====
-- What stands behind a principal that a credential was exchanged for.
use base_template_server_go.Base.{Bool-cases, String, Time, arith, inl, inr, ltb, ◌≡◌, ◌≤◌}
use base_template_server_go.Op.{bind-eq-ok, ignore, map_err, ok, rename-eq-ok}
use base_template_server_go.Authn.{Principal}
use base_template_server_go.Auth.{ApiToken, Libraries, Session, User, Uuid}
use base_template_server_go.Auth.Service.{
  Service, after, owner_principal, principal_from_bearer, principal_from_session,
}

module _ (lib : Libraries) {S : Type 0} (s : Service S) where
  -- The user row that a principal was made from, read in the state `x`.
  abbrev pub Owned : Uuid → String → S → Principal → Type 0
  Owned user_id auth_method x p =
      (u : User) × ((s.store.get_user_by_id user_id x).0 ≡ ok u)
      × (p ≡ record {
        user_id = lib.print_uuid u.user_id;
        roles = u.roles;
        auth_method = auth_method;
      })

  owner_principal-Owned :
      (user_id : Uuid) (auth_method : String) (x : S) {p : Principal}
      → (owner_principal lib s user_id auth_method x).0 ≡ ok p
      → Owned user_id auth_method x p
  unfolding owner_principal
  owner_principal-Owned user_id auth_method x h =
      let (u, hu, e) = bind-eq-ok (map_err _ (s.store.get_user_by_id user_id)) _ x h in
      (u, rename-eq-ok _ _ hu, cc e)

  abbrev pub FromSession : Uuid → Time → S → Principal → Type 0
  FromSession session_id now x p =
      (sess : Session) × ((s.store.get_session session_id x).0 ≡ ok sess)
      × (now ≤ sess.expires_at)
      × Owned sess.user_id "cookie" (s.store.get_session session_id x).1 p

  -- A session that is exchanged for a principal is a stored one that has not expired, and the
  -- principal has the id and the roles of the session's user.
  pub principal_from_session-FromSession :
      (session_id : Uuid) (now : Time) (x : S) (p : Principal)
      → (principal_from_session lib s session_id now x).0 ≡ ok p
      → FromSession session_id now x p
  unfolding principal_from_session after
  principal_from_session-FromSession session_id now x p h =
      let (sess, hs, e) = bind-eq-ok (map_err _ (s.store.get_session session_id)) _ x h in
      elim (Bool-cases (ltb sess.expires_at now)) [
        | inl late ↦
            let dead = rw late at e in
            let (_, _, bad) = bind-eq-ok (ignore (s.store.delete_session session_id)) _ _ dead in
            absurd (cc bad)
        | inr alive ↦ (
          sess,
          rename-eq-ok _ _ hs,
          ground arith,
          owner_principal-Owned sess.user_id "cookie" _ (rw alive at e),
        )
      ]

  abbrev pub FromBearer : String → Time → S → Principal → Type 0
  FromBearer token now x p =
      let m = s.store.get_api_token_by_hash (lib.sha256_hex token) in
      (row : ApiToken) × ((m x).0 ≡ ok row)
      × (now ≤ row.expires_at)
      × Owned row.user_id "bearer" (m x).1 p

  -- A bearer token that is exchanged for a principal has its hash stored in a row that has not
  -- expired, and the principal has the id and the roles of the row's user.
  pub principal_from_bearer-FromBearer :
      (token : String) (now : Time) (x : S) (p : Principal)
      → (principal_from_bearer lib s token now x).0 ≡ ok p
      → FromBearer token now x p
  unfolding principal_from_bearer after
  principal_from_bearer-FromBearer token now x p h =
      let (row, hr, e) =
        bind-eq-ok (map_err _ (s.store.get_api_token_by_hash (lib.sha256_hex token))) _ x h in
      elim (Bool-cases (ltb row.expires_at now)) [
        | inl late ↦ absurd (cc (rw late at e))
        | inr alive ↦ (
          row,
          rename-eq-ok _ _ hr,
          ground arith,
          owner_principal-Owned row.user_id "bearer" _ (rw alive at e),
        )
      ]
