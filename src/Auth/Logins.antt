-- ===== src/Auth/Logins.antt =====
-- What Login answers.
use base_template_server_go.Base.{String, Time, ap, go_on, refl, subst, ◌∙◌, ◌≡◌}
use base_template_server_go.Errors.{GoError, no_rows, sentinel}
use base_template_server_go.Op.{bind-eq-ok, err, lift, map_err, ok, rename, rename-eq-ok}
use base_template_server_go.Auth.{CreateSessionParams, Libraries, Session, User, Uuid}
use base_template_server_go.Auth.Service.{Service, login}

module _ (lib : Libraries) {S : Type 0} (s : Service S) where
  abbrev asked : Uuid → Time → Time → User → CreateSessionParams
  asked new_id now later u = record {
    session_id = new_id;
    user_id = u.user_id;
    expires_at = go_on now s.cfg.session_ttl;
    created_at = later;
  }

  abbrev pub Started : String → String → Uuid → Time → Time → S → Session → User → Type 0
  Started email password new_id now later x sess u =
      let found = s.store.get_user_by_email email x in
      (found.0 ≡ ok u)
      × (lib.compare_hash_and_password u.password_hash password ≡ ok tt)
      × ((s.store.create_session (asked new_id now later u) found.1).0 ≡ ok sess)

  -- A login that succeeds has found the user under the e-mail address and the password fits its
  -- hash; the session is the one that the store made for that user, to expire a session's time
  -- after the login.
  login-Started :
      (email password : String) (new_id : Uuid) (now later : Time) (x : S) (sess : Session)
      (u : User)
      → (login lib s email password new_id now later x).0 ≡ ok (sess, u)
      → Started email password new_id now later x sess u
  unfolding login
  login-Started email password new_id now later x sess u h =
      let (v, hv, h1) = bind-eq-ok (map_err _ (s.store.get_user_by_email email)) _ x h in
      let y = (s.store.get_user_by_email email x).1 in
      let (_, hc, h2) = bind-eq-ok (lift (rename _ _)) _ y h1 in
      let (t, ht, h3) =
        bind-eq-ok (map_err _ (s.store.create_session (asked new_id now later v))) _ y h2 in
      let user : v ≡ u = cc h3 in
      let session : t ≡ sess = cc h3 in
      subst (λ w. Started email password new_id now later x sess w) user
        (rename-eq-ok _ _ hv, rename-eq-ok _ _ hc, rename-eq-ok _ _ ht ∙ ap ok session)

  -- An unknown e-mail address and a wrong password get the same answer, in whatever states.
  pub login_indistinct :
      (nobody email password wrong : String) (new_id : Uuid) (now later : Time) (x y : S) (u : User)
      (e : GoError)
      → (s.store.get_user_by_email nobody x).0 ≡ err (sentinel no_rows)
      → (s.store.get_user_by_email email y).0 ≡ ok u
      → lib.compare_hash_and_password u.password_hash wrong ≡ err e
      → (login lib s nobody password new_id now later x).0
        ≡ (login lib s email wrong new_id now later y).0
  unfolding login
  login_indistinct nobody email password wrong new_id now later x y u e hn hu hc =
      rw (hn, hu, hc) refl
