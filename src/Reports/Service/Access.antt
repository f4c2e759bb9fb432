-- ===== src/Reports/Service/Access.antt =====
-- Who may read and create reports, and what CreateReport answers.
use base_template_server_go.Base.{
  All, List, Option, String, [], ap, arith, eq_iff, false, nat_eq, none, some, string_eq, subst,
  sym, true, ◌==◌, ◌∙◌, ◌∷◌, ◌≡◌, ◌≢◌,
}
use base_template_server_go.Errors.{text}
use base_template_server_go.Op.{Result, bind-eq-ok, err, lift, map_err, ok, rename-eq-ok}
use base_template_server_go.Authn.{Context, Principal, from_context}
use base_template_server_go.Reports.Domain.{Report, Uuid}
use base_template_server_go.Reports.Spec.{Lists, Reads, Rows, Wired}
use base_template_server_go.Reports.Service.{
  Service, assert_owner, get_failed, get_report, list_reports, or_bad_id, principal,
}

-- With authentication on, a principal is accepted only with a user id.
principal_named :
    {S : Type 0} (s : Service S) (ctx : Context) {p : Principal}
    → principal s ctx ≡ ok p
    → s.auth_disabled ≡ false
    → p.user_id ≢ ""
unfolding principal
principal_named s ctx {p} h on e = ground (arith, eq_iff (from_context ctx).0.user_id "", h, on, e)

or_bad_id-eq-ok : (o : Option Uuid) {id : Uuid} → or_bad_id o ≡ ok id → o ≡ some id
or_bad_id-eq-ok (some i) h = cc h
or_bad_id-eq-ok none h = cc

assert_owner-eq-ok :
    (p : Principal) (r : Report) {u : Unit {0}}
    → assert_owner p r ≡ ok u
    → r.owner_user_id ≡ p.user_id
unfolding assert_owner
assert_owner-eq-ok p r h = ground (arith, eq_iff r.owner_user_id p.user_id)

read-eq-ok :
    (row : Option Report) (res : Result Report) {r : Report}
    → Reads row res
    → res ≡ ok r
    → row ≡ some r
read-eq-ok row (ok q) g h = cc (g, h)
read-eq-ok row (err e) g h = cc h

module _ {S : Type 0} (s : Service S) (rows : S → Rows) (w : Wired s rows) where
  -- GetReport returns a report only to an accepted principal: it is the row of the id that the
  -- text stands for, its owner is that principal, and with authentication on the owner is named.
  pub get_report_owner :
      (parse : String → Option Uuid) (ctx : Context) (text : String) (x : S) (r : Report)
      → (get_report s parse ctx text x).0 ≡ ok r
      → (p : Principal) × (id : Uuid) × (principal s ctx ≡ ok p)
        × (parse text ≡ some id)
        × (rows x id ≡ some r)
        × (r.owner_user_id ≡ p.user_id)
        × (s.auth_disabled ≡ false → r.owner_user_id ≢ "")
  unfolding get_report
  get_report_owner parse ctx text x r h =
      let (p, hp, h1) = bind-eq-ok (lift (principal s ctx)) _ x h in
      let (id, hid, h2) = bind-eq-ok (lift (or_bad_id (parse text))) _ x h1 in
      let (q, hq, h3) = bind-eq-ok (map_err get_failed (s.store.get_report_by_id id)) _ x h2 in
      let y = (s.store.get_report_by_id id x).1 in
      let (_, ho, h4) = bind-eq-ok (lift (assert_owner p q)) _ y h3 in
      let same : q ≡ r = cc h4 in
      let owned = assert_owner-eq-ok p q ho in
      (
        p,
        id,
        hp,
        or_bad_id-eq-ok (parse text) hid,
        read-eq-ok (rows x id) _ (w.laws.get id x).0 (rename-eq-ok _ _ hq ∙ ap ok same),
        rw (← same) owned,
        λ on e. principal_named s ctx hp on (sym owned ∙ rw same e),
      )

  -- ListReports returns only reports of the accepted principal that asks.
  list_reports_owner :
      (ctx : Context) (x : S) (l : List Report)
      → (list_reports s ctx x).0 ≡ ok l
      → (p : Principal) × (principal s ctx ≡ ok p) × All (λ r. r.owner_user_id ≡ p.user_id) l
  unfolding list_reports
  list_reports_owner ctx x l h =
      let (p, hp, h1) = bind-eq-ok (lift (principal s ctx)) _ x h in
      (
        p,
        hp,
        owned p l (s.store.list_reports_by_owner p.user_id x).0 (w.laws.list_owner p.user_id x).0
            (rename-eq-ok _ _ h1),
      )
    where
      strip :
          (p : Principal) (l : List Report)
          → All (λ r. (r.owner_user_id == p.user_id) ≡ true) l
          → All (λ r. r.owner_user_id ≡ p.user_id) l
      strip p [] h = tt
      strip p (r ∷ rs) (h, t) = ((eq_iff _ _).0 h, strip p rs t)

      owned :
          (p : Principal) (l : List Report) (res : Result (List Report))
          → Lists (λ r. r.owner_user_id == p.user_id) res
          → res ≡ ok l
          → All (λ r. r.owner_user_id ≡ p.user_id) l
      owned p l (ok k) g e =
          strip p l (
            subst (λ (v : List Report). All (λ r. (r.owner_user_id == p.user_id) ≡ true) v) (cc e)
              g)
      owned p l (err z) g e = absurd (cc e)
