-- ===== src/Reports/Store/Evolution.antt =====
-- Each operation of a store with the laws moves each row along its life.
use base_template_server_go.Base.{
  Bool, Bool-cases, Option, String, Time, arith, eq_iff, inl, inr, nat_eq, none, refl, some,
  string_eq, subst, sym, true, ◌==◌, ◌∙◌, ◌≡◌,
}
use base_template_server_go.Errors.{text}
use base_template_server_go.Op.{Op, Result, err, ok}
use base_template_server_go.Moves.{Moves, Order}
use base_template_server_go.Reports.Domain.{Report, Uuid}
use base_template_server_go.Reports.Store.{Store}
use base_template_server_go.Reports.Fake.{claimed, failed, finished, is_eligible, returned}
use base_template_server_go.Reports.Spec.{Rows, Same, StoreLaws, Updates, is_processing, when}
use base_template_server_go.Reports.Lifecycle.{Life, Life-trans, Step, here, next}

abbrev pub Evolves : {S : Type 0} → (S → Rows) → S → S → Type 0
Evolves rows s t = (id : Uuid) → Life (rows s id) (rows t id)

when-eq-some :
    (test : Report → Bool) (change : Report → Report) (o : Option Report) {r : Report}
    → when test change o ≡ some r
    → (q : Report) × (o ≡ some q) × (test q ≡ true) × (r ≡ change q)
when-eq-some test change none e = cc
when-eq-some test change (some q) e = (q, refl, ground arith, ground arith)

pub Same-Life : {a b : Rows} → Same a b → (id : Uuid) → Life (a id) (b id)
Same-Life {a} h id = rw (h id) here

-- An update whose new row is one step on from the old one.
pub Updates-Life :
    (before after : Rows) (id : Uuid) (new : Option Report) (res : Result Report)
    → Updates before after new res
    → ((r : Report) → new ≡ some r → (r.report_id ≡ id) × Step (before id) (some r))
    → (j : Uuid) → Life (before j) (after j)
Updates-Life before after id new (err e) u h j = Same-Life u.0 j
Updates-Life before after id new (ok r) u h j = elim (Bool-cases (r.report_id == j)) [
  | inl same ↦
      let (keyed, s) = h r u.0 in
      let at_id : id ≡ j = sym keyed ∙ (nat_eq.equal_iff _ _).0 same in
      subst (λ (k : Uuid). Life (before k) (after k)) at_id
        (rw (u.1 id) (rw ((nat_eq.equal_iff _ _).1 keyed) (next here s)))
  | inr other ↦ rw (u.1 j) (rw other here)
]

module _ {S : Type 0} (rows : S → Rows) where
  pub Evolves-order : Order (Evolves rows)
  Evolves-order = record {
    reflexive = λ s id. here;
    transitive = λ s t u h k id. Life-trans (h id) (k id);
  }

module _ {S : Type 0} (store : Store S) (rows : S → Rows) (laws : StoreLaws store rows) where
  -- The updates that keep the id and take a row that passes the test one step on.
  update-Evolves :
      (test : Report → Bool) (change : Report → Report) (m : Op S Report) (id : Uuid) (s : S)
      → Updates (rows s) (rows (m s).1) (when test change (rows s id)) (m s).0
      → ((q : Report) → (change q).report_id ≡ q.report_id)
      → ((q : Report) → test q ≡ true → Step (some q) (some (change q)))
      → Evolves rows s (m s).1
  update-Evolves test change m id s u keeps step =
      Updates-Life (rows s) (rows (m s).1) id _ (m s).0 u λ r e.
        let (q, found, passed, changed) = when-eq-some test change (rows s id) e in
        (rw changed (keeps q ∙ laws.keyed s id q found), rw (found, changed) (step q passed))

  pub claim-Moves :
      (id : Uuid) (now t : Time) → Moves (Evolves rows) (store.claim_execution id now t)
  unfolding claimed
  claim-Moves id now t = record {
    at = λ s.
        update-Evolves (λ r. is_eligible r t) (λ r. claimed r now) (store.claim_execution id now t)
          id s (laws.claim id now t s) (λ q. refl) (λ q e. Step.claim q now t e);
  }

  pub retry-Moves : (id : Uuid) (at : Time) → Moves (Evolves rows) (store.mark_pending_retry id at)
  unfolding returned
  retry-Moves id at = record {
    at = λ s.
        update-Evolves is_processing (λ r. returned r at) (store.mark_pending_retry id at) id s
          (laws.retry id at s) (λ q. refl) (λ q e. Step.retry q at ((eq_iff _ _).0 e));
  }

  pub complete-Moves :
      (id : Uuid) (text : String) (at : Time)
      → Moves (Evolves rows) (store.mark_completed id text at)
  unfolding finished
  complete-Moves id text at = record {
    at = λ s.
        update-Evolves is_processing (λ r. finished r text at) (store.mark_completed id text at) id
          s (laws.complete id text at s) (λ q. refl)
          (λ q e. Step.complete q text at ((eq_iff _ _).0 e));
  }

  pub fail-Moves :
      (id : Uuid) (code reason : String) (at : Time)
      → Moves (Evolves rows) (store.mark_failed id code reason at)
  unfolding failed
  fail-Moves id code reason at = record {
    at = λ s.
        update-Evolves is_processing (λ r. failed r code reason at)
          (store.mark_failed id code reason at) id s (laws.fail id code reason at s) (λ q. refl)
          (λ q e. Step.fail q code reason at ((eq_iff _ _).0 e));
  }

  pub get-Moves : (id : Uuid) → Moves (Evolves rows) (store.get_report_by_id id)
  get-Moves id = record { at = λ s. Same-Life (laws.get id s).1 }

  pub list_owner-Moves : (owner : String) → Moves (Evolves rows) (store.list_reports_by_owner owner)
  list_owner-Moves owner = record { at = λ s. Same-Life (laws.list_owner owner s).1 }

  pub list_pending-Moves : (t : Time) → Moves (Evolves rows) (store.list_pending_older_than t)
  list_pending-Moves t = record { at = λ s. Same-Life (laws.list_pending t s).1 }
