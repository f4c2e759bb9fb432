-- ===== src/Reports/Contract.antt =====
-- The port of internal/reports/store.go told field by field: when each operation applies to a row,
-- what it makes of the row, and which rows a list has. No store is mentioned.
use mathlib.Core.List.{Memᴰ}
use base_template_server_go.Base.{
  All, List, Option, String, Time, [], if◌then◌else◌, nat_eq, none, some, string_eq, ◌<◌, ◌==◌, ◌↔◌,
  ◌∷◌, ◌≡◌, ◌≢◌, ◌⊎◌,
}
use base_template_server_go.Errors.{no_rows, sentinel}
use base_template_server_go.Op.{Result, err, ok}
use base_template_server_go.Reports.Domain.{Report, Uuid}
use base_template_server_go.Reports.Store.{Store}
use base_template_server_go.Reports.Spec.{Rows}

-- What no operation changes.
pub record Kept (r s : Report) : Type 0 where
  pub report_id : s.report_id ≡ r.report_id
  pub owner_user_id : s.owner_user_id ≡ r.owner_user_id
  pub type : s.type ≡ r.type
  pub created_at : s.created_at ≡ r.created_at

abbrev pub Expired : Option Time → Time → Type 0
Expired lease stale_before = (lease ≡ none) ⊎ ((t : Time) × (lease ≡ some t) × (t < stale_before))

-- A report that waits, or whose lease is over.
abbrev pub Claimable : Time → Report → Type 0
Claimable stale_before r =
    (r.status ≡ "pending")
    ⊎ ((r.status ≡ "processing") × Expired r.processing_started_at stale_before)

abbrev pub Running : Report → Type 0
Running r = r.status ≡ "processing"

-- The first time at which a report was claimed stays.
abbrev pub Starts : Time → Option Time → Option Time → Type 0
Starts now before after =
    ((before ≡ none) × (after ≡ some now)) ⊎ ((t : Time) × (before ≡ some t) × (after ≡ some t))

pub record Claimed (now : Time) (r s : Report) : Type 0 where
  pub kept : Kept r s
  pub status : s.status ≡ "processing"
  pub updated_at : s.updated_at ≡ now
  pub lease : s.processing_started_at ≡ some now
  pub started_at : Starts now r.started_at s.started_at
  pub completed_at : s.completed_at ≡ r.completed_at
  pub result : s.result ≡ r.result
  pub failure_code : s.failure_code ≡ ""
  pub failure_reason : s.failure_reason ≡ ""

pub record Returned (at : Time) (r s : Report) : Type 0 where
  pub kept : Kept r s
  pub status : s.status ≡ "pending"
  pub updated_at : s.updated_at ≡ at
  pub lease : s.processing_started_at ≡ none
  pub started_at : s.started_at ≡ r.started_at
  pub completed_at : s.completed_at ≡ r.completed_at
  pub result : s.result ≡ r.result
  pub failure_code : s.failure_code ≡ ""
  pub failure_reason : s.failure_reason ≡ ""

pub record Finished (text : String) (at : Time) (r s : Report) : Type 0 where
  pub kept : Kept r s
  pub status : s.status ≡ "completed"
  pub updated_at : s.updated_at ≡ at
  pub lease : s.processing_started_at ≡ none
  pub started_at : s.started_at ≡ r.started_at
  pub completed_at : s.completed_at ≡ some at
  pub result : s.result ≡ text
  pub failure_code : s.failure_code ≡ ""
  pub failure_reason : s.failure_reason ≡ ""

pub record Failed (code reason : String) (at : Time) (r s : Report) : Type 0 where
  pub kept : Kept r s
  pub status : s.status ≡ "failed"
  pub updated_at : s.updated_at ≡ at
  pub lease : s.processing_started_at ≡ none
  pub started_at : s.started_at ≡ r.started_at
  pub completed_at : s.completed_at ≡ some at
  pub result : s.result ≡ r.result
  pub failure_code : s.failure_code ≡ code
  pub failure_reason : s.failure_reason ≡ reason

-- An update of one row: it gives the row that it leaves, or sql.ErrNoRows for a row that is missing or
-- does not fit; all other rows stay.
abbrev pub Outcome :
    (Report → Type 0) → (Report → Report → Type 0) → Uuid → Rows → Rows → Result Report → Type 0
Outcome Fits Becomes id before after (ok s) =
    (r : Report) × (before id ≡ some r)
    × Fits r
    × Becomes r s
    × ((i : Uuid) → after i ≡ (if id == i then some s else before i))
Outcome Fits Becomes id before after (err e) =
    (e ≡ sentinel no_rows)
    × ((r : Report) → before id ≡ some r → ¬ Fits r)
    × ((i : Uuid) → after i ≡ before i)

abbrev pub Found : Option Report → Result Report → Type 0
Found row (ok r) = row ≡ some r
Found row (err e) = (e ≡ sentinel no_rows) × (row ≡ none)

-- No two reports of the list have the same id.
abbrev pub Distinct : List Report → Type 0
Distinct [] = Unit
Distinct (r ∷ rs) = All (λ k. k.report_id ≢ r.report_id) rs × Distinct rs

-- The list has each row that fits once, and nothing else.
abbrev pub Exactly : (Report → Type 0) → Rows → Result (List Report) → Type 0
Exactly Fits rows (ok l) =
    Distinct l × ((r : Report) → Memᴰ r l ↔ ((rows r.report_id ≡ some r) × Fits r))
Exactly Fits rows (err e) = ⊥

-- What the operations do in the state `s`; `Fine` is the invariant of the store's states.
module _ {S : Type 0} (store : Store S) (rows : S → Rows) (Fine : S → Type 0) where
  pub record Contract (s : S) : Type 0 where
    pub create :
        (r : Report)
        → let (res, t) = store.create_report r s in
          (res ≡ ok r)
          × ((i : Uuid) → rows t i ≡ (if r.report_id == i then some r else rows s i))
          × Fine t
    pub get :
        (id : Uuid) → let (res, t) = store.get_report_by_id id s in Found (rows s id) res × (t ≡ s)
    pub list_owner :
        (owner : String)
        → let (res, t) = store.list_reports_by_owner owner s in
          Exactly (λ r. r.owner_user_id ≡ owner) (rows s) res × (t ≡ s)
    pub claim :
        (id : Uuid) (now stale_before : Time)
        → let (res, t) = store.claim_execution id now stale_before s in
          Outcome (Claimable stale_before) (Claimed now) id (rows s) (rows t) res × Fine t
    pub retry :
        (id : Uuid) (at : Time)
        → let (res, t) = store.mark_pending_retry id at s in
          Outcome Running (Returned at) id (rows s) (rows t) res × Fine t
    pub complete :
        (id : Uuid) (text : String) (at : Time)
        → let (res, t) = store.mark_completed id text at s in
          Outcome Running (Finished text at) id (rows s) (rows t) res × Fine t
    pub fail :
        (id : Uuid) (code reason : String) (at : Time)
        → let (res, t) = store.mark_failed id code reason at s in
          Outcome Running (Failed code reason at) id (rows s) (rows t) res × Fine t
    pub list_pending :
        (before : Time)
        → let (res, t) = store.list_pending_older_than before s in
          Exactly (λ r. (r.status ≡ "pending") × (r.updated_at < before)) (rows s) res × (t ≡ s)
