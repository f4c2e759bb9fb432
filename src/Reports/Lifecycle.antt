-- ===== src/Reports/Lifecycle.antt =====
-- The life of one report as a step relation, and what every life keeps.
pub mod Laws
use base_template_server_go.Base.{Option, String, Time, is_some, none, some, true, ◌≡◌, ◌⊎◌}
use base_template_server_go.Reports.Domain.{
  Report, status_completed, status_failed, status_pending, status_processing, type_todo_summary,
}
use base_template_server_go.Reports.Fake
use base_template_server_go.Reports.Fake.{claimed, finished, is_eligible, returned}

-- A report as CreateReport inserts it.
pub record IsNew (r : Report) : Type 0 where
  pub status : r.status ≡ status_pending
  pub type : r.type ≡ type_todo_summary
  pub started_at : r.started_at ≡ none
  pub completed_at : r.completed_at ≡ none
  pub processing_started_at : r.processing_started_at ≡ none
  pub failure_code : r.failure_code ≡ ""
  pub failure_reason : r.failure_reason ≡ ""
  pub result : r.result ≡ ""

-- One change of the row of an id.
pub data Step : Option Report → Option Report → Type 0 where
  create : (r : Report) → IsNew r → Step none (some r)
  claim :
      (r : Report) (now stale_before : Time)
      → is_eligible r stale_before ≡ true
      → Step (some r) (some (claimed r now))
  retry :
      (r : Report) (at : Time) → r.status ≡ status_processing → Step (some r) (some (returned r at))
  complete :
      (r : Report) (text : String) (at : Time)
      → r.status ≡ status_processing
      → Step (some r) (some (finished r text at))
  fail :
      (r : Report) (code reason : String) (at : Time)
      → r.status ≡ status_processing
      → Step (some r) (some (Fake.failed r code reason at))

pub data Life (a : Option Report) : Option Report → Type 0 where
  here : Life a a
  next : {b c : Option Report} → Life a b → Step b c → Life a c

pub Life-trans : {a b c : Option Report} → Life a b → Life b c → Life a c
Life-trans l here = l
Life-trans l (next m s) = next (Life-trans l m) s

-- What the fields say in each status: a lease exactly while processing, an end exactly when
-- terminal, a failure only in a failed report, a result only in a completed one.
pub record IsPending (r : Report) : Type 0 where
  pub status : r.status ≡ status_pending
  pub no_lease : r.processing_started_at ≡ none
  pub no_end : r.completed_at ≡ none
  pub no_code : r.failure_code ≡ ""
  pub no_reason : r.failure_reason ≡ ""
  pub no_result : r.result ≡ ""

pub record IsProcessing (r : Report) : Type 0 where
  pub status : r.status ≡ status_processing
  pub lease : is_some r.processing_started_at ≡ true
  pub started : is_some r.started_at ≡ true
  pub no_end : r.completed_at ≡ none
  pub no_code : r.failure_code ≡ ""
  pub no_reason : r.failure_reason ≡ ""
  pub no_result : r.result ≡ ""

pub record IsCompleted (r : Report) : Type 0 where
  pub status : r.status ≡ status_completed
  pub no_lease : r.processing_started_at ≡ none
  pub started : is_some r.started_at ≡ true
  pub end : is_some r.completed_at ≡ true
  pub no_code : r.failure_code ≡ ""
  pub no_reason : r.failure_reason ≡ ""

pub record IsFailed (r : Report) : Type 0 where
  pub status : r.status ≡ status_failed
  pub no_lease : r.processing_started_at ≡ none
  pub started : is_some r.started_at ≡ true
  pub end : is_some r.completed_at ≡ true
  pub no_result : r.result ≡ ""

pub data IsValid (r : Report) : Type 0 where
  pending : IsPending r → IsValid r
  processing : IsProcessing r → IsValid r
  completed : IsCompleted r → IsValid r
  failed : IsFailed r → IsValid r

abbrev pub IsTerminal : Report → Type 0
IsTerminal r = (r.status ≡ status_completed) ⊎ (r.status ≡ status_failed)

abbrev pub AllValid : Option Report → Type 0
AllValid none = Unit
AllValid (some r) = IsValid r
