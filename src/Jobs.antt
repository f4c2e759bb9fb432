-- ===== src/Jobs.antt =====
-- internal/platform/jobs/jobs.go: the queue of background jobs in the table platform.jobs. The SQL
-- statements of the source are functions on the list of rows. What the database may do besides is
-- an argument: the clock of each statement, the rows that other transactions hold, and failures.
pub mod Pick
pub mod Attempts
pub mod Process
pub mod Runs
pub mod Budget
pub mod Serving
pub mod Loop
mod Tests
use base_template_server_go.Base.{
  Bool, Duration, List, Option, String, Time, [], if◌then◌else◌, is_positive, is_some, leb, ltb,
  minute, nat_eq, none, not, pos, second, some, string_eq, true, ℕ, ◌&&◌, ◌*◌, ◌++◌, ◌+◌, ◌==◌, ◌∷◌,
  ◌⧺◌,
}
use base_template_server_go.Errors.{GoError, no_rows, sentinel, text}
use base_template_server_go.Op.{Op, Result, attempt, err, lift, ok, ◌>>=◌, ◌>>◌}
use base_template_server_go.Authn.{AttemptInfo, Context}

-- A row of platform.jobs (sql/migrations).
pub record Job : Type 0 where
  pub id : ℕ
  pub type : String
  pub payload : String
  pub run_at : Time
  pub attempts : ℕ
  pub max_attempts : ℕ
  pub locked_until : Option Time
  pub completed_at : Option Time
  pub last_error : Option String

-- The table, the labels of each call of metrics.JobProcessed, and the rest of the program.
pub record World (R : Type 0) : Type 0 where
  pub jobs : List Job
  pub processed : List (String × String)
  pub app : R

abbrev pub Handler : Type 0 → Type 0
Handler R = Context → String → Op (World R) (Unit {0})

pub record Queue (R : Type 0) : Type 0 where
  pub handlers : List (String × Handler R)
  pub max_attempts : ℕ
  pub poll_every : Duration

-- NewQueue; a count that is not positive is 0 here.
unfoldable pub new_queue : {R : Type 0} → ℕ → Duration → Queue R
new_queue max_attempts poll_every = record {
  handlers = [];
  max_attempts = if max_attempts == 0 then 5 else max_attempts;
  poll_every = if is_positive poll_every then poll_every else pos (2 * second);
}

-- q.handlers[jobType] = h
unfoldable pub assign_handler {ℓ} :
    {H : Type ℓ} → String → H → List (String × H) → List (String × H)
assign_handler name h [] = (name, h) ∷ []
assign_handler name h ((k, g) ∷ l) =
    if k == name then (k, h) ∷ l else (k, g) ∷ assign_handler name h l

unfoldable pub handler_of {ℓ} : {H : Type ℓ} → String → List (String × H) → Option H
handler_of name [] = none
handler_of name ((k, g) ∷ l) = if k == name then some g else handler_of name l

unfoldable pub register : {R : Type 0} → String → Handler R → Queue R → Queue R
unfolding assign_handler
register name h q = record q { handlers = assign_handler name h q.handlers }

abbrev or_now : Option Time → Time → Time
or_now none now = now
or_now (some t) now = t

abbrev exec : Option GoError → Result (Unit {0})
exec none = ok tt
exec (some e) = err e

-- UPDATE platform.jobs SET … WHERE id = $1
unfoldable pub update : ℕ → (Job → Job) → List Job → List Job
update id change [] = []
update id change (j ∷ js) = (if j.id == id then change j else j) ∷ update id change js

-- The WHERE clause of the SELECT in processOne; `held` are the rows that SKIP LOCKED skips.
unfoldable pub is_due : Time → (ℕ → Bool) → Job → Bool
is_due now held j =
    not (is_some j.completed_at)
    && (elim j.locked_until [ none ↦ true | some t ↦ ltb t now ])
    && leb j.run_at now
    && ltb j.attempts j.max_attempts
    && not (held j.id)

abbrev earlier : Option Job → Job → Job
earlier none j = j
earlier (some k) j = if ltb k.run_at j.run_at then k else j

-- ORDER BY run_at LIMIT 1 among the rows that are due.
unfoldable pub pick : Time → (ℕ → Bool) → List Job → Option Job
pick now held [] = none
pick now held (j ∷ js) =
    let rest = pick now held js in if is_due now held j then some (earlier rest j) else rest

unfoldable pub locked : Time → Job → Job
locked now j = record j { locked_until = some (now + 5 * minute); attempts = j.attempts + 1 }

unfoldable pub unhandled : Time → Job → Job
unhandled now j = record j {
  last_error = some ("no handler for type " ⧺ j.type);
  locked_until = none;
  completed_at = some now;
}

unfoldable pub rescheduled : Time → String → Job → Job
rescheduled now message j = record j {
  last_error = some message;
  locked_until = none;
  run_at = now + minute * j.attempts;
  completed_at = if leb j.max_attempts j.attempts then some now else none;
}

unfoldable pub succeeded : Time → Job → Job
succeeded now j = record j { completed_at = some now; locked_until = none; last_error = none }

-- Which statements of one processOne fail, and with what.
pub record Faults : Type 0 where
  pub begin : Option GoError
  pub select_job : Option GoError
  pub lock : Option GoError
  pub commit : Option GoError
  pub finish : Option GoError

abbrev pub no_faults : Faults
no_faults = record { begin = none; select_job = none; lock = none; commit = none; finish = none }

abbrev update_row : {R : Type 0} → ℕ → (Job → Job) → World R → World R
update_row id change w = record w { jobs = update id change w.jobs }

abbrev job_processed : {R : Type 0} → String → String → World R → World R
job_processed type status w = record w { processed = w.processed ++ (type, status) ∷ [] }

-- A statement that fails leaves the table alone.
abbrev unless {ℓ} : {A : Type ℓ} → Option GoError → A → A → A
unless none new old = new
unless (some _) new old = old

module _ {R P : Type 0} (marshal : P → Result String) where
  -- Enqueue. `fault` is the failure of the INSERT.
  unfoldable pub enqueue :
      Queue R → String → P → Option Time → ℕ → Time → Option GoError → Op (World R) ℕ
  enqueue q type payload run_at new_id now fault = do
    body ← lift (marshal payload)
    lift (exec fault)
    λ w. (
      ok new_id,
      record w {
        jobs =
            w.jobs
            ++ record {
              id = new_id;
              type = type;
              payload = body;
              run_at = or_now run_at now;
              attempts = 0;
              max_attempts = q.max_attempts;
              locked_until = none;
              completed_at = none;
              last_error = none;
            }
              ∷ [];
      },
    )

module _ {R : Type 0} (fault : Faults) where
  -- The transaction: the row, as it was selected, is locked and its attempt counted.
  unfoldable pub claim : Time → (ℕ → Bool) → Op (World R) Job
  unfolding pick update locked
  claim now held w =
      (do
        lift (exec fault.begin)
        lift (exec fault.select_job)
        j ← lift (elim (pick now held w.jobs) [ none ↦ err (sentinel no_rows) | some j ↦ ok j ])
        lift (exec fault.lock)
        lift (exec fault.commit)
        λ u. (ok j, update_row j.id (locked now) u))
        w

  -- The statement behind a handler that returned.
  unfoldable pub record_outcome : Job → Time → Result (Unit {0}) → Op (World R) (Unit {0})
  unfolding succeeded rescheduled
  record_outcome j later (ok _) w =
      let u = job_processed j.type "ok" w in
      (exec fault.finish, unless fault.finish (update_row j.id (succeeded later) u) u)
  record_outcome j later (err e) w =
      let u = job_processed j.type "error" w in
      (err e, unless fault.finish (update_row j.id (rescheduled later (text e)) u) u)

module _ {R : Type 0} (ctx : Context) (fault : Faults) where
  -- What follows the commit: the handler, with the attempt in its context, or none.
  unfoldable pub run_job : Job → Time → Option (Handler R) → Op (World R) (Unit {0})
  unfolding record_outcome unhandled
  run_job j later none w =
      let u = job_processed j.type "unknown" w in
      (ok tt, unless fault.finish (update_row j.id (unhandled later) u) u)
  run_job j later (some h) w =
      let info : AttemptInfo = record { attempt = j.attempts + 1; max_attempts = j.max_attempts } in
      let (r, u) = h (record ctx { attempt_info = some info }) j.payload w in
      record_outcome fault j later r u

module _ {R : Type 0} (q : Queue R) (ctx : Context) (fault : Faults) where
  unfoldable pub process_one : Time → (ℕ → Bool) → Time → Op (World R) (Unit {0})
  unfolding claim run_job handler_of
  process_one now held later = do
    j ← claim fault now held
    run_job ctx fault j later (handler_of j.type q.handlers)
