-- ===== src/Jobs/Runs.antt =====
-- Whole runs of processOne in which no statement fails.
use base_template_server_go.Base.{
  All, Bool, String, Time, [], arith, if◌then◌else◌, minute, nat_eq, none, refl, some, string_eq,
  subst, sym, ℕ, ◌*◌, ◌++◌, ◌+◌, ◌<◌, ◌==◌, ◌∷◌, ◌≡◌, ◌≤◌,
}
use base_template_server_go.Errors.{GoError, text}
use base_template_server_go.Op.{Op, err, ok}
use base_template_server_go.Authn.{Context}
use base_template_server_go.Jobs.{
  Handler, Job, Queue, World, claim, handler_of, locked, no_faults, pick, process_one,
  record_outcome, rescheduled, run_job, succeeded, update,
}
use base_template_server_go.Jobs.Attempts.{
  All-map, InBudget, Sound, due_in_budget, locked_id, only, update-All,
}
use base_template_server_go.Jobs.Pick.{Best, pick-Best}

-- The context of the handler, and the state behind the transaction that takes the job.
abbrev pub attempt_of : Context → Job → Context
attempt_of ctx j = record ctx {
  attempt_info = some (record { attempt = j.attempts + 1; max_attempts = j.max_attempts });
}

abbrev pub behind_claim : {R : Type 0} → Time → Job → World R → World R
behind_claim now j w = record w { jobs = update j.id (locked now) w.jobs }

pub handled_ok :
    {R : Type 0} (q : Queue R) (ctx : Context) (now : Time) (held : ℕ → Bool) (later : Time)
    (w : World R) (j : Job) (h : Handler R) (m : Op (World R) (Unit {0}))
    → pick now held w.jobs ≡ some j
    → handler_of j.type q.handlers ≡ some h
    → h (attempt_of ctx j) j.payload ≡ m
    → (m (behind_claim now j w)).0 ≡ ok tt
    → let u = (m (behind_claim now j w)).1 in
      process_one q ctx no_faults now held later w ≡ (
        ok tt,
        record u {
          jobs = update j.id (succeeded later) u.jobs;
          processed = u.processed ++ (j.type, "ok") ∷ [];
        },
      )
unfolding process_one claim run_job record_outcome
handled_ok q ctx now held later w j h m e k same good = rw (e, k) (rw (same, good) refl)

handled_err :
    {R : Type 0} (q : Queue R) (ctx : Context) (now : Time) (held : ℕ → Bool) (later : Time)
    (w : World R) (j : Job) (h : Handler R) (e : GoError)
    → pick now held w.jobs ≡ some j
    → handler_of j.type q.handlers ≡ some h
    → (h (attempt_of ctx j) j.payload (behind_claim now j w)).0 ≡ err e
    → (process_one q ctx no_faults now held later w).1.jobs
      ≡ update j.id
          (rescheduled later (text e))
          (h (attempt_of ctx j) j.payload (behind_claim now j w)).1.jobs
unfolding process_one claim run_job record_outcome
handled_err q ctx now held later w j h e p k bad = rw (p, k) (rw bad refl)

-- What the second UPDATE makes of a job that the first one has locked.
abbrev pub Backoff : Time → Job → Job → Type 0
Backoff later j k =
    (later + minute ≤ k.run_at)
    × (k.run_at ≤ later + minute * j.max_attempts)
    × (k.locked_until ≡ none)
    × (k.completed_at ≡ (if j.attempts + 1 == j.max_attempts then some later else none))

backed_off :
    (now later : Time) (message : String) (j k : Job)
    → j.attempts < j.max_attempts
    → k ≡ j
    → Backoff later j (rescheduled later message (locked now k))
unfolding locked rescheduled
backed_off now later message j k due e =
    subst (λ (k : Job). Backoff later j (rescheduled later message (locked now k))) (sym e)
      (omega arith, omega (arith, due), refl, ground (arith, due))

rescheduled_id : (now : Time) (message : String) (j : Job) → (rescheduled now message j).id ≡ j.id
unfolding rescheduled
rescheduled_id now message j = refl

-- If no statement fails, ids are unique and budgets are kept, and the handler of the job that is
-- taken fails and leaves the table of jobs alone, then the job's row is unlocked, is due again not
-- earlier than a minute later and not later than as many minutes as the job has attempts, and is
-- completed just when that was its last attempt.
pub process_one-Backoff :
    {R : Type 0} (q : Queue R) (ctx : Context) (now : Time) (held : ℕ → Bool) (later : Time)
    (w : World R) (j : Job) (h : Handler R) (e : GoError)
    → Sound w.jobs
    → pick now held w.jobs ≡ some j
    → handler_of j.type q.handlers ≡ some h
    → (h (attempt_of ctx j) j.payload (behind_claim now j w)).0 ≡ err e
    → (h (attempt_of ctx j) j.payload (behind_claim now j w)).1.jobs ≡ (behind_claim now j w).jobs
    → All
        (λ k. k.id ≡ j.id → Backoff later j k)
        (process_one q ctx no_faults now held later w).1.jobs
process_one-Backoff q ctx now held later w j h e (keyed, budget) p k bad quiet =
    let (m, due, _) = subst (Best now held w.jobs) p (pick-Best now held w.jobs) in
    let locked_all =
      update-All j.id (locked now) (locked_id now)
        (λ k. k.id ≡ j.id → Backoff later j (rescheduled later (text e) k)) w.jobs
        (All-map _ _ w.jobs
          (λ k f i _. backed_off now later (text e) j k (due_in_budget now held j due) (f i))
          (only (λ k. k ≡ j) j w.jobs keyed m refl))
        (All-map InBudget _ w.jobs (λ k _ n i. absurd (n i)) budget) in
    rw (handled_err q ctx now held later w j h e p k bad, quiet)
      (update-All j.id (rescheduled later (text e)) (rescheduled_id later (text e))
        (λ k. k.id ≡ j.id → Backoff later j k) (update j.id (locked now) w.jobs)
        (All-map _ _ (update j.id (locked now) w.jobs) (λ k f i _. f i) locked_all)
        (All-map _ _ (update j.id (locked now) w.jobs) (λ k _ n i. absurd (n i)) locked_all))
