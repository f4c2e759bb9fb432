-- ===== src/Jobs/Tests.antt =====
-- A run of the queue, and the theorems at it.
use base_template_server_go.Jobs.Runs.{Backoff, process_one-Backoff}
use base_template_server_go.Jobs.Budget.{left}
use base_template_server_go.Jobs.Loop.{Choice, done, run, run-Served, tick}
use base_template_server_go.Jobs.Serving.{AllAside, Served, nothing_yet, runs_bounded, took}
use base_template_server_go.Base.{
  All, Bool, Bool-cases, List, String, Time, [], ap, arith, false, inl, inr, minute, nat_eq, none,
  pos, refl, second, some, string_eq, subst, sym, true, ℕ, ◌*◌, ◌+◌, ◌==◌, ◌∙◌, ◌∷◌, ◌≡◌, ◌≤◌,
}
use base_template_server_go.Errors.{foreign, text}
use base_template_server_go.Op.{err, ok}
use base_template_server_go.Authn.{Context, background}
use base_template_server_go.Moves.{Moves}
use base_template_server_go.Jobs.{
  Handler, Job, Queue, World, claim, enqueue, handler_of, is_due, no_faults, pick, process_one,
}
use base_template_server_go.Jobs.Pick.{Best, pick-Best}
use base_template_server_go.Jobs.Attempts.{KeepsSound, Sound, claim-exclusive}
use base_template_server_go.Jobs.Process.{process_one-Sound}

abbrev free : ℕ → Bool
free id = false

abbrev waiting : Job
waiting = record {
  id = 4;
  type = "reports.generate";
  payload = "{}";
  run_at = 10;
  attempts = 4;
  max_attempts = 5;
  locked_until = none;
  completed_at = none;
  last_error = none;
}

abbrev earlier_job : Job
earlier_job = record waiting { id = 5; run_at = 3; attempts = 0 }

abbrev two_jobs : World (Unit {0})
two_jobs = record { jobs = waiting ∷ earlier_job ∷ []; processed = []; app = tt }

abbrev failing : Handler (Unit {0})
failing ctx payload w = (err (foreign "boom"), w)

abbrev queue : Queue (Unit {0})
queue = record {
  handlers = ("reports.generate", failing) ∷ [];
  max_attempts = 5;
  poll_every = pos second;
}

takes_earliest : (claim no_faults 20 free two_jobs).0 ≡ ok earlier_job
unfolding claim is_due
takes_earliest = refl

-- The last attempt fails: the job is completed with its error.
last_attempt :
    (process_one queue background no_faults 20 free 30
      (record two_jobs { jobs = waiting ∷ [] })).1.jobs
    ≡ record waiting {
      attempts = 5;
      run_at = 30 + minute * 5;
      completed_at = some 30;
      last_error = some "boom";
    }
      ∷ []
unfolding process_one is_due text
last_attempt = refl

enqueued :
    (enqueue {R = Unit {0}} {P = ℕ}
      (λ n. ok "{}")
      queue
      "x"
      1
      none
      9
      50
      none
      (record two_jobs { jobs = [] })).0
    ≡ ok 9
unfolding enqueue
enqueued = refl

two_jobs-Sound : Sound two_jobs.jobs
two_jobs-Sound = (((omega arith, tt), (tt, tt)), (omega arith, (omega arith, tt)))

claim-exclusive_example :
    Sound (claim no_faults 20 free two_jobs).1.jobs
    × All
        (λ k.
          k.id ≡ 5
          → (k.attempts ≡ 0 + 1)
            × ((t : Time) (other : ℕ → Bool) → t ≤ 20 + 5 * minute → is_due t other k ≡ false))
        (claim no_faults 20 free two_jobs).1.jobs
claim-exclusive_example =
    claim-exclusive no_faults 20 free two_jobs earlier_job two_jobs-Sound takes_earliest

failing_sound :
    (name : String) (f : Handler (Unit {0}))
    → handler_of name queue.handlers ≡ some f
    → (c : Context) (payload : String) → Moves KeepsSound (f c payload)
unfolding handler_of
failing_sound name f e c payload = elim (Bool-cases ("reports.generate" == name)) [
  | inl same ↦
      let found : some failing ≡ some f = sym (rw same refl) ∙ e in
      let one : failing ≡ f = cc found in
      subst (λ (g : Handler (Unit {0})). Moves KeepsSound (g c payload)) one
        (record { at = λ w h. h })
  | inr differ ↦ let lost : none ≡ some f = sym (rw differ refl) ∙ e in absurd (cc lost)
]

process_one-Sound_example :
    Sound (process_one queue background no_faults 20 free 30 two_jobs).1.jobs
process_one-Sound_example =
    process_one-Sound queue background no_faults 20 free 30 two_jobs failing_sound two_jobs-Sound

pick-Best_example : Best 20 free two_jobs.jobs (pick 20 free two_jobs.jobs)
pick-Best_example = pick-Best 20 free two_jobs.jobs

failing_aside : AllAside queue
unfolding handler_of
failing_aside name f e c payload w = elim (Bool-cases ("reports.generate" == name)) [
  | inl same ↦
      let found : some failing ≡ some f = sym (rw same refl) ∙ e in
      let one : failing ≡ f = cc found in
      ap (λ (g : Handler (Unit {0})). (g c payload w).1.jobs) (sym one)
  | inr differ ↦ let lost : none ≡ some f = sym (rw differ refl) ∙ e in absurd (cc lost)
]

runs_bounded_example : 0 + 1 ≤ left two_jobs.jobs
runs_bounded_example =
    runs_bounded queue failing_aside two_jobs
      (process_one queue background no_faults 20 free 30 two_jobs).1 (0 + 1) two_jobs-Sound
      (took nothing_yet background no_faults 20 free 30 earlier_job takes_earliest)

-- A tick whose handler fails, one without a job, and the end.
abbrev choices : List Choice
choices =
    tick no_faults 20 free 30 ∷ tick no_faults 21 free 31 ∷ done ∷ tick no_faults 22 free 32 ∷ []

run-Served_example :
    ((run queue background choices two_jobs).stopped ≡ true)
    × ((n : ℕ) × Served queue two_jobs n (run queue background choices two_jobs).world
        × (n ≤ 2)
        × (n ≤ left two_jobs.jobs))
run-Served_example = run-Served queue background choices two_jobs failing_aside two_jobs-Sound

picked : pick 20 free two_jobs.jobs ≡ some earlier_job
unfolding pick is_due
picked = refl

failing_found : handler_of "reports.generate" queue.handlers ≡ some failing
unfolding handler_of
failing_found = refl

process_one-Backoff_example :
    All
      (λ k. k.id ≡ 5 → Backoff 30 earlier_job k)
      (process_one queue background no_faults 20 free 30 two_jobs).1.jobs
process_one-Backoff_example =
    process_one-Backoff queue background 20 free 30 two_jobs earlier_job failing (foreign "boom")
      two_jobs-Sound picked failing_found refl refl
