-- ===== src/Jobs/Serving.antt =====
-- Workers that serve the queue, one processOne after the other, in any order and with any failures.
use base_template_server_go.Base.{Bool, String, Time, ap, arith, some, ℕ, ◌+◌, ◌∙◌, ◌≡◌, ◌≤◌}
use base_template_server_go.Errors.{GoError}
use base_template_server_go.Op.{attempt-err, attempt-ok, err, fail, ok}
use base_template_server_go.Authn.{Context}
use base_template_server_go.Moves.{Moves}
use base_template_server_go.Jobs.{
  Faults, Handler, Job, Queue, World, claim, handler_of, process_one, run_job,
}
use base_template_server_go.Jobs.Attempts.{KeepsSound, Sound, claim-eq-err}
use base_template_server_go.Jobs.Process.{process_one-Sound}
use base_template_server_go.Jobs.Budget.{Aside, claim_spends, left, run_job-left}

-- After some calls of processOne, `n` of which took a job.
pub data Served {R : Type 0} (q : Queue R) (w : World R) : ℕ → World R → Type 0 where
  nothing_yet : Served q w 0 w
  took :
      {n : ℕ} {x : World R}
      → Served q w n x
      → (ctx : Context) (fault : Faults) (now : Time) (held : ℕ → Bool) (later : Time) (j : Job)
      → (claim fault now held x).0 ≡ ok j
      → Served q w (n + 1) (process_one q ctx fault now held later x).1
  idled :
      {n : ℕ} {x : World R}
      → Served q w n x
      → (ctx : Context) (fault : Faults) (now : Time) (held : ℕ → Bool) (later : Time) (e : GoError)
      → (claim fault now held x).0 ≡ err e
      → Served q w n (process_one q ctx fault now held later x).1

abbrev pub AllAside : {R : Type 0} → Queue R → Type 0
AllAside {R} q = (name : String) (f : Handler R) → handler_of name q.handlers ≡ some f → Aside f

module _ {R : Type 0} (q : Queue R) (aside : AllAside q) where
  keeps :
      (name : String) (f : Handler R)
      → handler_of name q.handlers ≡ some f
      → (c : Context) (payload : String) → Moves KeepsSound (f c payload)
  keeps name f e c payload = record { at = λ w h. rw (aside name f e c payload w) h }

  process-left :
      (ctx : Context) (fault : Faults) (now : Time) (held : ℕ → Bool) (later : Time) (w : World R)
      (j : Job)
      → Sound w.jobs
      → (claim fault now held w).0 ≡ ok j
      → left (process_one q ctx fault now held later w).1.jobs + 1 ≡ left w.jobs
  unfolding process_one
  process-left ctx fault now held later w j sound e =
      let run = run_job ctx fault j later (handler_of j.type q.handlers) in
      let y = (claim fault now held w).1 in
      let first =
        attempt-ok (claim fault now held) fail
          (λ k. run_job ctx fault k later (handler_of k.type q.handlers)) w j e in
      let same : left (run y).1.jobs ≡ left y.jobs =
        run_job-left ctx fault j later (handler_of j.type q.handlers) y (λ f h. aside j.type f h) in
      ap (λ r. left r.1.jobs + 1) first
      ∙ ap (λ n. n + 1) same
      ∙ claim_spends fault now held w j sound e

  process-idle :
      (ctx : Context) (fault : Faults) (now : Time) (held : ℕ → Bool) (later : Time) (w : World R)
      (e : GoError)
      → (claim fault now held w).0 ≡ err e
      → (process_one q ctx fault now held later w).1 ≡ w
  unfolding process_one
  process-idle ctx fault now held later w e h =
      ap (λ r. r.1)
        (attempt-err (claim fault now held) fail
          (λ k. run_job ctx fault k later (handler_of k.type q.handlers)) w e h)
      ∙ claim-eq-err fault now held w h

  runs_sum :
      (w u : World R) (n : ℕ)
      → Sound w.jobs
      → Served q w n u
      → (n + left u.jobs ≡ left w.jobs) × Sound u.jobs
  runs_sum w u n sound nothing_yet = (omega arith, sound)
  runs_sum w u n sound (took s ctx fault now held later j e) =
      let (sum, ok') = runs_sum w _ _ sound s in
      let spent = process-left ctx fault now held later _ j ok' e in
      (omega (arith, sum, spent), process_one-Sound q ctx fault now held later _ keeps ok')
  runs_sum w u n sound (idled s ctx fault now held later e h) =
      let (sum, ok') = runs_sum w _ _ sound s in
      let same = process-idle ctx fault now held later _ e h in (rw same sum, rw same ok')

  -- If no handler changes the table of jobs, ids are unique and budgets are kept, then among any calls
  -- of processOne, with any failures, those that take a job are at most as many as the attempts that
  -- the jobs have left at the start.
  pub runs_bounded : (w u : World R) (n : ℕ) → Sound w.jobs → Served q w n u → n ≤ left w.jobs
  runs_bounded w u n sound s = omega (arith, (runs_sum w u n sound s).0)
