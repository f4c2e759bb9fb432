-- ===== src/Jobs/Loop.antt =====
-- Run of internal/platform/jobs/jobs.go: the loop of a worker. Which channel `select` takes each time
-- is an argument; with a tick come the readings of the clock, the failures and the rows that others
-- hold. Lines of the log but for errors are left out.
use base_template_server_go.Jobs.Budget.{left}
use base_template_server_go.Jobs.Attempts.{Sound}
use base_template_server_go.Base.{
  Bool, List, Time, [], arith, false, if◌then◌else◌, inl, inr, refl, suc, true, ℕ, ◌++◌, ◌+◌, ◌∷◌,
  ◌≡◌, ◌≤◌,
}
use base_template_server_go.Errors.{GoError, is, no_rows}
use base_template_server_go.Op.{Op, Result, Result-cases, err, ok}
use base_template_server_go.Authn.{Context}
use base_template_server_go.Jobs.{Faults, Queue, World, claim, process_one}
use base_template_server_go.Jobs.Serving.{AllAside, Served, idled, nothing_yet, runs_bounded, took}

pub data Choice : Type 0 where
  done : Choice
  tick : (fault : Faults) → (now : Time) → (held : ℕ → Bool) → (later : Time) → Choice

-- Whether Run has returned, the errors that it logged, and the state.
pub record Ran (R : Type 0) : Type 0 where
  pub stopped : Bool
  pub logged : List GoError
  pub world : World R

abbrev to_log : Result (Unit {0}) → List GoError
to_log (ok u) = []
to_log (err e) = if is e no_rows then [] else e ∷ []

unfoldable pub ready : {S : Type 0} → Op S (Unit {0}) → Op S (Unit {0})
ready ping_context = ping_context

module _ {R : Type 0} (q : Queue R) (ctx : Context) where
  unfoldable pub run : List Choice → World R → Ran R
  unfolding process_one
  run [] w = record { stopped = false; logged = []; world = w }
  run (done ∷ cs) w = record { stopped = true; logged = []; world = w }
  run (tick fault now held later ∷ cs) w =
      let (r, x) = process_one q ctx fault now held later w in
      let rest = run cs x in record rest { logged = to_log r ++ rest.logged }

  abbrev ticks : List Choice → ℕ
  ticks [] = 0
  ticks (done ∷ cs) = 0
  ticks (tick fault now held later ∷ cs) = suc (ticks cs)

  -- Whether the context was done at one of the choices.
  abbrev cancelled : List Choice → Bool
  cancelled [] = false
  cancelled (done ∷ cs) = true
  cancelled (tick fault now held later ∷ cs) = cancelled cs

  run_from :
      (cs : List Choice) {w : World R} (x : World R) (n : ℕ)
      → Served q w n x
      → (m : ℕ) × Served q w m (run cs x).world × (m ≤ n + ticks cs)
  unfolding run
  run_from [] x n s = (n, s, omega arith)
  run_from (done ∷ cs) x n s = (n, s, omega arith)
  run_from (tick fault now held later ∷ cs) x n s = elim (Result-cases (claim fault now held x).0) [
    | inl (j, e) ↦
        let (m, t, most) =
          run_from cs (process_one q ctx fault now held later x).1 (n + 1)
            (took s ctx fault now held later j e) in
        (m, t, omega (arith, most))
    | inr (z, e) ↦
        let (m, t, most) =
          run_from cs (process_one q ctx fault now held later x).1 n
            (idled s ctx fault now held later z e) in
        (m, t, omega (arith, most))
  ]

  run_ends : (cs : List Choice) (w : World R) → (run cs w).stopped ≡ cancelled cs
  unfolding run
  run_ends [] w = refl
  run_ends (done ∷ cs) w = refl
  run_ends (tick fault now held later ∷ cs) w =
      run_ends cs (process_one q ctx fault now held later w).1

  -- The loop of a worker returns exactly if its context is done at some choice: no error ends it.
  -- What it does up to there is a sequence of calls of processOne, of which those that take a job
  -- are at most as many as the ticks, and as the attempts that the jobs have left at the start. The
  -- handlers must not change the table of jobs; ids are unique and budgets are kept at the start.
  pub run-Served :
      (cs : List Choice) (w : World R)
      → AllAside q
      → Sound w.jobs
      → ((run cs w).stopped ≡ cancelled cs)
        × ((n : ℕ) × Served q w n (run cs w).world × (n ≤ ticks cs) × (n ≤ left w.jobs))
  run-Served cs w aside sound =
      let (n, s, most) = run_from cs w 0 nothing_yet in
      (run_ends cs w, (n, s, omega (arith, most), runs_bounded q aside w _ n sound s))
