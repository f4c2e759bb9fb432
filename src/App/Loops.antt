-- ===== src/App/Loops.antt =====
-- The goroutines that Start and StartWorkerOnly of internal/app/app.go leave running: the worker of
-- the queue and the ticker of the reconciliation. Which of them goes on next is an argument; the first
-- turn of the ticker is the reconciliation before the first tick.
use base_template_server_go.Base.{
  All, Bool, Bool-cases, Duration, List, Time, [], if◌then◌else◌, inl, inr, is_positive, pos,
  second, true, ℕ, ◌&&◌, ◌*◌, ◌∷◌,
}
use base_template_server_go.Authn.{Context}
use base_template_server_go.Config.{Config}
use base_template_server_go.Jobs.{Faults, process_one}
use base_template_server_go.Reports.Service as ReportsService
use base_template_server_go.App.{Environment, Program, new}
use base_template_server_go.App.Safety.{IsSafe, program-IsSafe}
use base_template_server_go.App.Steps.{
  IsAllowed, Reach, called, onward, reconcile_pending, start, worked,
}

-- time.NewTicker gets this interval.
unfoldable pub reconcile_interval : Duration → Duration
reconcile_interval interval = if is_positive interval then interval else pos (30 * second)

pub record Goroutines : Type 0 where
  pub worker : Bool
  pub ticker : Bool

unfoldable pub started : {Float : Type 0} → Config Float → Goroutines
started cfg = record {
  worker = cfg.jobs.enabled && cfg.jobs.embed_in_server;
  ticker = cfg.jobs.enabled;
}

unfoldable pub started_worker_only : Goroutines
started_worker_only = record { worker = true; ticker = true }

pub data Turn : Type 0 where
  of_worker :
      (env : Environment)
      → (ctx : Context) → (fault : Faults) → (now : Time) → (held : ℕ → Bool) → (later : Time)
      → Turn
  of_ticker : (env : Environment) → (now : Time) → Turn

module _ {Float : Type 0} (cfg : Config Float) (on : Goroutines) where
  -- Errors are only logged.
  unfoldable pub turn : Turn → Program → Program
  unfolding process_one ReportsService.reconcile_pending new
  turn (of_worker env ctx fault now held later) w =
      if on.worker then (process_one (new cfg env).queue ctx fault now held later w).1 else w
  turn (of_ticker env now) w =
      if on.ticker
      then (ReportsService.reconcile_pending (new cfg env).reports_service now w).1
      else w

  unfoldable pub turns : List Turn → Program → Program
  unfolding turn
  turns [] w = w
  turns (t ∷ ts) w = turns ts (turn t w)

  abbrev pub env_of : Turn → Environment
  env_of (of_worker env ctx fault now held later) = env
  env_of (of_ticker env now) = env

  turn-Reach :
      (t : Turn) {w : Program} (x : Program)
      → IsAllowed (env_of t)
      → Reach cfg w x
      → Reach cfg w (turn t x)
  unfolding turn
  turn-Reach (of_worker env ctx fault now held later) x allowed r = elim (Bool-cases on.worker) [
    | inl runs ↦ rw runs (onward r (worked env allowed ctx fault now held later))
    | inr off ↦ rw off r
  ]
  turn-Reach (of_ticker env now) x allowed r = elim (Bool-cases on.ticker) [
    | inl runs ↦ rw runs (onward r (called env allowed (reconcile_pending now) tt))
    | inr off ↦ rw off r
  ]

  -- Whatever the goroutines do is a run of the program, to which its invariants apply.
  turns-Reach :
      (ts : List Turn) {w : Program} (x : Program)
      → All (λ t. IsAllowed (env_of t)) ts
      → Reach cfg w x
      → Reach cfg w (turns ts x)
  unfolding turns
  turns-Reach [] x allowed r = r
  turns-Reach (t ∷ ts) x (a, allowed) r = turns-Reach ts (turn t x) allowed (turn-Reach t x a r)

  -- Whatever the goroutines do keeps the program safe.
  turns-IsSafe :
      (ts : List Turn) (w : Program)
      → All (λ t. IsAllowed (env_of t)) ts
      → IsSafe w
      → IsSafe (turns ts w)
  turns-IsSafe ts w allowed safe = (program-IsSafe cfg (turns-Reach ts w allowed start) safe).0
