-- ===== src/Jobs/Budget.antt =====
-- How often jobs are run in all.

use base_template_server_go.Jobs.Pick.{Best, pick-Best}
use base_template_server_go.Authn.{AttemptInfo, Context}
use base_template_server_go.Op.{Result, err, ok}
use base_template_server_go.Errors.{GoError, text}
use base_template_server_go.Base.{
  All, Bool, Bool-cases, List, Option, String, Time, [], ap, arith, false, inl, inr, nat_eq,
  nat_eq_refl, none, refl, some, string_eq, subst, ℕ, ◌+◌, ◌-◌, ◌<◌, ◌==◌, ◌∙◌, ◌∷◌, ◌≡◌, ◌≢◌,
}
use mathlib.Core.List.{Memᴰ}
use base_template_server_go.Jobs.{
  Faults, Handler, Job, World, claim, locked, record_outcome, rescheduled, run_job, succeeded,
  unhandled, unless, update,
}
use base_template_server_go.Jobs.Attempts.{All-mem, Keyed, Sound, claim-eq-ok, due_in_budget}

-- The attempts that the jobs have left.
abbrev pub left : List Job → ℕ
left [] = 0
left (j ∷ js) = (j.max_attempts - j.attempts) + left js

left-update :
    (id : ℕ) (change : Job → Job) (js : List Job)
    → ((j : Job) → ((change j).attempts ≡ j.attempts) × ((change j).max_attempts ≡ j.max_attempts))
    → left (update id change js) ≡ left js
unfolding update
left-update id change [] same = refl
left-update id change (j ∷ js) same = elim (Bool-cases (j.id == id)) [
  | inl hit ↦ rw hit (omega (arith, (same j).0, (same j).1, left-update id change js same))
  | inr miss ↦ rw miss (omega (arith, left-update id change js same))
]

untouched :
    (id : ℕ) (change : Job → Job) (js : List Job)
    → All (λ k. k.id ≢ id) js
    → update id change js ≡ js
unfolding update
untouched id change [] h = refl
untouched id change (j ∷ js) (d, h) = elim (Bool-cases (j.id == id)) [
  | inl hit ↦ absurd (d ((nat_eq.equal_iff j.id id).0 hit))
  | inr miss ↦ rw miss (ap (λ l. j ∷ l) (untouched id change js h))
]

left-locked :
    (now : Time) (j : Job) (js : List Job)
    → Keyed js
    → Memᴰ j js
    → j.attempts < j.max_attempts
    → left (update j.id (locked now) js) + 1 ≡ left js
unfolding update locked
left-locked now j [] k m due = elim m [ ]
left-locked now j (x ∷ xs) (d, k) (Memᴰ.head e) due =
    rw (← e, nat_eq_refl j.id, untouched j.id (locked now) xs (rw (← e) at d)) (omega arith)
left-locked now j (x ∷ xs) (d, k) (Memᴰ.tail m) due =
    let ne : j.id ≢ x.id = All-mem (λ q. q.id ≢ x.id) xs d m in
    let other : (x.id == j.id) ≡ false = ground (arith, nat_eq.equal_iff x.id j.id, ne) in
    rw other (omega (arith, left-locked now j xs k m due))

pub claim_spends :
    {R : Type 0} (fault : Faults) (now : Time) (held : ℕ → Bool) (w : World R) (j : Job)
    → Sound w.jobs
    → (claim fault now held w).0 ≡ ok j
    → left (claim fault now held w).1.jobs + 1 ≡ left w.jobs
claim_spends fault now held w j (keyed, budget) h =
    let (e, after) = claim-eq-ok fault now held w h in
    let (m, due, _) = subst (Best now held w.jobs) e (pick-Best now held w.jobs) in
    rw after (left-locked now j w.jobs keyed m (due_in_budget now held j due))

-- A handler that leaves the queue's table alone: it enqueues nothing.
abbrev pub Aside : {R : Type 0} → Handler R → Type 0
Aside {R} f = (c : Context) (payload : String) (w : World R) → (f c payload w).1.jobs ≡ w.jobs

abbrev SameLeft : {R : Type 0} → World R → World R → Type 0
SameLeft w u = left u.jobs ≡ left w.jobs

unless-left :
    {R : Type 0} (fault : Option GoError) (a b w : World R)
    → SameLeft w a
    → SameLeft w b
    → SameLeft w (unless fault a b)
unless-left none a b w h k = h
unless-left (some e) a b w h k = k

record_outcome-left :
    {R : Type 0} (fault : Faults) (j : Job) (later : Time) (r : Result (Unit {0})) (w : World R)
    → SameLeft w (record_outcome fault j later r w).1
unfolding record_outcome succeeded rescheduled
record_outcome-left fault j later (ok u) w =
    unless-left fault.finish _ _ w
      (left-update j.id (succeeded later) w.jobs (λ k. unfold succeeded in (refl, refl))) refl
record_outcome-left fault j later (err e) w =
    unless-left fault.finish _ _ w
      (left-update j.id (rescheduled later (text e)) w.jobs
        (λ k. unfold rescheduled in (refl, refl)))
      refl

pub run_job-left :
    {R : Type 0} (ctx : Context) (fault : Faults) (j : Job) (later : Time) (h : Option (Handler R))
    (w : World R)
    → ((f : Handler R) → h ≡ some f → Aside f)
    → SameLeft w (run_job ctx fault j later h w).1
unfolding run_job unhandled
run_job-left ctx fault j later none w hs =
    unless-left fault.finish _ _ w
      (left-update j.id (unhandled later) w.jobs (λ k. unfold unhandled in (refl, refl))) refl
run_job-left ctx fault j later (some f) w hs =
    let info : AttemptInfo = record { attempt = j.attempts + 1; max_attempts = j.max_attempts } in
    let c = record ctx { attempt_info = some info } in
    record_outcome-left fault j later (f c j.payload w).0 (f c j.payload w).1
    ∙ ap left (hs f refl c j.payload w)
