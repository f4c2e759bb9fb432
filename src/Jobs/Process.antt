-- ===== src/Jobs/Process.antt =====
-- What processOne keeps, whatever the handlers do with the rest and whichever statement fails.
use base_template_server_go.Base.{
  Bool, List, Option, Option-cases, String, Time, inl, inr, none, refl, some, ℕ, ◌+◌, ◌≡◌,
}
use base_template_server_go.Errors.{GoError, text}
use base_template_server_go.Op.{Result, err, ok}
use base_template_server_go.Authn.{AttemptInfo, Context}
use base_template_server_go.Moves.{Moves, Moves-attempt, Moves-fail, Order, move-attempt}
use base_template_server_go.Jobs.{
  Faults, Handler, Job, Queue, World, claim, handler_of, pick, process_one, record_outcome,
  rescheduled, run_job, succeeded, unhandled, unless, update,
}
use base_template_server_go.Jobs.Attempts.{
  All-map, InBudget, KeepsSound, Sound, claim-eq-err, claim-exclusive, update-All, update-Keyed,
}

pub KeepsSound-Order : {R : Type 0} → Order {S = World R} KeepsSound
KeepsSound-Order = record { reflexive = λ w h. h; transitive = λ w u v f g h. g (f h) }

-- An update that keeps ids and counters.
Sound-update :
    (id : ℕ) (change : Job → Job) (js : List Job)
    → ((j : Job)
        → ((change j).id ≡ j.id)
          × ((change j).attempts ≡ j.attempts)
          × ((change j).max_attempts ≡ j.max_attempts))
    → Sound js
    → Sound (update id change js)
Sound-update id change js same (keyed, budget) = (
  update-Keyed id change (λ j. (same j).0) js keyed,
  update-All id change (λ j. (same j).0) InBudget js
      (All-map _ _ js (λ j b i. rw ((same j).1, (same j).2) b) budget)
      (All-map _ _ js (λ j b i. b) budget),
)

unless-Sound :
    {R : Type 0} (fault : Option GoError) (a b : World R)
    → Sound a.jobs
    → Sound b.jobs
    → Sound (unless fault a b).jobs
unless-Sound none a b h k = h
unless-Sound (some e) a b h k = k

record_outcome-Moves :
    {R : Type 0} (fault : Faults) (j : Job) (later : Time) (r : Result (Unit {0}))
    → Moves {S = World R} KeepsSound (record_outcome fault j later r)
unfolding record_outcome
record_outcome-Moves fault j later (ok u) = record {
  at = λ w h.
      unless-Sound fault.finish _ _
        (Sound-update j.id (succeeded later) w.jobs (λ k. (refl, refl, refl)) h) h;
}
record_outcome-Moves fault j later (err e) = record {
  at = λ w h.
      unless-Sound fault.finish _ _
        (Sound-update j.id (rescheduled later (text e)) w.jobs (λ k. (refl, refl, refl)) h) h;
}

run_job-Moves :
    {R : Type 0} (ctx : Context) (fault : Faults) (j : Job) (later : Time) (h : Option (Handler R))
    → ((f : Handler R)
        → h ≡ some f
        → (c : Context) (payload : String) → Moves KeepsSound (f c payload))
    → Moves KeepsSound (run_job ctx fault j later h)
unfolding run_job
run_job-Moves ctx fault j later none hs = record {
  at = λ w h.
      unless-Sound fault.finish _ _
        (Sound-update j.id (unhandled later) w.jobs (λ k. (refl, refl, refl)) h) h;
}
run_job-Moves ctx fault j later (some f) hs = record {
  at = λ w h.
      let info : AttemptInfo = record { attempt = j.attempts + 1; max_attempts = j.max_attempts } in
      let (r, u) = f (record ctx { attempt_info = some info }) j.payload w in
      (record_outcome-Moves fault j later r).at u
        ((hs f refl (record ctx { attempt_info = some info }) j.payload).at w h);
}

claim-Sound :
    {R : Type 0} (fault : Faults) (now : Time) (held : ℕ → Bool) (w : World R)
    → Sound w.jobs
    → Sound (claim fault now held w).1.jobs
claim-Sound {R} fault now held w h = go (claim fault now held w).0 refl
  where
    go : (r : Result Job) → (claim fault now held w).0 ≡ r → Sound (claim fault now held w).1.jobs
    go (ok j) e = (claim-exclusive fault now held w j h e).0
    go (err x) e = rw (claim-eq-err fault now held w e) h

-- No job is ever attempted more often than its `max_attempts`, and ids stay unique: processOne
-- keeps both, on every path, if each registered handler does.
pub process_one-Sound :
    {R : Type 0} (q : Queue R) (ctx : Context) (fault : Faults) (now : Time) (held : ℕ → Bool)
    (later : Time) (w : World R)
    → ((name : String) (f : Handler R)
        → handler_of name q.handlers ≡ some f
        → (c : Context) (payload : String) → Moves KeepsSound (f c payload))
    → Sound w.jobs
    → Sound (process_one q ctx fault now held later w).1.jobs
unfolding process_one
process_one-Sound q ctx fault now held later w hs h =
    move-attempt KeepsSound-Order (claim fault now held) _ _ w (claim-Sound fault now held w)
      (λ e. Moves-fail KeepsSound-Order e)
      (λ j. run_job-Moves ctx fault j later (handler_of j.type q.handlers) (λ f e. hs j.type f e)) h

-- processOne moves by a relation that holds between worlds that differ only in the queue's own data,
-- if the handlers move by it.
module _ {R : Type 0} {Q : World R → World R → Type 0} (o : Order Q)
    (quiet : (w : World R) (js : List Job) (ps : List (String × String))
      → Q w (record w { jobs = js; processed = ps })) where
  outcome_quiet :
      (fault : Faults) (j : Job) (later : Time) (r : Result (Unit {0}))
      → Moves Q (record_outcome fault j later r)
  unfolding record_outcome
  outcome_quiet fault j later (ok u) = record {
    at = λ w. elim (Option-cases fault.finish) [
      | inl fine ↦ rw fine (quiet w _ _)
      | inr (e, lost) ↦ rw lost (quiet w _ _)
    ];
  }
  outcome_quiet fault j later (err x) = record {
    at = λ w. elim (Option-cases fault.finish) [
      | inl fine ↦ rw fine (quiet w _ _)
      | inr (e, lost) ↦ rw lost (quiet w _ _)
    ];
  }

  run_quiet :
      (ctx : Context) (fault : Faults) (j : Job) (later : Time) (h : Option (Handler R))
      → ((f : Handler R) → h ≡ some f → (c : Context) (payload : String) → Moves Q (f c payload))
      → Moves Q (run_job ctx fault j later h)
  unfolding run_job
  run_quiet ctx fault j later none hs = record {
    at = λ w. elim (Option-cases fault.finish) [
      | inl fine ↦ rw fine (quiet w _ _)
      | inr (e, lost) ↦ rw lost (quiet w _ _)
    ];
  }
  run_quiet ctx fault j later (some f) hs = record {
    at = λ w.
        let info : AttemptInfo = record {
          attempt = j.attempts + 1;
          max_attempts = j.max_attempts;
        } in
        let (r, u) = f (record ctx { attempt_info = some info }) j.payload w in
        o.transitive w u _ ((hs f refl (record ctx { attempt_info = some info }) j.payload).at w)
          ((outcome_quiet fault j later r).at u);
  }

  claim_quiet : (fault : Faults) (now : Time) (held : ℕ → Bool) → Moves Q (claim fault now held)
  unfolding claim
  claim_quiet fault now held = record {
    at = λ w.
        let stays = o.reflexive w in
        elim (Option-cases fault.begin) [
          | inr (e, b) ↦ rw b stays
          | inl b ↦ elim (Option-cases fault.select_job) [
            | inr (e, s) ↦ rw (b, s) stays
            | inl s ↦ elim (Option-cases (pick now held w.jobs)) [
              | inl p ↦ rw (b, s, p) stays
              | inr (j, p) ↦ elim (Option-cases fault.lock) [
                | inr (e, l) ↦ rw (b, s, p, l) stays
                | inl l ↦ elim (Option-cases fault.commit) [
                  | inr (e, c) ↦ rw (b, s, p, l, c) stays
                  | inl c ↦ rw (b, s, p, l, c) (quiet w _ w.processed)
                ]
              ]
            ]
          ]
        ];
  }

  pub process_one-Moves :
      (q : Queue R) (ctx : Context) (fault : Faults) (now : Time) (held : ℕ → Bool) (later : Time)
      → ((name : String) (f : Handler R)
          → handler_of name q.handlers ≡ some f
          → (c : Context) (payload : String) → Moves Q (f c payload))
      → Moves Q (process_one q ctx fault now held later)
  unfolding process_one
  process_one-Moves q ctx fault now held later hs =
      Moves-attempt o (claim fault now held) _ _ (claim_quiet fault now held) (λ e. Moves-fail o e)
        (λ j. run_quiet ctx fault j later (handler_of j.type q.handlers) (λ f e. hs j.type f e))
