-- ===== src/Jobs/Attempts.antt =====
-- The budget of attempts, and the lock of a taken job.
use base_template_server_go.Base.{
  All, Bool, Bool-cases, List, Time, [], ap, arith, false, inl, inr, minute, nat_eq, refl, some,
  string_eq, subst, sym, true, ℕ, ◌*◌, ◌+◌, ◌<◌, ◌==◌, ◌∙◌, ◌∷◌, ◌≡◌, ◌≢◌, ◌≤◌,
}
use mathlib.Core.List.{Memᴰ}
use base_template_server_go.Op.{err, ok}
use base_template_server_go.Errors.{GoError}
use base_template_server_go.Jobs.Pick.{Best, pick-Best}
use base_template_server_go.Jobs.{Faults, Job, World, claim, is_due, locked, pick, update}

abbrev pub InBudget : Job → Type 0
InBudget j = j.attempts ≤ j.max_attempts

-- The primary key: no two rows have one id.
abbrev pub Keyed : List Job → Type 0
Keyed [] = Unit
Keyed (j ∷ js) = All (λ k. k.id ≢ j.id) js × Keyed js

abbrev pub Sound : List Job → Type 0
Sound js = Keyed js × All InBudget js

abbrev pub KeepsSound : {R : Type 0} → World R → World R → Type 0
KeepsSound w u = Sound w.jobs → Sound u.jobs

module _ (id : ℕ) (change : Job → Job) (same_id : (j : Job) → (change j).id ≡ j.id) where
  update-ne :
      (n : ℕ) (js : List Job) → All (λ k. k.id ≢ n) js → All (λ k. k.id ≢ n) (update id change js)
  unfolding update
  update-ne n [] h = tt
  update-ne n (j ∷ js) (d, h) = elim (Bool-cases (j.id == id)) [
    | inl same ↦ rw same ((λ e. d (sym (same_id j) ∙ e)), update-ne n js h)
    | inr other ↦ rw other (d, update-ne n js h)
  ]

  pub update-Keyed : (js : List Job) → Keyed js → Keyed (update id change js)
  unfolding update
  update-Keyed [] h = tt
  update-Keyed (j ∷ js) (d, h) = elim (Bool-cases (j.id == id)) [
    | inl same ↦ rw (same, same_id) (update-ne j.id js d, update-Keyed js h)
    | inr other ↦ rw other (update-ne j.id js d, update-Keyed js h)
  ]

  -- A property that the change brings about in the rows that it hits, and that the others have.
  pub update-All :
      (P : Job → Type 0) (js : List Job)
      → All (λ k. k.id ≡ id → P (change k)) js
      → All (λ k. k.id ≢ id → P k) js
      → All P (update id change js)
  unfolding update
  update-All P [] f h = tt
  update-All P (j ∷ js) (f, fs) (h, hs) = elim (Bool-cases (j.id == id)) [
    | inl same ↦ rw same (f ((nat_eq.equal_iff j.id id).0 same), update-All P js fs hs)
    | inr other ↦
        rw other
          (h (λ e. absurd (cc (other, (nat_eq.equal_iff j.id id).1 e))), update-All P js fs hs)
  ]

pub All-map : (P Q : Job → Type 0) (js : List Job) → ((j : Job) → P j → Q j) → All P js → All Q js
All-map P Q [] f h = tt
All-map P Q (j ∷ js) f (p, h) = (f j p, All-map P Q js f h)

pub All-mem : (P : Job → Type 0) (js : List Job) → All P js → {j : Job} → Memᴰ j js → P j
All-mem P [] h m = elim m [ ]
All-mem P (j ∷ js) (p, h) (Memᴰ.head e) = subst P (sym e) p
All-mem P (j ∷ js) (p, h) (Memᴰ.tail m) = All-mem P js h m

-- What holds of a row holds of every row with its id.
pub only :
    (P : Job → Type 0) (j : Job) (js : List Job)
    → Keyed js
    → Memᴰ j js
    → P j
    → All (λ k. k.id ≡ j.id → P k) js
only P j [] h m p = elim m [ ]
only P j (k ∷ ks) (d, h) (Memᴰ.head e) p =
    ((λ _. subst P e p), All-map _ _ ks (λ m n i. absurd (n (i ∙ ap (λ (x : Job). x.id) e))) d)
only P j (k ∷ ks) (d, h) (Memᴰ.tail m) p =
    ((λ i. absurd (All-mem _ ks d m (sym i))), only P j ks h m p)

-- A job that was taken at `now` is not due again before its lock of five minutes has passed.
locked_not_due :
    (now t : Time) (held : ℕ → Bool) (j : Job)
    → t ≤ now + 5 * minute
    → is_due t held (locked now j) ≡ false
unfolding is_due locked
locked_not_due now t held j le = ground arith

pub due_in_budget :
    (now : Time) (held : ℕ → Bool) (j : Job)
    → is_due now held j ≡ true
    → j.attempts < j.max_attempts
unfolding is_due
due_in_budget now held j d = ground arith

locked-InBudget : (now : Time) (j : Job) → j.attempts < j.max_attempts → InBudget (locked now j)
unfolding locked
locked-InBudget now j h = omega arith

-- What a claim that returned has done.
pub claim-eq-ok :
    {R : Type 0} (fault : Faults) (now : Time) (held : ℕ → Bool) (w : World R) {j : Job}
    → (claim fault now held w).0 ≡ ok j
    → (pick now held w.jobs ≡ some j)
      × ((claim fault now held w).1.jobs ≡ update j.id (locked now) w.jobs)
unfolding claim
claim-eq-ok fault now held w h = ground (arith, h)

pub claim-eq-err :
    {R : Type 0} (fault : Faults) (now : Time) (held : ℕ → Bool) (w : World R) {e : GoError}
    → (claim fault now held w).0 ≡ err e
    → (claim fault now held w).1 ≡ w
unfolding claim
claim-eq-err fault now held w h = ground (arith, h)

pub locked_id : (now : Time) (j : Job) → (locked now j).id ≡ j.id
unfolding locked
locked_id now j = refl

pub Sound-locked :
    (now : Time) (held : ℕ → Bool) (js : List Job) (j : Job)
    → Sound js
    → pick now held js ≡ some j
    → Sound (update j.id (locked now) js)
Sound-locked now held js j (keyed, budget) e =
    let (m, due, _) = subst (Best now held js) e (pick-Best now held js) in
    (
      update-Keyed j.id (locked now) (locked_id now) js keyed,
      update-All j.id (locked now) (locked_id now) InBudget js
          (All-map _ _ js (λ k f i. locked-InBudget now k (f i))
            (only (λ k. k.attempts < k.max_attempts) j js keyed m (due_in_budget now held j due)))
          (All-map _ _ js (λ k b _. b) budget),
    )

locked_effect :
    (now : Time) (j k : Job)
    → k ≡ j
    → ((locked now k).attempts ≡ j.attempts + 1)
      × ((t : Time) (held : ℕ → Bool) → t ≤ now + 5 * minute → is_due t held (locked now k) ≡ false)
unfolding locked
locked_effect now j k e = (
  ap (λ (x : Job). x.attempts + 1) e,
  λ t held le. unfold locked in locked_not_due now t held k le,
)

-- Where budgets are kept and ids are unique, a claim that returns `j` keeps both, counts one
-- attempt for the row of `j`, and that row is not due to any worker for the next five minutes.
pub claim-exclusive :
    {R : Type 0} (fault : Faults) (now : Time) (held : ℕ → Bool) (w : World R) (j : Job)
    → Sound w.jobs
    → (claim fault now held w).0 ≡ ok j
    → Sound (claim fault now held w).1.jobs
      × All
          (λ k.
            k.id ≡ j.id
            → (k.attempts ≡ j.attempts + 1)
              × ((t : Time) (other : ℕ → Bool) → t ≤ now + 5 * minute → is_due t other k ≡ false))
          (claim fault now held w).1.jobs
claim-exclusive fault now held w j (keyed, budget) h =
    let (e, after) = claim-eq-ok fault now held w h in
    let (m, due, _) = subst (Best now held w.jobs) e (pick-Best now held w.jobs) in
    rw after (
      Sound-locked now held w.jobs j (keyed, budget) e,
      update-All j.id (locked now) (locked_id now) _ w.jobs
          (All-map _ _ w.jobs (λ k f i _. locked_effect now j k (f i))
            (only (λ k. k ≡ j) j w.jobs keyed m refl))
          (All-map InBudget _ w.jobs (λ k _ n i. absurd (n i)) budget),
    )
