-- ===== src/Jobs/Pick.antt =====
-- Which job the queue takes.
use base_template_server_go.Base.{
  All, Bool, Bool-cases, List, Option, Time, [], arith, false, inl, inr, ltb, none, refl, some,
  subst, true, ℕ, ◌∷◌, ◌≡◌, ◌≤◌,
}
use base_template_server_go.Jobs.{Job, earlier, is_due, pick}
use mathlib.Core.List.{Memᴰ}

abbrev NotBefore : Time → (ℕ → Bool) → ℕ → Job → Type 0
NotBefore now held t k = is_due now held k ≡ true → t ≤ k.run_at

-- The job that a worker should take: one that is due and runs no later than any other that is.
abbrev pub Best : Time → (ℕ → Bool) → List Job → Option Job → Type 0
Best now held js none = All (λ k. is_due now held k ≡ false) js
Best now held js (some j) =
    Memᴰ j js × (is_due now held j ≡ true) × All (NotBefore now held j.run_at) js

none_before :
    (now : Time) (held : ℕ → Bool) (t : ℕ) (js : List Job)
    → All (λ k. is_due now held k ≡ false) js
    → All (NotBefore now held t) js
none_before now held t [] h = tt
none_before now held t (k ∷ ks) (n, h) = ((λ d. absurd (cc (n, d))), none_before now held t ks h)

later_before :
    (now : Time) (held : ℕ → Bool) (t u : ℕ) (js : List Job)
    → u ≤ t
    → All (NotBefore now held t) js
    → All (NotBefore now held u) js
later_before now held t u [] le h = tt
later_before now held t u (k ∷ ks) le (n, h) =
    ((λ d. omega (arith, n d)), later_before now held t u ks le h)

due_first :
    (now : Time) (held : ℕ → Bool) (j : Job) (js : List Job) (rest : Option Job)
    → is_due now held j ≡ true
    → Best now held js rest
    → Best now held (j ∷ js) (some (earlier rest j))
due_first now held j js none d b =
    (Memᴰ.head refl, d, ((λ _. omega arith), none_before now held j.run_at js b))
due_first now held j js (some k) d (m, due, le) = elim (Bool-cases (ltb k.run_at j.run_at)) [
  | inl sooner ↦
      let e : k ≡ earlier (some k) j = rw sooner refl in
      subst (λ x. Best now held (j ∷ js) (some x)) e (Memᴰ.tail m, due, ((λ _. ground arith), le))
  | inr later ↦
      let e : j ≡ earlier (some k) j = rw later refl in
      subst (λ x. Best now held (j ∷ js) (some x)) e
        (
          Memᴰ.head refl,
          d,
          ((λ _. omega arith), later_before now held k.run_at j.run_at js (ground arith) le),
        )
]

not_due_first :
    (now : Time) (held : ℕ → Bool) (j : Job) (js : List Job) (rest : Option Job)
    → is_due now held j ≡ false
    → Best now held js rest
    → Best now held (j ∷ js) rest
not_due_first now held j js none d b = (d, b)
not_due_first now held j js (some k) d (m, due, le) =
    (Memᴰ.tail m, due, ((λ e. absurd (cc (d, e))), le))

-- The statement that picks a job finds one that is due whenever there is one, and then takes one
-- whose `run_at` is the smallest of those that are due.
pub pick-Best : (now : Time) (held : ℕ → Bool) (js : List Job) → Best now held js (pick now held js)
unfolding pick
pick-Best now held [] = tt
pick-Best now held (j ∷ js) = elim (Bool-cases (is_due now held j)) [
  | inl d ↦ rw d (due_first now held j js (pick now held js) d (pick-Best now held js))
  | inr d ↦ rw d (not_due_first now held j js (pick now held js) d (pick-Best now held js))
]
