-- ===== src/Op.antt =====
-- Go functions that return `(T, error)`: a `Result`, or an operation on a state that returns one.
-- An operation gives the state back beside an error too: what was written stays written.
use base_template_server_go.Base.{Bool, ap, false, inl, inr, refl, true, ◌≡◌, ◌⊎◌}
use base_template_server_go.Errors.{GoError}

pub data Result {ℓ} (A : Type ℓ) : Type ℓ where
  ok : A → Result A
  err : GoError → Result A

pub Result-cases :
    {A : Type 0} (r : Result A) → ((a : A) × (r ≡ ok a)) ⊎ ((e : GoError) × (r ≡ err e))
Result-cases (ok a) = inl (a, refl)
Result-cases (err e) = inr (e, refl)

abbrev pub is_ok {ℓ} : {A : Type ℓ} → Result A → Bool
is_ok (ok a) = true
is_ok (err e) = false

abbrev pub Op {ℓ} : Type ℓ → Type ℓ → Type ℓ
Op S A = S → Result A × S

-- if err != nil { return f(err) }
abbrev pub rename {ℓ} : {A : Type ℓ} → (GoError → GoError) → Result A → Result A
rename f (ok a) = ok a
rename f (err e) = err (f e)

module _ {ℓ} {S A : Type ℓ} where
  abbrev pub pure : A → Op S A
  pure a s = (ok a, s)

  abbrev pub fail : GoError → Op S A
  fail e s = (err e, s)

  abbrev pub lift : Result A → Op S A
  lift r s = (r, s)

  abbrev pub map_err : (GoError → GoError) → Op S A → Op S A
  map_err f m s = let (r, s') = m s in (rename f r, s')

module _ {ℓ} {S A B : Type ℓ} where
  abbrev pub settle : Result A → (GoError → Op S B) → (A → Op S B) → Op S B
  settle (ok a) h k s = k a s
  settle (err e) h k s = h e s

  -- a, err := m(); if err != nil { h(err) } else { k(a) }
  abbrev pub attempt : Op S A → (GoError → Op S B) → (A → Op S B) → Op S B
  attempt m h k s = let (r, s') = m s in settle r h k s'

  infixl 10 ◌>>=◌
  abbrev pub ◌>>=◌ : Op S A → (A → Op S B) → Op S B
  ◌>>=◌ m k = attempt m fail k

  infixl 10 ◌>>◌
  abbrev pub ◌>>◌ : Op S A → Op S B → Op S B
  m >> n = m >>= λ _. n

-- _, _ = m(): the result is dropped.
abbrev pub ignore {ℓ} : {S A : Type ℓ} → Op S A → Op S (Unit {ℓ})
ignore m = attempt m (λ _. pure tt) (λ _. pure tt)

-- if !test { return err }
abbrev pub guard : Bool → GoError → Result (Unit {0})
guard true e = ok tt
guard false e = err e

module _ {ℓ} {S A B : Type ℓ} (m : Op S A) (h : GoError → Op S B) (k : A → Op S B) (s : S) where
  pub attempt-ok : (a : A) → (m s).0 ≡ ok a → attempt m h k s ≡ k a (m s).1
  attempt-ok a e = ap (λ r. settle r h k (m s).1) e

  pub attempt-err : (x : GoError) → (m s).0 ≡ err x → attempt m h k s ≡ h x (m s).1
  attempt-err x e = ap (λ r. settle r h k (m s).1) e

-- An operation on a part of a larger state.
abbrev pub zoom {ℓ} : {S T A : Type ℓ} → (S → T) → (T → S → S) → Op T A → Op S A
zoom get put m s = let (r, t) = m (get s) in (r, put t s)

-- A step of a chain that returned.
pub bind-eq-ok :
    {S A B : Type 0} (m : Op S A) (k : A → Op S B) (x : S) {b : B}
    → ((m >>= k) x).0 ≡ ok b
    → (a : A) × ((m x).0 ≡ ok a) × ((k a (m x).1).0 ≡ ok b)
bind-eq-ok {A} {B} m k x {b} h = go (m x).0 refl h
  where
    go :
        (r : Result A)
        → (m x).0 ≡ r
        → (settle r fail k (m x).1).0 ≡ ok b
        → (a : A) × ((m x).0 ≡ ok a) × ((k a (m x).1).0 ≡ ok b)
    go (ok a) e g = (a, e, g)
    go (err z) e g = absurd (cc g)

pub rename-eq-ok :
    {A : Type 0} (f : GoError → GoError) (r : Result A) {a : A} → rename f r ≡ ok a → r ≡ ok a
rename-eq-ok f (ok a) h = h
rename-eq-ok f (err e) h = cc
