-- ===== src/Moves.antt =====
-- Two-state invariants of operations: what relates the state before an operation and the state
-- after it, whether it returned or failed. One rule for each way to build an operation.
use base_template_server_go.Base.{Bool, false, if◌then◌else◌, refl, true, ◌≡◌}
use base_template_server_go.Errors.{GoError}
use base_template_server_go.Op.{
  Op, Result, attempt, err, fail, guard, lift, map_err, ok, pure, settle, ◌>>=◌,
}

-- A reflexive and transitive relation between states.
pub record Order {S : Type 0} (R : S → S → Type 0) : Type 0 where
  pub reflexive : (s : S) → R s s
  pub transitive : (s t u : S) → R s t → R t u → R s u

pub record Moves {S A : Type 0} (R : S → S → Type 0) (m : Op S A) : Type 0 where
  pub at : (s : S) → R s (m s).1

module _ {S : Type 0} {R : S → S → Type 0} (o : Order R) where
  pub Moves-pure : {A : Type 0} (a : A) → Moves R (pure a)
  Moves-pure a = record { at = λ s. o.reflexive s }

  pub Moves-fail : {A : Type 0} (e : GoError) → Moves R (fail {A = A} e)
  Moves-fail e = record { at = λ s. o.reflexive s }

  pub Moves-lift : {A : Type 0} (r : Result A) → Moves R (lift r)
  Moves-lift r = record { at = λ s. o.reflexive s }

  pub Moves-settle :
      {A B : Type 0} (r : Result A) (h : GoError → Op S B) (k : A → Op S B)
      → ((e : GoError) → Moves R (h e))
      → ((a : A) → Moves R (k a))
      → Moves R (settle r h k)
  Moves-settle (ok a) h k mh mk = mk a
  Moves-settle (err e) h k mh mk = mh e

  pub Moves-attempt :
      {A B : Type 0} (m : Op S A) (h : GoError → Op S B) (k : A → Op S B)
      → Moves R m
      → ((e : GoError) → Moves R (h e))
      → ((a : A) → Moves R (k a))
      → Moves R (attempt m h k)
  Moves-attempt m h k mm mh mk = record {
    at = λ s. let (r, s') = m s in o.transitive s s' _ (mm.at s) ((Moves-settle r h k mh mk).at s');
  }

  -- From one given state, where the first operation is known to move.
  pub move-attempt :
      {A B : Type 0} (m : Op S A) (h : GoError → Op S B) (k : A → Op S B) (s : S)
      → R s (m s).1
      → ((e : GoError) → Moves R (h e))
      → ((a : A) → Moves R (k a))
      → R s (attempt m h k s).1
  move-attempt m h k s here mh mk =
      let (r, s') = m s in o.transitive s s' _ here ((Moves-settle r h k mh mk).at s')

  -- From one given state, where the rest may use that the check passed.
  pub move-lift :
      {A B : Type 0} (r : Result A) (k : A → Op S B) (s : S)
      → ((a : A) → r ≡ ok a → R s (k a s).1)
      → R s ((lift r >>= k) s).1
  move-lift (ok a) k s later = later a refl
  move-lift (err e) k s later = o.reflexive s

  pub Moves-if :
      {A : Type 0} (b : Bool) (m n : Op S A) → Moves R m → Moves R n → Moves R (if b then m else n)
  Moves-if true m n mm mn = mm
  Moves-if false m n mm mn = mn

pub Moves-map_err :
    {S A : Type 0} {R : S → S → Type 0} (f : GoError → GoError) (m : Op S A)
    → Moves R m
    → Moves R (map_err f m)
Moves-map_err f m mm = record { at = λ s. mm.at s }

pub ruleset moves_rules =
    (Moves-pure, Moves-fail, Moves-lift, Moves-attempt, Moves-if, Moves-map_err)

pub guard-eq-ok : (b : Bool) (e : GoError) {u : Unit {0}} → guard b e ≡ ok u → b ≡ true
guard-eq-ok true e h = refl
guard-eq-ok false e h = cc
