-- ===== src/Follows.antt =====
-- Simulation: an operation that another one follows step by step, seen through a view of its state
-- and as long as an invariant of the state holds. One rule for each way to build an operation.
use base_template_server_go.Base.{refl, ◌≡◌}
use base_template_server_go.Errors.{GoError}
use base_template_server_go.Op.{Op, Result, err, fail, lift, map_err, ok, pure, settle, ◌>>=◌}

module _ {S T : Type 0} (view : S → T) (P : S → Type 0) where
  -- `n` returns on the view what `m` returns, and ends in the view of where `m` ends.
  pub record Follows {A : Type 0} (m : Op S A) (n : Op T A) : Type 0 where
    pub at : (s : S) → P s → (n (view s) ≡ ((m s).0, view (m s).1)) × P (m s).1

  pub Follows-pure : {A : Type 0} (a : A) → Follows (pure a) (pure a)
  Follows-pure a = record { at = λ s p. (refl, p) }

  pub Follows-fail : {A : Type 0} (e : GoError) → Follows (fail {A = A} e) (fail e)
  Follows-fail e = record { at = λ s p. (refl, p) }

  pub Follows-lift : {A : Type 0} (r : Result A) → Follows (lift r) (lift r)
  Follows-lift r = record { at = λ s p. (refl, p) }

  pub Follows-map_err :
      {A : Type 0} (f : GoError → GoError) (m : Op S A) (n : Op T A)
      → Follows m n
      → Follows (map_err f m) (map_err f n)
  Follows-map_err f m n h = record { at = λ s p. let (e, q) = h.at s p in (rw e refl, q) }

  settled :
      {A B : Type 0} (r : Result A) (k : A → Op S B) (l : A → Op T B)
      → ((a : A) → Follows (k a) (l a))
      → Follows (settle r fail k) (settle r fail l)
  settled (ok a) k l h = h a
  settled (err e) k l h = Follows-fail e

  -- The same from one given state.
  pub record FollowsAt {A : Type 0} (m : Op S A) (n : Op T A) (s : S) : Type 0 where
    pub got : (n (view s) ≡ ((m s).0, view (m s).1)) × P (m s).1

  pub follow-lift :
      {A B : Type 0} (r : Result A) (k : A → Op S B) (l : A → Op T B) (s : S)
      → P s
      → ((a : A) → FollowsAt (k a) (l a) s)
      → FollowsAt (lift r >>= k) (lift r >>= l) s
  follow-lift (ok a) k l s p h = h a
  follow-lift (err e) k l s p h = record { got = (refl, p) }

  pub follow-map_err :
      {A : Type 0} (f : GoError → GoError) (m : Op S A) (n : Op T A) (s : S)
      → FollowsAt m n s
      → FollowsAt (map_err f m) (map_err f n) s
  follow-map_err f m n s h = let (e, q) = h.got in record { got = (rw e refl, q) }

  pub follow-bind :
      {A B : Type 0} (m : Op S A) (n : Op T A) (k : A → Op S B) (l : A → Op T B) (s : S)
      → FollowsAt m n s
      → ((a : A) → Follows (k a) (l a))
      → FollowsAt (m >>= k) (n >>= l) s
  follow-bind m n k l s h hs =
      let (e, q) = h.got in
      let (d, o) = (settled (m s).0 k l hs).at (m s).1 q in record { got = (rw e d, o) }

  pub follow : {A : Type 0} (m : Op S A) (n : Op T A) (s : S) → P s → Follows m n → FollowsAt m n s
  follow m n s p h = record { got = h.at s p }

  pub Follows-bind :
      {A B : Type 0} (m : Op S A) (n : Op T A) (k : A → Op S B) (l : A → Op T B)
      → Follows m n
      → ((a : A) → Follows (k a) (l a))
      → Follows (m >>= k) (n >>= l)
  Follows-bind m n k l h hs = record {
    at = λ s p. (follow-bind m n k l s (record { got = h.at s p }) hs).got;
  }

pub ruleset follows_rules =
    (Follows-pure, Follows-fail, Follows-lift, Follows-bind, Follows-map_err)
