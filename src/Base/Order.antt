-- ===== src/Base/Order.antt =====
-- Lists in the order of a key: what `ORDER BY` makes of the rows of a query.
use Prim.Native.Nat.{ℕ}
use mathlib.Core.Path.{◌≡◌}
use mathlib.Core.Logic.{inl, inr}
use mathlib.Core.Bool.{Bool, true, false}
use mathlib.Core.List.{List, [], ◌∷◌, Perm}
use mathlib.Core.List.Perm
use native.Mathlib.Omega.{arith}
use base_template_server_go.Base.Tests.{if◌then◌else◌, Bool-cases, leb}
use base_template_server_go.Base.Lists.{All}

module _ {A : Type 0} (first : A → A → Bool) where
  -- Rows that tie keep the order in which they were found.
  pub insert_by : A → List A → List A
  insert_by a [] = a ∷ []
  insert_by a (x ∷ xs) = let rest = insert_by a xs in if first a x then a ∷ x ∷ xs else x ∷ rest

  unfoldable pub order_by : List A → List A
  unfolding insert_by
  order_by [] = []
  order_by (x ∷ xs) = insert_by x (order_by xs)

  insert_by-Perm : (a : A) (xs : List A) → Perm (insert_by a xs) (a ∷ xs)
  unfolding insert_by
  insert_by-Perm a [] = Perm.rfl
  insert_by-Perm a (x ∷ xs) = elim (Bool-cases (first a x)) [
    | inl yes' ↦ rw yes' Perm.rfl
    | inr no' ↦ rw no' (Perm.trans (Perm.cons x (insert_by-Perm a xs)) (Perm.swap a x xs))
  ]

  pub order_by-Perm : (xs : List A) → Perm (order_by xs) xs
  unfolding order_by
  order_by-Perm [] = Perm.rfl
  order_by-Perm (x ∷ xs) =
      Perm.trans (insert_by-Perm x (order_by xs)) (Perm.cons x (order_by-Perm xs))

  insert_by-All : (P : A → Type 0) (a : A) (xs : List A) → P a → All P xs → All P (insert_by a xs)
  unfolding insert_by
  insert_by-All P a [] p h = (p, tt)
  insert_by-All P a (x ∷ xs) p (q, h) = elim (Bool-cases (first a x)) [
    | inl yes' ↦ rw yes' (p, (q, h))
    | inr no' ↦ rw no' (q, insert_by-All P a xs p h)
  ]

  pub order_by-All : (P : A → Type 0) (xs : List A) → All P xs → All P (order_by xs)
  unfolding order_by
  order_by-All P [] h = tt
  order_by-All P (x ∷ xs) (p, h) = insert_by-All P x (order_by xs) p (order_by-All P xs h)

  -- No row stands behind one that it should precede.
  abbrev pub IsOrdered : List A → Type 0
  IsOrdered [] = Unit
  IsOrdered (x ∷ xs) = All (λ y. first x y ≡ true) xs × IsOrdered xs

  module _ (total : (a b : A) → first a b ≡ false → first b a ≡ true)
      (chain : (a b c : A) → first a b ≡ true → first b c ≡ true → first a c ≡ true) where
    below :
        (a x : A) (xs : List A)
        → first a x ≡ true
        → All (λ y. first x y ≡ true) xs
        → All (λ y. first a y ≡ true) xs
    below a x [] e h = tt
    below a x (y ∷ ys) e (p, h) = (chain a x y e p, below a x ys e h)

    insert_by-IsOrdered : (a : A) (xs : List A) → IsOrdered xs → IsOrdered (insert_by a xs)
    unfolding insert_by
    insert_by-IsOrdered a [] h = (tt, tt)
    insert_by-IsOrdered a (x ∷ xs) (h, hs) = elim (Bool-cases (first a x)) [
      | inl yes' ↦ rw yes' ((yes', below a x xs yes' h), (h, hs))
      | inr no' ↦ rw no' (
        insert_by-All (λ y. first x y ≡ true) a xs (total a x no') h,
        insert_by-IsOrdered a xs hs,
      )
    ]

    pub order_by-IsOrdered : (xs : List A) → IsOrdered (order_by xs)
    unfolding order_by
    order_by-IsOrdered [] = tt
    order_by-IsOrdered (x ∷ xs) = insert_by-IsOrdered x (order_by xs) (order_by-IsOrdered xs)

module _ {A : Type 0} (key : A → ℕ) where
  abbrev pub ascending : A → A → Bool
  ascending a b = leb (key a) (key b)

  abbrev pub descending : A → A → Bool
  descending a b = leb (key b) (key a)

  pub ascending-IsOrdered : (xs : List A) → IsOrdered ascending (order_by ascending xs)
  ascending-IsOrdered =
      order_by-IsOrdered ascending (λ a b h. ground (arith, h)) (λ a b c h k. ground (arith, h, k))

  pub descending-IsOrdered : (xs : List A) → IsOrdered descending (order_by descending xs)
  descending-IsOrdered =
      order_by-IsOrdered descending (λ a b h. ground (arith, h)) (λ a b c h k. ground (arith, h, k))
