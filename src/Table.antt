-- ===== src/Table.antt =====
-- Go maps as association lists: lookup, assignment and deletion.
use base_template_server_go.Base.{
  Comparable, List, Option, [], arith, if◌then◌else◌, nat_eq, none, refl, some, string_eq, ◌==◌,
  ◌∷◌, ◌≡◌,
}

module _ {K V : Type 0} ⦃e : Comparable K⦄ where
  unfoldable pub find : K → List (K × V) → Option V
  find k [] = none
  find k ((j, v) ∷ t) = if j == k then some v else find k t

  -- m[k] = v
  unfoldable pub assign : K → V → List (K × V) → List (K × V)
  assign k v [] = (k, v) ∷ []
  assign k v ((j, w) ∷ t) = if j == k then (j, v) ∷ t else (j, w) ∷ assign k v t

  -- delete(m, k)
  unfoldable pub remove : K → List (K × V) → List (K × V)
  remove k [] = []
  remove k ((j, w) ∷ t) = let rest = remove k t in if j == k then rest else (j, w) ∷ rest

  pub find-assign :
      (k : K) (v : V) (t : List (K × V)) (i : K)
      → find i (assign k v t) ≡ (if k == i then some v else find i t)
  unfolding find assign
  find-assign k v [] i = refl
  find-assign k v ((j, w) ∷ t) i =
      ground (arith, find-assign k v t i, e.equal_iff j k, e.equal_iff k i, e.equal_iff j i)

  pub find-remove :
      (k : K) (t : List (K × V)) (i : K) → find i (remove k t) ≡ (if k == i then none else find i t)
  unfolding find remove
  find-remove k [] i = ground arith
  find-remove k ((j, w) ∷ t) i =
      ground (arith, find-remove k t i, e.equal_iff j k, e.equal_iff k i, e.equal_iff j i)
