-- ===== src/Sql.antt =====
-- What the statements in the stores' *.sql.go files share: queries for one row, and statements that
-- may fail. A table is the list of its rows; which call of a statement fails is an argument, a
-- function of the table.
use base_template_server_go.Base.{
  Bool, Bool-cases, List, Option, [], if◌then◌else◌, inl, inr, none, refl, some, true, ◌++◌, ◌∷◌,
  ◌≡◌,
}
use base_template_server_go.Errors.{GoError, no_rows, sentinel}
use base_template_server_go.Op.{Op, Result, err, ok}

module _ {R : Type 0} where
  -- SELECT … WHERE … LIMIT 1
  unfoldable pub select_one : (R → Bool) → List R → Option R
  select_one test [] = none
  select_one test (r ∷ rs) = let rest = select_one test rs in if test r then some r else rest

  -- UPDATE … SET … WHERE …
  unfoldable pub update_where : (R → Bool) → (R → R) → List R → List R
  update_where test change [] = []
  update_where test change (r ∷ rs) = (if test r then change r else r) ∷ update_where test change rs

  -- DELETE FROM … WHERE …
  unfoldable pub delete_where : (R → Bool) → List R → List R
  delete_where test [] = []
  delete_where test (r ∷ rs) = let rest = delete_where test rs in if test r then rest else r ∷ rest

  -- row.Scan of QueryRowContext: a query without a row is `sql.ErrNoRows`.
  abbrev pub scan_row : Option R → Result R
  scan_row none = err (sentinel no_rows)
  scan_row (some r) = ok r

  -- A statement that the database refused leaves the table as it was.
  abbrev pub run : {A : Type 0} → Option GoError → Op (List R) A → Op (List R) A
  run none statement t = statement t
  run (some e) statement t = (err e, t)

  -- UPDATE … WHERE key = … AND test RETURNING …, where the key is the primary key.
  abbrev pub returning : (R → Bool) → (R → Bool) → (R → R) → Option R → Op (List R) R
  returning key test change none t = (err (sentinel no_rows), t)
  returning key test change (some r) t =
      if test r then (ok (change r), update_where key change t) else (err (sentinel no_rows), t)

  -- INSERT … RETURNING …, where `old` is the row that has the primary key already.
  abbrev pub insert : GoError → R → Option R → Op (List R) R
  insert duplicate_key row none t = (ok row, t ++ row ∷ [])
  insert duplicate_key row (some old) t = (err duplicate_key, t)

  pub select_one-append :
      (test : R → Bool) (l : List R) (row : R)
      → select_one test l ≡ none
      → test row ≡ true
      → select_one test (l ++ row ∷ []) ≡ some row
  unfolding select_one
  select_one-append test [] row e hit = rw hit refl
  select_one-append test (r ∷ rs) row e hit = elim (Bool-cases (test r)) [
    | inl old ↦ absurd (cc (rw old at e))
    | inr other ↦ rw other (select_one-append test rs row (rw other at e) hit)
  ]

  pub select_one-delete :
      (test : R → Bool) (l : List R) → select_one test (delete_where test l) ≡ none
  unfolding select_one delete_where
  select_one-delete test [] = refl
  select_one-delete test (r ∷ rs) = elim (Bool-cases (test r)) [
    | inl hit ↦ rw hit (select_one-delete test rs)
    | inr miss ↦ rw (miss, miss) (select_one-delete test rs)
  ]
