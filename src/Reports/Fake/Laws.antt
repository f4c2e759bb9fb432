-- ===== src/Reports/Fake/Laws.antt =====
-- The in-memory store of internal/reports/fake_store.go under the port as Spec tells it.
use base_template_server_go.Base.{
  All, Bool, Bool-cases, Option, [], arith, inl, inr, nat_eq, none, refl, select, some, string_eq,
  true, ◌==◌, ◌∷◌, ◌≡◌,
}
use base_template_server_go.Reports.Domain.{Report, Uuid}
use base_template_server_go.Reports.Fake.{FakeStore, assign, find, or_no_rows, store, update_if}
use base_template_server_go.Reports.Spec.{Reads, Rows, StoreLaws, Updates, put, when}

abbrev pub rows : FakeStore → Rows
rows f id = find id f

pub find-keyed : (id : Uuid) (f : FakeStore) {r : Report} → find id f ≡ some r → r.report_id ≡ id
unfolding find
find-keyed id [] e = cc
find-keyed id (x ∷ xs) e = elim (Bool-cases (x.report_id == id)) [
  | inl same ↦ ground (arith, same, e)
  | inr other ↦ find-keyed id xs (rw other at e)
]

pub find-assign :
    (r : Report) (f : FakeStore) (id : Uuid) → find id (assign r f) ≡ put (rows f) r id
unfolding find assign
find-assign r [] id = refl
find-assign r (x ∷ xs) id = ground (arith, find-assign r xs id)

All-select : (test : Report → Bool) (f : FakeStore) → All (λ r. test r ≡ true) (select test f)
All-select test [] = tt
All-select test (x ∷ xs) = elim (Bool-cases (test x)) [
  | inl yes' ↦ rw yes' (yes', All-select test xs)
  | inr no' ↦ rw no' (All-select test xs)
]

-- The four conditional updates at once.
update-Updates :
    (test : Report → Bool) (change : Report → Report) (f : FakeStore) (o : Option Report)
    → Updates
        (rows f)
        (rows (update_if test change o f).1)
        (when test change o)
        (update_if test change o f).0
unfolding update_if
update-Updates test change f none = ((λ id. refl), λ h. refl)
update-Updates test change f (some r) = elim (Bool-cases (test r)) [
  | inl fits ↦ rw fits (refl, find-assign (change r) f)
  | inr unfit ↦ rw unfit ((λ id. refl), λ h. refl)
]

get-Reads : (o : Option Report) → Reads o (or_no_rows o)
unfolding or_no_rows
get-Reads none = λ h. refl
get-Reads (some r) = refl

-- FakeStore is a store of reports: each of its operations has the law of the port.
pub store-StoreLaws : StoreLaws store rows
unfolding store
store-StoreLaws = record {
  keyed = λ f id r e. find-keyed id f e;
  create = λ r f fresh. (refl, find-assign r f);
  get = λ id f. (get-Reads (find id f), λ j. refl);
  list_owner = λ owner f. (All-select _ f, λ j. refl);
  claim = λ id now t f. update-Updates _ _ f (find id f);
  retry = λ id at f. update-Updates _ _ f (find id f);
  complete = λ id text at f. update-Updates _ _ f (find id f);
  fail = λ id code reason at f. update-Updates _ _ f (find id f);
  list_pending = λ t f. (All-select _ f, λ j. refl);
}
