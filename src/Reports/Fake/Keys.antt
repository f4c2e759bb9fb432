-- ===== src/Reports/Fake/Keys.antt =====
-- Ids and filters in the list that stands for the Go map of internal/reports/fake_store.go.
use mathlib.Core.List.{Memᴰ}
use base_template_server_go.Base.{
  All, Bool, Bool-cases, List, [], ap, arith, false, inl, inr, nat_eq, select, some, string_eq,
  subst, sym, true, ◌==◌, ◌↔◌, ◌∷◌, ◌≡◌, ◌≢◌, ◌⊎◌,
}
use base_template_server_go.Reports.Domain.{Report, Uuid}
use base_template_server_go.Reports.Contract.{Distinct}
use base_template_server_go.Reports.Fake.{FakeStore, assign, find}

All-mem : (P : Report → Type 0) (f : FakeStore) → All P f → {r : Report} → Memᴰ r f → P r
All-mem P [] h m = elim m [ ]
All-mem P (x ∷ xs) (p, h) (Memᴰ.head e) = subst P (sym e) p
All-mem P (x ∷ xs) (p, h) (Memᴰ.tail m) = All-mem P xs h m

All-assign : (P : Report → Type 0) (r : Report) (f : FakeStore) → All P f → P r → All P (assign r f)
unfolding assign
All-assign P r [] h p = (p, tt)
All-assign P r (x ∷ xs) (q, h) p = elim (Bool-cases (x.report_id == r.report_id)) [
  | inl same ↦ rw same (p, h)
  | inr other ↦ rw other (q, All-assign P r xs h p)
]

pub assign-Distinct : (r : Report) (f : FakeStore) → Distinct f → Distinct (assign r f)
unfolding assign
assign-Distinct r [] h = (tt, tt)
assign-Distinct r (x ∷ xs) (d, h) = elim (Bool-cases (x.report_id == r.report_id)) [
  | inl same ↦
      let e : x.report_id ≡ r.report_id = ground (arith, same) in
      rw same (subst (λ n. All (λ k. k.report_id ≢ n) xs) e d, h)
  | inr other ↦
      let apart : r.report_id ≢ x.report_id = ground (arith, other) in
      rw other (All-assign (λ k. k.report_id ≢ x.report_id) r xs d apart, assign-Distinct r xs h)
]

All-select :
    (P : Report → Type 0) (test : Report → Bool) (f : FakeStore) → All P f → All P (select test f)
All-select P test [] h = tt
All-select P test (x ∷ xs) (p, h) = elim (Bool-cases (test x)) [
  | inl fits ↦ rw fits (p, All-select P test xs h)
  | inr unfit ↦ rw unfit (All-select P test xs h)
]

pub select-Distinct : (test : Report → Bool) (f : FakeStore) → Distinct f → Distinct (select test f)
select-Distinct test [] h = tt
select-Distinct test (x ∷ xs) (d, h) = elim (Bool-cases (test x)) [
  | inl fits ↦
      rw fits (All-select (λ k. k.report_id ≢ x.report_id) test xs d, select-Distinct test xs h)
  | inr unfit ↦ rw unfit (select-Distinct test xs h)
]

mem_cases : {r x : Report} {xs : List Report} → Memᴰ r (x ∷ xs) → (r ≡ x) ⊎ Memᴰ r xs
mem_cases (Memᴰ.head e) = inl e
mem_cases (Memᴰ.tail m) = inr m

mem-select :
    (test : Report → Bool) (f : FakeStore) {r : Report}
    → Memᴰ r (select test f)
    → Memᴰ r f × (test r ≡ true)
mem-select test [] m = elim m [ ]
mem-select test (x ∷ xs) m = elim (Bool-cases (test x)) [
  | inl fits ↦ elim (mem_cases (rw fits at m)) [
    | inl e ↦ (Memᴰ.head e, subst (λ k. test k ≡ true) (sym e) fits)
    | inr n ↦ let (k, h) = mem-select test xs n in (Memᴰ.tail k, h)
  ]
  | inr unfit ↦ let (n, h) = mem-select test xs (rw unfit at m) in (Memᴰ.tail n, h)
]

select-mem :
    (test : Report → Bool) (f : FakeStore) {r : Report}
    → Memᴰ r f
    → test r ≡ true
    → Memᴰ r (select test f)
select-mem test [] m h = elim m [ ]
select-mem test (x ∷ xs) m h = elim (Bool-cases (test x)) [
  | inl fits ↦ elim (mem_cases m) [
    | inl e ↦ rw fits (Memᴰ.head e)
    | inr n ↦ rw fits (Memᴰ.tail (select-mem test xs n h))
  ]
  | inr unfit ↦ elim (mem_cases m) [
    | inl e ↦ absurd (cc (h, unfit, ap test e))
    | inr n ↦ rw unfit (select-mem test xs n h)
  ]
]

find-mem : (f : FakeStore) {r : Report} → Distinct f → Memᴰ r f → find r.report_id f ≡ some r
unfolding find
find-mem [] d m = elim m [ ]
find-mem (x ∷ xs) {r} (apart, d) m = elim (mem_cases m) [
  | inl e ↦ rw (ap (λ (k : Report). k.report_id) e) ground (arith, sym e)
  | inr n ↦
      let other : r.report_id ≢ x.report_id = All-mem (λ k. k.report_id ≢ x.report_id) xs apart n in
      let differ : (x.report_id == r.report_id) ≡ false = ground (arith, other) in
      rw differ (find-mem xs d n)
]

mem-find : (f : FakeStore) (id : Uuid) {r : Report} → find id f ≡ some r → Memᴰ r f
unfolding find
mem-find [] id e = absurd (cc e)
mem-find (x ∷ xs) id e = elim (Bool-cases (x.report_id == id)) [
  | inl same ↦ let found = rw same at e in Memᴰ.head (cc (found))
  | inr other ↦ Memᴰ.tail (mem-find xs id (rw other at e))
]

-- The list of a filter has the rows that pass the test.
pub select_exact :
    (test : Report → Bool) (f : FakeStore)
    → Distinct f
    → (r : Report) → Memᴰ r (select test f) ↔ ((find r.report_id f ≡ some r) × (test r ≡ true))
select_exact test f d r = (
  λ m. let (n, h) = mem-select test f m in (find-mem f d n, h),
  λ (e, h). select-mem test f (mem-find f r.report_id e) h,
)
