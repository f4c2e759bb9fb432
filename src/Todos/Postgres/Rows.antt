-- ===== src/Todos/Postgres/Rows.antt =====
-- Rows of the table, seen as the map of the in-memory store.
use base_template_server_go.Base.{
  All, Bool, Bool-cases, Option, [], ap, arith, count_if, inl, inr, length, map, nat_eq, none, refl,
  some, string_eq, suc, sym, ◌++◌, ◌==◌, ◌∙◌, ◌∷◌, ◌≡◌, ◌≢◌,
}
use base_template_server_go.Table.{assign, find, remove}
use base_template_server_go.Sql.{delete_where, select_one, update_where}
use base_template_server_go.Todos.{Todo, Uuid}
use base_template_server_go.Todos.Fake
use base_template_server_go.Todos.Postgres

abbrev pub view : Postgres.Table → Fake.FakeStore
view t = map (λ r. (r.todo_id, Postgres.map_todo r)) t

-- The primary key: no two rows have one id.
abbrev pub Keyed : Postgres.Table → Type 0
Keyed [] = Unit
Keyed (r ∷ rs) = All (λ q. q.todo_id ≢ r.todo_id) rs × Keyed rs

abbrev pub lookup : Option Postgres.TodosTodo → Option Todo
lookup none = none
lookup (some r) = some (Postgres.map_todo r)

pub find-view :
    (id : Uuid) (t : Postgres.Table) → find id (view t) ≡ lookup (select_one (Postgres.has_id id) t)
unfolding find select_one
find-view id [] = refl
find-view id (r ∷ rs) = elim (Bool-cases (r.todo_id == id)) [
  | inl same ↦ rw same refl
  | inr other ↦ rw other (find-view id rs)
]

pub remove-view :
    (id : Uuid) (t : Postgres.Table)
    → remove id (view t) ≡ view (delete_where (Postgres.has_id id) t)
unfolding remove delete_where
remove-view id [] = refl
remove-view id (r ∷ rs) = elim (Bool-cases (r.todo_id == id)) [
  | inl same ↦ rw same (remove-view id rs)
  | inr other ↦ rw other (ap (λ l. (r.todo_id, Postgres.map_todo r) ∷ l) (remove-view id rs))
]

-- A new id is assigned behind the rows.
pub assign_new :
    (row : Postgres.TodosTodo) (t : Postgres.Table)
    → select_one (Postgres.has_id row.todo_id) t ≡ none
    → assign row.todo_id (Postgres.map_todo row) (view t) ≡ view (t ++ row ∷ [])
unfolding assign select_one
assign_new row [] h = refl
assign_new row (r ∷ rs) h = elim (Bool-cases (r.todo_id == row.todo_id)) [
  | inl same ↦ absurd (cc (rw same at h))
  | inr other ↦
      rw other (ap (λ l. (r.todo_id, Postgres.map_todo r) ∷ l) (assign_new row rs (rw other at h)))
]

untouched :
    (id : Uuid) (change : Postgres.TodosTodo → Postgres.TodosTodo) (t : Postgres.Table)
    → All (λ q. q.todo_id ≢ id) t
    → update_where (Postgres.has_id id) change t ≡ t
unfolding update_where
untouched id change [] h = refl
untouched id change (r ∷ rs) (d, h) = elim (Bool-cases (r.todo_id == id)) [
  | inl same ↦ absurd (d ((nat_eq.equal_iff r.todo_id id).0 same))
  | inr other ↦ rw other (ap (λ l. r ∷ l) (untouched id change rs h))
]

-- A known id is assigned in place.
pub assign_old :
    (id : Uuid) (change : Postgres.TodosTodo → Postgres.TodosTodo) (t : Postgres.Table)
    (q : Postgres.TodosTodo)
    → ((r : Postgres.TodosTodo) → (change r).todo_id ≡ r.todo_id)
    → Keyed t
    → select_one (Postgres.has_id id) t ≡ some q
    → assign id (Postgres.map_todo (change q)) (view t)
      ≡ view (update_where (Postgres.has_id id) change t)
unfolding assign select_one update_where
assign_old id change [] q keeps k h = absurd (cc h)
assign_old id change (r ∷ rs) q keeps (d, k) h = elim (Bool-cases (r.todo_id == id)) [
  | inl same ↦
      let e : r ≡ q = cc (rw same at h) in
      let here : r.todo_id ≡ id = (nat_eq.equal_iff r.todo_id id).0 same in
      let p : (r.todo_id, Postgres.map_todo (change r))
          ≡ ((change r).todo_id, Postgres.map_todo (change r)) =
        ap (λ i. (i, Postgres.map_todo (change r))) (sym (keeps r)) in
      rw (same, untouched id change rs (rw here at d), ← e) (ap (λ z. z ∷ view rs) p)
  | inr other ↦ rw other (
      ap (λ l. (r.todo_id, Postgres.map_todo r) ∷ l)
        (assign_old id change rs q keeps k (rw other at h)))
]

All-append-one :
    (P : Postgres.TodosTodo → Type 0) (t : Postgres.Table) (row : Postgres.TodosTodo)
    → All P t
    → P row
    → All P (t ++ row ∷ [])
All-append-one P [] row h p = (p, tt)
All-append-one P (r ∷ rs) row (q, h) p = (q, All-append-one P rs row h p)

pub Keyed-append :
    (row : Postgres.TodosTodo) (t : Postgres.Table)
    → select_one (Postgres.has_id row.todo_id) t ≡ none
    → Keyed t
    → Keyed (t ++ row ∷ [])
unfolding select_one
Keyed-append row [] h k = (tt, tt)
Keyed-append row (r ∷ rs) h (d, k) = elim (Bool-cases (r.todo_id == row.todo_id)) [
  | inl same ↦ absurd (cc (rw same at h))
  | inr other ↦ (
    All-append-one _ rs row d
        (λ e. absurd (cc (other, (nat_eq.equal_iff r.todo_id row.todo_id).1 (sym e)))),
    Keyed-append row rs (rw other at h) k,
  )
]

update-All :
    (test : Postgres.TodosTodo → Bool) (change : Postgres.TodosTodo → Postgres.TodosTodo) (n : Uuid)
    (t : Postgres.Table)
    → ((r : Postgres.TodosTodo) → (change r).todo_id ≡ r.todo_id)
    → All (λ q. q.todo_id ≢ n) t
    → All (λ q. q.todo_id ≢ n) (update_where test change t)
unfolding update_where
update-All test change n [] keeps h = tt
update-All test change n (r ∷ rs) keeps (d, h) = elim (Bool-cases (test r)) [
  | inl hit ↦ rw hit ((λ e. d (sym (keeps r) ∙ e)), update-All test change n rs keeps h)
  | inr miss ↦ rw miss (d, update-All test change n rs keeps h)
]

pub update-Keyed :
    (test : Postgres.TodosTodo → Bool) (change : Postgres.TodosTodo → Postgres.TodosTodo)
    (t : Postgres.Table)
    → ((r : Postgres.TodosTodo) → (change r).todo_id ≡ r.todo_id)
    → Keyed t
    → Keyed (update_where test change t)
unfolding update_where
update-Keyed test change [] keeps k = tt
update-Keyed test change (r ∷ rs) keeps (d, k) = elim (Bool-cases (test r)) [
  | inl hit ↦
      rw (hit, keeps r)
        (update-All test change r.todo_id rs keeps d, update-Keyed test change rs keeps k)
  | inr miss ↦
      rw miss (update-All test change r.todo_id rs keeps d, update-Keyed test change rs keeps k)
]

delete-All :
    (test : Postgres.TodosTodo → Bool) (P : Postgres.TodosTodo → Type 0) (t : Postgres.Table)
    → All P t
    → All P (delete_where test t)
unfolding delete_where
delete-All test P [] h = tt
delete-All test P (r ∷ rs) (p, h) = elim (Bool-cases (test r)) [
  | inl hit ↦ rw hit (delete-All test P rs h)
  | inr miss ↦ rw miss (p, delete-All test P rs h)
]

pub delete-Keyed :
    (test : Postgres.TodosTodo → Bool) (t : Postgres.Table) → Keyed t → Keyed (delete_where test t)
unfolding delete_where
delete-Keyed test [] k = tt
delete-Keyed test (r ∷ rs) (d, k) = elim (Bool-cases (test r)) [
  | inl hit ↦ rw hit (delete-Keyed test rs k)
  | inr miss ↦ rw miss (delete-All test _ rs d, delete-Keyed test rs k)
]

pub length-view : (t : Postgres.Table) → length (view t) ≡ length t
length-view [] = refl
length-view (r ∷ rs) = omega (arith, length-view rs)

pub count-view :
    (t : Postgres.Table)
    → count_if (λ ((id, x) : Uuid × Todo). x.completed) (view t) ≡ count_if (λ r. r.completed) t
unfolding Postgres.map_todo
count-view [] = refl
count-view (r ∷ rs) = elim (Bool-cases r.completed) [
  | inl done ↦ rw done (ap suc (count-view rs))
  | inr open' ↦ rw open' (count-view rs)
]
