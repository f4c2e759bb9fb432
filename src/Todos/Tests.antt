-- ===== src/Todos/Tests.antt =====
-- Runs of the service over the in-memory store, and the theorems at them.
use base_template_server_go.Httpx.Answer.{status_of}
use base_template_server_go.Todos.Api.Statuses.{api_statuses, behind_auth, of_row, or_500}
use base_template_server_go.Todos.Api.{create, delete, get, list, update}
use base_template_server_go.Base.{
  List, Option, String, [], false, if◌then◌else◌, nat_eq, none, refl, some, string_eq, true, ℕ, ◌+◌,
  ◌==◌, ◌∷◌, ◌≡◌,
}
use base_template_server_go.Table.{find, remove}
use base_template_server_go.Errors.{foreign, no_rows, sentinel}
use base_template_server_go.Op.{Result, err, ok}
use base_template_server_go.Authn.{
  Context, background, from_context, require_authenticated, with_principal,
}
use base_template_server_go.Events.{Bus, Event, Handler, publish, subscribe}
use base_template_server_go.Events.Delivery.{publish-subscribe}
use base_template_server_go.Todos.{Params, Todo, Uuid}
use base_template_server_go.Todos.Fake
use base_template_server_go.Todos.Postgres
use base_template_server_go.Todos.Postgres.Rows.{Keyed, view}
use base_template_server_go.Todos.Postgres.Histories.{
  Call, FreshRun, creates, deletes, finds, over_postgres, replies, replies_agree, sums_up, updates,
}
use base_template_server_go.Sql.{select_one}
use base_template_server_go.Base.Order.{order_by}
use base_template_server_go.Todos.Service.{
  authorize, create_todo, delete_todo, invalid_id, new_service, update_todo,
}
use base_template_server_go.Todos.Laws.{
  Closed, Deletion, Entered, Put, Update, create_todo-Put, delete_todo-Deletion, in_memory,
  requested, unnamed-Closed, update_todo-Update,
}

abbrev milk : Todo
milk = record { todo_id = 2; created_at = 1; updated_at = 1; label = "milk"; completed = false }

abbrev shelf : Fake.FakeStore
shelf = (2, milk) ∷ []

abbrev parse : String → Option Uuid
parse s = if s == "two" then some 2 else none

abbrev bread : Params
bread = record { label = "bread"; completed = true }

abbrev user : Context
user = with_principal background (record { user_id = "u1"; roles = []; auth_method = "cookie" })

entered : Entered (in_memory false) user
unfolding authorize new_service with_principal from_context require_authenticated
entered = refl

tests :
    ((update_todo (in_memory false) parse user "two" bread 9 shelf).0
      ≡ ok (record milk { label = "bread"; completed = true; updated_at = 9 }))
    × ((update_todo (in_memory false) parse user "bad" bread 9 shelf).0 ≡ err invalid_id)
    × ((delete_todo (in_memory false) parse user "two" shelf).1 ≡ [])
unfolding update_todo delete_todo authorize new_service with_principal from_context
    require_authenticated Fake.store Fake.update_todo Fake.delete_todo Fake.find_todo_by_id find
    remove Fake.or_no_rows
tests = (refl, refl, refl)

unnamed-Closed_example : Closed (in_memory false) background shelf
unfolding new_service from_context
unnamed-Closed_example = unnamed-Closed (in_memory false) background shelf refl refl

create_todo-Put_example :
    ((create_todo (in_memory false) user bread 5 9 shelf).0 ≡ ok (requested bread 5 9))
    × Put shelf 5
        (some (requested bread 5 9))
        (create_todo (in_memory false) user bread 5 9 shelf).1
create_todo-Put_example = create_todo-Put false user entered bread 5 9 shelf refl

update_todo-Update_example :
    Update shelf 2 bread 9
      (find 2 shelf)
      (update_todo (in_memory false) parse user "two" bread 9 shelf).0
      (update_todo (in_memory false) parse user "two" bread 9 shelf).1
update_todo-Update_example =
    update_todo-Update false user entered parse "two" 2 bread 9 shelf refl refl

delete_todo-Deletion_example :
    Deletion shelf 2
      (find 2 shelf)
      (delete_todo (in_memory false) parse user "two" shelf).0
      (delete_todo (in_memory false) parse user "two" shelf).1
delete_todo-Deletion_example = delete_todo-Deletion false user entered parse "two" 2 shelf refl

abbrev count_call : Handler ℕ String
count_call ctx event n = (err (foreign "boom"), n + 1)

abbrev bus : Bus ℕ String
bus = record { handlers = ("a", count_call ∷ []) ∷ [] }

abbrev happened : Event String
happened = record { name = "a"; payload = "p" }

publish-subscribe_example : publish (subscribe "a" count_call bus) background happened 0 ≡ (
    if "a" == happened.name
    then (count_call background happened (publish bus background happened 0)).1
    else publish bus background happened 0)
publish-subscribe_example = publish-subscribe bus "a" count_call background happened 0

abbrev quiet_db : Postgres.Database
quiet_db = record { fails = λ q t. none; duplicate_key = foreign "duplicate key" }

abbrev milk_row : Postgres.TodosTodo
milk_row = record { todo_id = 2; created_at = 1; updated_at = 1; label = "milk"; completed = false }

abbrev one_row : Postgres.Table
one_row = milk_row ∷ []

abbrev some_calls : List Call
some_calls = creates bread 5 9 ∷ updates "two" bread 10 ∷ deletes "two" ∷ finds "two" ∷ sums_up ∷ []

new_ids : FreshRun quiet_db false parse user some_calls one_row
unfolding select_one
new_ids = (refl, (tt, (tt, (tt, (tt, tt)))))

replies_agree_example :
    (replies (in_memory false) parse user some_calls (view one_row) ≡ (
      (replies (over_postgres quiet_db false) parse user some_calls one_row).0,
      view (replies (over_postgres quiet_db false) parse user some_calls one_row).1,
    ))
    × Keyed (replies (over_postgres quiet_db false) parse user some_calls one_row).1
replies_agree_example =
    replies_agree quiet_db false parse user (λ q t. refl) some_calls one_row (tt, tt) new_ids

-- A second row with one id is refused, and a row that is not there is not updated.
refusals :
    ((Postgres.create_todo quiet_db
        (record { todo_id = 2; created_at = 1; updated_at = 1; label = "tea"; completed = false })
        one_row).0
      ≡ err (foreign "duplicate key"))
    × ((Postgres.update_todo quiet_db
          (record { todo_id = 3; label = "tea"; completed = true; updated_at = 4 })
          one_row)
        ≡ (err (sentinel no_rows), one_row))
    × ((Postgres.list_all_todos quiet_db
          (milk_row ∷ record milk_row { todo_id = 4; created_at = 8 } ∷ [])).0
        ≡ ok (record milk { todo_id = 4; created_at = 8 } ∷ milk ∷ []))
unfolding Postgres.create_todo Postgres.update_todo Postgres.list_all_todos Postgres.row_of
    select_one order_by Postgres.map_todo
refusals = (refl, refl, refl)

api_statuses_example :
    let bad : Result Params = err (foreign "unexpected EOF") in
    let s = in_memory false in
    (status_of (λ n. "") (create s user bad 5 9 shelf).0 ≡ 400)
    × (status_of (λ n. "") (list s user shelf).0 ≡ behind_auth (authorize s user) 200)
    × (status_of (λ n. "") (get s user parse (λ name. "two") shelf).0
        ≡ behind_auth (authorize s user) (of_row (s.store.find_todo_by_id 2 shelf).0 200))
    × (status_of (λ n. "") (update s user parse (λ name. "two") bad 9 shelf).0 ≡ 400)
    × (status_of (λ n. "") (delete s user parse (λ name. "two") shelf).0
        ≡ behind_auth (authorize s user) (
            of_row
              (s.store.find_todo_by_id 2 shelf).0
              (or_500 (s.store.delete_todo 2 (s.store.find_todo_by_id 2 shelf).1).0 200)))
unfolding new_service Fake.store Fake.list_all_todos
api_statuses_example =
    api_statuses (in_memory false) user (λ n. "") parse (λ name. "two") shelf 5 9
      (err (foreign "unexpected EOF"))
