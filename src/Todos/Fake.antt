-- ===== src/Todos/Fake.antt =====
-- internal/todos/fake_store.go: the in-memory store. The Go map is an association list; its
-- iteration order is the order of insertion here.
use base_template_server_go.Base.{
  Bool, List, Option, Time, count_if, if◌then◌else◌, length, map, nat_eq, none, some, string_eq,
  ◌-◌,
}
use base_template_server_go.Table.{assign, find, remove}
use base_template_server_go.Errors.{no_rows, sentinel}
use base_template_server_go.Op.{Op, Result, err, ok, ◌>>=◌}
use base_template_server_go.Todos.{CreateParams, Store, Summary, Todo, UpdateParams, Uuid}

abbrev pub FakeStore : Type 0
FakeStore = List (Uuid × Todo)

unfoldable pub create_todo : CreateParams → Op FakeStore Todo
unfolding assign
create_todo arg f =
    let t : Todo = record {
      todo_id = arg.todo_id;
      created_at = arg.created_at;
      updated_at = arg.updated_at;
      label = arg.label;
      completed = arg.completed;
    } in
    (ok t, assign t.todo_id t f)

unfoldable pub or_no_rows : Option Todo → Result Todo
or_no_rows none = err (sentinel no_rows)
or_no_rows (some t) = ok t

unfoldable pub update_todo : UpdateParams → Op FakeStore Todo
unfolding find assign or_no_rows
update_todo arg = do
  t ← λ f. (or_no_rows (find arg.todo_id f), f)
  let changed : Todo = record t {
    label = arg.label;
    completed = arg.completed;
    updated_at = arg.updated_at;
  }
  λ f. (ok changed, assign arg.todo_id changed f)

unfoldable pub delete_todo : Uuid → Op FakeStore (Unit {0})
unfolding find remove or_no_rows
delete_todo id = do t ← λ f. (or_no_rows (find id f), f); λ f. (ok tt, remove id f)

unfoldable pub find_todo_by_id : Uuid → Op FakeStore Todo
unfolding find or_no_rows
find_todo_by_id id f = (or_no_rows (find id f), f)

unfoldable pub list_all_todos : Op FakeStore (List Todo)
list_all_todos f = (ok (map (λ (id, t). t) f), f)

unfoldable pub count_todos : Op FakeStore Summary
count_todos f =
    let total = length f in
    let completed = count_if (λ (id, t). t.completed) f in
    (ok (record { total = total; completed = completed; outstanding = total - completed }), f)

-- Seed, which tests use. `is_zero` is Time.IsZero.
unfoldable pub seed : (Time → Bool) → Todo → Time → FakeStore → FakeStore
unfolding assign
seed is_zero t now f =
    let created_at = if is_zero t.created_at then now else t.created_at in
    let updated_at = if is_zero t.updated_at then created_at else t.updated_at in
    assign t.todo_id (record t { created_at = created_at; updated_at = updated_at }) f

unfoldable pub store : Store FakeStore
unfolding create_todo update_todo delete_todo find_todo_by_id list_all_todos count_todos
store = record {
  create_todo = create_todo;
  update_todo = update_todo;
  delete_todo = delete_todo;
  find_todo_by_id = find_todo_by_id;
  list_all_todos = list_all_todos;
  count_todos = count_todos;
}
