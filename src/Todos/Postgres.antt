-- ===== src/Todos/Postgres.antt =====
-- internal/todos/postgres/store.go: the store that maps the rows of the statements to todos.
pub mod Rows
pub mod Agreement
pub mod Histories
use base_template_server_go.Base.{List, map, ◌-◌}
use base_template_server_go.Op.{Op, pure, ◌>>=◌, ◌>>◌}
use base_template_server_go.Todos.{CreateParams, Store, Summary, Todo, UpdateParams, Uuid}
pub use base_template_server_go.Todos.Queries.{TodosTodo, Statement, Table, Database, has_id}
unfoldable pub use base_template_server_go.Todos.Queries.{set_todo}
use base_template_server_go.Todos.Queries as Queries

unfoldable pub map_todo : TodosTodo → Todo
map_todo r = record {
  todo_id = r.todo_id;
  created_at = r.created_at;
  updated_at = r.updated_at;
  label = r.label;
  completed = r.completed;
}

unfoldable pub row_of : CreateParams → TodosTodo
row_of arg = record {
  todo_id = arg.todo_id;
  created_at = arg.created_at;
  updated_at = arg.updated_at;
  label = arg.label;
  completed = arg.completed;
}

abbrev mapped : {A B : Type 0} → (A → B) → Op Table A → Op Table B
mapped f m = do a ← m; pure (f a)

module _ (db : Database) where
  unfoldable pub create_todo : CreateParams → Op Table Todo
  unfolding row_of map_todo
  create_todo arg = mapped map_todo (Queries.insert_todo db (row_of arg))

  unfoldable pub update_todo : UpdateParams → Op Table Todo
  unfolding map_todo
  update_todo arg = mapped map_todo (Queries.update_todo_row db arg)

  unfoldable pub delete_todo : Uuid → Op Table (Unit {0})
  delete_todo id = Queries.delete_todo_row db id

  unfoldable pub find_todo_by_id : Uuid → Op Table Todo
  unfolding map_todo
  find_todo_by_id id = mapped map_todo (Queries.select_todo_by_id db id)

  unfoldable pub list_all_todos : Op Table (List Todo)
  unfolding map_todo
  list_all_todos = mapped (map map_todo) (Queries.select_all_todos db)

  unfoldable pub count_todos : Op Table Summary
  count_todos =
      mapped
        (λ row. record {
          total = row.total;
          completed = row.completed;
          outstanding = row.total - row.completed;
        })
        (Queries.select_counts db)

  unfoldable pub postgres_store : Store Table
  unfolding create_todo update_todo delete_todo find_todo_by_id list_all_todos count_todos
  postgres_store = record {
    create_todo = create_todo;
    update_todo = update_todo;
    delete_todo = delete_todo;
    find_todo_by_id = find_todo_by_id;
    list_all_todos = list_all_todos;
    count_todos = count_todos;
  }
