-- ===== src/Todos.antt =====
-- internal/todos: the todo items. Domain and port here, the service and the in-memory store below.
pub mod Fake
pub mod Queries
pub mod Postgres
pub mod Service
pub mod Laws
pub mod Moving
pub mod Web
pub mod Api
mod Tests
use base_template_server_go.Base.{Bool, List, String, Time, ℕ}
use base_template_server_go.Op.{Op}

abbrev pub Uuid : Type 0
Uuid = ℕ

pub record Todo : Type 0 where
  pub todo_id : Uuid
  pub created_at : Time
  pub updated_at : Time
  pub label : String
  pub completed : Bool

pub record Params : Type 0 where
  pub label : String
  pub completed : Bool

-- The counts are those of rows, so no negative number occurs.
pub record Summary : Type 0 where
  pub total : ℕ
  pub completed : ℕ
  pub outstanding : ℕ

abbrev pub event_todo_created : String
event_todo_created = "todos.created"

pub record CreateParams : Type 0 where
  pub todo_id : Uuid
  pub created_at : Time
  pub updated_at : Time
  pub label : String
  pub completed : Bool

pub record UpdateParams : Type 0 where
  pub todo_id : Uuid
  pub updated_at : Time
  pub label : String
  pub completed : Bool

pub record Store (S : Type 0) : Type 0 where
  pub create_todo : CreateParams → Op S Todo
  pub update_todo : UpdateParams → Op S Todo
  pub delete_todo : Uuid → Op S (Unit {0})
  pub find_todo_by_id : Uuid → Op S Todo
  pub list_all_todos : Op S (List Todo)
  pub count_todos : Op S Summary
