-- ===== src/Todos/Service.antt =====
-- internal/todos/service.go. The clock, new ids and `uuid.Parse` are arguments.
use base_template_server_go.Base.{
  Bool, List, Option, String, Time, if◌then◌else◌, nat_eq, none, not, some, string_eq, ◌==◌,
}
use base_template_server_go.Errors.{
  GoError, bad_request, internal, is, no_rows, not_found, permission_denied, sentinel, validation,
  wrap,
}
use base_template_server_go.Op.{Op, Result, err, guard, lift, map_err, ok, rename, ◌>>=◌, ◌>>◌}
use base_template_server_go.Authn.{Context, from_context, require_authenticated}
use base_template_server_go.Events.{Bus, Event, publish}
use base_template_server_go.Todos.{
  CreateParams, Params, Store, Summary, Todo, Uuid, event_todo_created,
}

pub record Service (S : Type 0) : Type 0 where
  pub store : Store S
  pub bus : Option (Bus S Todo)
  pub auth_disabled : Bool

unfoldable pub new_service : {S : Type 0} → Store S → Option (Bus S Todo) → Bool → Service S
new_service store bus auth_disabled = record {
  store = store;
  bus = bus;
  auth_disabled = auth_disabled;
}

abbrev pub denied : GoError
denied = wrap (sentinel permission_denied) "authentication required"

abbrev pub no_label : GoError
no_label = wrap (sentinel validation) "label is required"

abbrev pub invalid_id : GoError
invalid_id = wrap (sentinel bad_request) "invalid todo id"

abbrev pub todo_missing : GoError
todo_missing = wrap (sentinel not_found) "todo not found"

abbrev pub internal_error : String → GoError
internal_error m = wrap (sentinel internal) m

-- if errors.Is(err, sql.ErrNoRows) { … }
abbrev pub missing_or : String → GoError → GoError
missing_or m e = if is e no_rows then todo_missing else internal_error m

abbrev pub or_invalid : Option Uuid → Result Uuid
or_invalid none = err invalid_id
or_invalid (some id) = ok id

abbrev pub publish_if : {S : Type 0} → Option (Bus S Todo) → Context → Event Todo → S → S
publish_if none ctx event s = s
publish_if (some b) ctx event s = publish b ctx event s

module _ {S : Type 0} (s : Service S) where
  unfoldable pub authorize : Context → Result (Unit {0})
  unfolding from_context require_authenticated
  authorize ctx = rename (λ _. denied) (require_authenticated (from_context ctx).0 s.auth_disabled)

  unfoldable pub create_todo : Context → Params → Uuid → Time → Op S Todo
  create_todo ctx req new_id now = do
    lift (authorize ctx)
    lift (guard (not (req.label == "")) no_label)
    let model : CreateParams = record {
      todo_id = new_id;
      label = req.label;
      completed = req.completed;
      created_at = now;
      updated_at = now;
    }
    result ← map_err (λ _. internal_error "failed to create todo") (s.store.create_todo model)
    λ x.
        (ok result, publish_if s.bus ctx (record { name = event_todo_created; payload = result }) x)

  module _ (parse : String → Option Uuid) (ctx : Context) (todo_id : String) where
    unfoldable pub update_todo : Params → Time → Op S Todo
    update_todo req now = do
      lift (authorize ctx)
      lift (guard (not (req.label == "")) no_label)
      id ← lift (or_invalid (parse todo_id))
      map_err (missing_or "failed to update todo") (
          s.store.update_todo (record {
            todo_id = id;
            label = req.label;
            completed = req.completed;
            updated_at = now;
          }))

    unfoldable pub delete_todo : Op S (Unit {0})
    delete_todo = do
      lift (authorize ctx)
      id ← lift (or_invalid (parse todo_id))
      t ← map_err (missing_or "failed to delete todo") (s.store.find_todo_by_id id)
      map_err (λ _. internal_error "failed to delete todo") (s.store.delete_todo id)

    unfoldable pub find_todo_by_id : Op S Todo
    find_todo_by_id = do
      lift (authorize ctx)
      id ← lift (or_invalid (parse todo_id))
      map_err (missing_or "failed to find todo") (s.store.find_todo_by_id id)

  unfoldable pub list_all_todos : Context → Op S (List Todo)
  list_all_todos ctx = do
    lift (authorize ctx)
    map_err (λ _. internal_error "failed to list todos") s.store.list_all_todos

  unfoldable pub summary : Context → Op S Summary
  summary ctx = do
    lift (authorize ctx)
    map_err (λ _. internal_error "failed to summarise todos") s.store.count_todos
