-- ===== src/Todos/Api.antt =====
-- internal/todos/api/api.go: the handlers. What c.Bind made of the body, the path parameters and the
-- values that the service draws are arguments.
pub mod Statuses
use base_template_server_go.Base.{List, Option, String, Time, [], some, ◌∷◌}
use base_template_server_go.Errors.{GoError, text}
use base_template_server_go.Op.{Op, Result, lift, pure, rename, ◌>>=◌, ◌>>◌}
use base_template_server_go.Authn.{Context}
use base_template_server_go.Httpx.Answer.{Answer, bad_body, json_answer}
use base_template_server_go.Todos.{Params, Todo, Uuid}
use base_template_server_go.Todos.Service as TodosService

abbrev pub invalid_body : GoError → GoError
invalid_body e = bad_body "Invalid request body" (some (("error", text e) ∷ []))

module _ {S : Type 0} (s : TodosService.Service S) (ctx : Context) where
  unfoldable pub create : Result Params → Uuid → Time → Op S (Answer Todo)
  unfolding bad_body text
  create bind new_id now = do
    req ← lift (rename invalid_body bind)
    out ← TodosService.create_todo s ctx req new_id now
    pure (json_answer 201 out)

  unfoldable pub list : Op S (Answer (List Todo))
  list = do out ← TodosService.list_all_todos s ctx; pure (json_answer 200 out)

  module _ (parse : String → Option Uuid) (param : String → String) where
    abbrev pub get_at : String → Op S (Answer Todo)
    get_at name = do
      out ← TodosService.find_todo_by_id s parse ctx (param name)
      pure (json_answer 200 out)

    abbrev pub update_at : String → Result Params → Time → Op S (Answer Todo)
    update_at name bind now = do
      req ← lift (rename invalid_body bind)
      out ← TodosService.update_todo s parse ctx (param name) req now
      pure (json_answer 200 out)

    abbrev pub delete_at : String → Op S (Answer (String × String))
    delete_at name = do
      done ← TodosService.delete_todo s parse ctx (param name)
      pure (json_answer 200 ("message", "todo deleted successfully"))

    unfoldable pub get : Op S (Answer Todo)
    get = get_at "id"

    unfoldable pub update : Result Params → Time → Op S (Answer Todo)
    unfolding bad_body text
    update = update_at "id"

    unfoldable pub delete : Op S (Answer (String × String))
    delete = delete_at "id"

    unfoldable pub get_legacy : Op S (Answer Todo)
    get_legacy = get_at "todo-id"

    unfoldable pub update_legacy : Result Params → Time → Op S (Answer Todo)
    unfolding bad_body text
    update_legacy = update_at "todo-id"

    unfoldable pub delete_legacy : Op S (Answer (String × String))
    delete_legacy = delete_at "todo-id"
