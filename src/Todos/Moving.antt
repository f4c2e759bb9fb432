-- ===== src/Todos/Moving.antt =====
-- Two-state invariants of the service of todos, from those of its store and its bus.
use base_template_server_go.Base.{Option, String, Time}
use base_template_server_go.Op.{fail, lift, ok}
use base_template_server_go.Authn.{Context}
use base_template_server_go.Events.{Event}
use base_template_server_go.Moves.{
  Moves, Moves-attempt, Moves-fail, Moves-lift, Moves-map_err, Order, moves_rules,
}
use base_template_server_go.Todos.{
  CreateParams, Params, Store, Todo, UpdateParams, Uuid, event_todo_created,
}
use base_template_server_go.Todos.Service.{
  Service, authorize, create_todo, delete_todo, find_todo_by_id, internal_error, list_all_todos,
  publish_if, summary, update_todo,
}

pub record StoreMoves {S : Type 0} (R : S → S → Type 0) (st : Store S) : Type 0 where
  pub create : (arg : CreateParams) → Moves R (st.create_todo arg)
  pub update : (arg : UpdateParams) → Moves R (st.update_todo arg)
  pub delete : (id : Uuid) → Moves R (st.delete_todo id)
  pub find : (id : Uuid) → Moves R (st.find_todo_by_id id)
  pub list : Moves R st.list_all_todos
  pub count : Moves R st.count_todos

module _ {S : Type 0} {R : S → S → Type 0} (o : Order R) (s : Service S)
    (st : StoreMoves R s.store) where
  announced :
      (ctx : Context) (event : Event Todo) (t : Todo)
      → ((x : S) → R x (publish_if s.bus ctx event x))
      → Moves R (λ x. (ok t, publish_if s.bus ctx event x))
  announced ctx event t h = record { at = h }

  pub create_todo-Moves :
      (ctx : Context) (req : Params) (id : Uuid) (now : Time)
      → ((t : Todo) (x : S)
          → R x (publish_if s.bus ctx (record { name = event_todo_created; payload = t }) x))
      → Moves R (create_todo s ctx req id now)
  unfolding create_todo
  create_todo-Moves ctx req id now h = search (moves_rules, o, st.create, announced, h) depth 12

  pub update_todo-Moves :
      (parse : String → Option Uuid) (ctx : Context) (id : String) (req : Params) (now : Time)
      → Moves R (update_todo s parse ctx id req now)
  unfolding update_todo
  update_todo-Moves parse ctx id req now = search (moves_rules, o, st.update) depth 12

  pub delete_todo-Moves :
      (parse : String → Option Uuid) (ctx : Context) (id : String)
      → Moves R (delete_todo s parse ctx id)
  unfolding delete_todo
  delete_todo-Moves parse ctx id = search (moves_rules, o, st.find, st.delete) depth 12

  pub find_todo_by_id-Moves :
      (parse : String → Option Uuid) (ctx : Context) (id : String)
      → Moves R (find_todo_by_id s parse ctx id)
  unfolding find_todo_by_id
  find_todo_by_id-Moves parse ctx id = search (moves_rules, o, st.find) depth 12

  pub list_all_todos-Moves : (ctx : Context) → Moves R (list_all_todos s ctx)
  unfolding list_all_todos
  list_all_todos-Moves ctx =
      Moves-attempt o (lift (authorize s ctx)) fail _ (Moves-lift o (authorize s ctx))
        (λ e. Moves-fail o e)
        (λ u.
          Moves-map_err (λ _. internal_error "failed to list todos") s.store.list_all_todos st.list)

  pub summary-Moves : (ctx : Context) → Moves R (summary s ctx)
  unfolding summary
  summary-Moves ctx =
      Moves-attempt o (lift (authorize s ctx)) fail _ (Moves-lift o (authorize s ctx))
        (λ e. Moves-fail o e)
        (λ u.
          Moves-map_err (λ _. internal_error "failed to summarise todos") s.store.count_todos
            st.count)
