-- ===== src/Todos/Web.antt =====
-- internal/todos/web/web.go: the pages of todos. The values that the calls draw (an id, the time, a
-- CSRF token) are arguments; `Strings` are functions of Go's package strings.
pub mod Answers
pub mod Messages
mod Tests
use base_template_server_go.Base.{
  Bool, List, Option, String, Time, [], false, if◌then◌else◌, nat_eq, none, not, some, string_eq,
  suc, ℕ,
}
use base_template_server_go.Table.{assign}
use base_template_server_go.Errors.{GoError, is, text, validation}
use base_template_server_go.Op.{Op, Result, attempt, err, ok, ◌>>=◌, ◌>>◌}
use base_template_server_go.Authn.{Context}
use base_template_server_go.Config.{AuthConfig}
use base_template_server_go.Httpx.Flash.{Codec, flash_success}
use base_template_server_go.Httpx.Form.{FormErrors, no_errors}
use base_template_server_go.Httpx.Render.{
  Exchange, Shell, Views, is_htmx, redirect_to, render_app, render_app_status, render_fragment,
  render_fragment_status,
}
use base_template_server_go.Httpx.Shells.{Web, flashing, new_shell, on_exchange, on_world, reading}
use base_template_server_go.Todos.{Todo, Uuid}
use base_template_server_go.Todos.Service as TodosService

-- LastIndex gives none for -1.
pub record Strings : Type 0 where
  pub trim_space : String → String
  pub contains : String → String → Bool
  pub last_index : String → String → Option ℕ
  pub slice_from : String → ℕ → String

pub record TodoForm : Type 0 where
  pub label : String

pub record ListPage : Type 0 where
  pub shell : Shell
  pub todos : List Todo
  pub form : TodoForm
  pub errors : FormErrors

abbrev pub empty_form : TodoForm
empty_form = record { label = "" }

-- What a call of a handler uses beside the service: the libraries, the configuration, the context and
-- the token that it may draw.
pub record Surroundings : Type 0 where
  pub views : Views ListPage
  pub codec : Codec
  pub strings : Strings
  pub cfg : AuthConfig
  pub ctx : Context
  pub random : String

-- strings.LastIndex(msg, ":")+1
abbrev behind : Option ℕ → ℕ
behind none = 0
behind (some n) = suc n

-- The errors of the form that Create shows for an error of CreateTodo.
unfoldable pub create_errors : Strings → GoError → FormErrors
unfolding text assign
create_errors str e =
    if is e validation
    then (let fields = assign "label" "Label is required" [] in
        let msg = text e in
        record {
          global = "";
          fields = some (
              if str.contains msg ":"
              then assign "label"
                  (str.trim_space (str.slice_from msg (behind (str.last_index msg ":")))) fields
              else fields);
        })
    else record { global = "Could not create todo"; fields = some [] }

-- items, _ := …
abbrev items_of : Result (List Todo) → List Todo
items_of (ok items) = items
items_of (err e) = []

module _ {S : Type 0} (svc : TodosService.Service S) (h : Surroundings) where
  unfoldable pub page : List Todo → TodoForm → FormErrors → Exchange → ListPage × Exchange
  unfolding new_shell
  page items form errs x =
      let (sh, y) = new_shell h.codec h.cfg h.ctx "Todos" "todos" h.random x in
      (record { shell = sh; todos = items; form = form; errors = errs }, y)

  -- The fragment for htmx, the whole page for others.
  abbrev pub show_list : ListPage → Op Exchange (Unit {0})
  show_list d x =
      if is_htmx x.request
      then render_fragment h.views "fragments/todos/list.html" d x
      else render_app h.views "pages/todos/list.html" d x

  unfoldable pub list : Op (Web S) (Unit {0})
  unfolding page render_fragment render_app is_htmx
  list = do
    items ← on_world (TodosService.list_all_todos svc h.ctx)
    d ← on_exchange (reading (page items empty_form no_errors))
    on_exchange (show_list d)

  abbrev pub refuse_by : ListPage → Op Exchange (Unit {0})
  refuse_by d x =
      if is_htmx x.request
      then render_fragment_status h.views 422 "pages/todos/list.html" d x
      else render_app_status h.views 422 "pages/todos/list.html" d x

  unfoldable pub refuse : TodoForm → GoError → Op (Web S) (Unit {0})
  unfolding page render_fragment_status render_app_status is_htmx create_errors
  refuse form e = do
    items ←
        on_world (λ s. let (r, t) = TodosService.list_all_todos svc h.ctx s in (ok (items_of r), t))
    d ← on_exchange (reading (page items form (create_errors h.strings e)))
    on_exchange (refuse_by d)

  -- A todo was created.
  unfoldable pub accept : Op (Web S) (Unit {0})
  unfolding page render_fragment flash_success is_htmx
  accept w =
      if is_htmx w.exchange.request
      then ((do
        items ← on_world (TodosService.list_all_todos svc h.ctx)
        d ← on_exchange (reading (page items empty_form no_errors))
        on_exchange (render_fragment h.views "fragments/todos/list.html" d))
          w)
      else (on_exchange
          (flashing (λ f. flash_success h.codec f "Todo created") >> redirect_to 303 "/app/todos")
          w)

  unfoldable pub create : Uuid → Time → Op (Web S) (Unit {0})
  unfolding refuse accept
  create new_id now w =
      let label = h.strings.trim_space (w.exchange.request.form_value "label") in
      attempt
        (on_world (
          TodosService.create_todo svc h.ctx (record { label = label; completed = false }) new_id
            now))
        (refuse (record { label = label })) (λ t. accept) w

  unfoldable pub delete : (String → Option Uuid) → Op (Web S) (Unit {0})
  unfolding list flash_success
  delete parse w =
      (do
        done ← on_world (TodosService.delete_todo svc parse h.ctx (w.exchange.request.param "id"))
        on_exchange (flashing (λ f. flash_success h.codec f "Todo deleted"))
        list)
        w
