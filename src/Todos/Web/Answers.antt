-- ===== src/Todos/Web/Answers.antt =====
-- What Create answers.
use base_template_server_go.Base.{
  Bool, Bool-cases, List, Time, false, inl, inr, nat_eq, refl, string_eq, true, ℕ, ◌≡◌,
}
use base_template_server_go.Table.{assign}
use base_template_server_go.Errors.{GoError, is, text, validation}
use base_template_server_go.Todos.Service as TodosService
use base_template_server_go.Op.{Result, Result-cases, err, ok}
use base_template_server_go.Todos.{Todo, Uuid}
use base_template_server_go.Todos.Web.{
  ListPage, Strings, Surroundings, TodoForm, accept, create, create_errors, empty_form, items_of,
  page, refuse, refuse_by, show_list,
}
use base_template_server_go.Httpx.Cookies.{Cookie}
use base_template_server_go.Httpx.Form.{has, no_errors}
use base_template_server_go.Httpx.Render.{Exchange, Incoming, arrived, is_htmx}
use base_template_server_go.Httpx.Render.Success.{
  Answers, Renders, answer, render_app-Answers, render_app_status-Answers, render_fragment-Answers,
  render_fragment_status-Answers,
}
use base_template_server_go.Httpx.Shells.{Web}

-- Some error is shown for every error.
create_errors-has : (str : Strings) (e : GoError) → has (create_errors str e) ≡ true
unfolding create_errors has assign
create_errors-has str e = elim (Bool-cases (is e validation)) [
  | inl bad ↦ elim (Bool-cases (str.contains (text e) ":")) [
    | inl long ↦ rw (bad, long) refl
    | inr short ↦ rw (bad, short) refl
  ]
  | inr other ↦ rw other refl
]

-- What the call returns, and the status that is written; 0 stands for none.
abbrev pub accept_answer : Bool → Result (List Todo) → Result (Unit {0}) × ℕ
accept_answer false listed = (ok tt, 303)
accept_answer true (ok items) = (ok tt, 200)
accept_answer true (err e) = (err e, 0)

abbrev pub create_answer : Result Todo → Bool → Result (List Todo) → Result (Unit {0}) × ℕ
create_answer (err e) asked listed = (ok tt, 422)
create_answer (ok t) asked listed = accept_answer asked listed

module _ {S : Type 0} (svc : TodosService.Service S) (h : Surroundings) (r : Renders h.views) where
  refuse_by-Answers : (d : ListPage) (x : Exchange) → Answers 422 (refuse_by svc h d x)
  refuse_by-Answers d x = elim (Bool-cases (is_htmx x.request)) [
    | inl asked ↦
        rw asked (render_fragment_status-Answers h.views r 422 "pages/todos/list.html" d x)
    | inr other ↦ rw other (render_app_status-Answers h.views r 422 "pages/todos/list.html" d x)
  ]

  show_list-Answers : (d : ListPage) (x : Exchange) → Answers 200 (show_list svc h d x)
  show_list-Answers d x = elim (Bool-cases (is_htmx x.request)) [
    | inl asked ↦ rw asked (render_fragment-Answers h.views r "fragments/todos/list.html" d x)
    | inr other ↦ rw other (render_app-Answers h.views r "pages/todos/list.html" d x)
  ]

  refuse-Answers :
      (form : TodoForm) (e : GoError) (x : Web S)
      → let (res, y) = refuse svc h form e x in Answers 422 (res, y.exchange)
  unfolding refuse
  refuse-Answers form e x =
      let (rows, s) = TodosService.list_all_todos svc h.ctx x.world in
      let (d, y) = page svc h (items_of rows) form (create_errors h.strings e) x.exchange in
      refuse_by-Answers d y

  accepted :
      (listed : Result (List Todo)) (req : Incoming) (cs : List Cookie) (s : S)
      → (TodosService.list_all_todos svc h.ctx s).0 ≡ listed
      → let (res, y) = accept svc h (record { world = s; exchange = arrived req cs }) in
        answer (res, y.exchange) ≡ accept_answer (is_htmx req) listed
  unfolding accept
  accepted (ok items) req cs s e = elim (Bool-cases (is_htmx req)) [
    | inl asked ↦
        let t = (TodosService.list_all_todos svc h.ctx s).1 in
        let (d, y) = page svc h items empty_form no_errors (arrived req cs) in
        rw (asked, e) (render_fragment-Answers h.views r "fragments/todos/list.html" d y)
    | inr other ↦ rw other refl
  ]
  accepted (err z) req cs s e = elim (Bool-cases (is_htmx req)) [
    | inl asked ↦ rw (asked, e) refl
    | inr other ↦ rw other refl
  ]

  -- What the user gets for his todo. CreateTodo failed: status 422, whatever the failure was. It
  -- did not: a redirect to the list with 303, or, for htmx, the fragment of the list with 200;
  -- there an error of the listing is returned and nothing is written. The templates must not fail.
  pub create-Answers :
      (new_id : Uuid) (now : Time) (req : Incoming) (cs : List Cookie) (s : S)
      → let label = h.strings.trim_space (req.form_value "label") in
        let (made, t) =
          TodosService.create_todo svc h.ctx
            (record { label = label; completed = false })
            new_id
            now
            s in
        let (res, y) = create svc h new_id now (record { world = s; exchange = arrived req cs }) in
        answer (res, y.exchange)
        ≡ create_answer made (is_htmx req) (TodosService.list_all_todos svc h.ctx t).0
  unfolding create
  create-Answers new_id now req cs s =
      let label = h.strings.trim_space (req.form_value "label") in
      let m =
        TodosService.create_todo svc h.ctx (record { label = label; completed = false }) new_id
          now in
      elim (Result-cases (m s).0) [
        | inl (t, e) ↦ rw e (accepted _ req cs (m s).1 refl)
        | inr (z, e) ↦ rw e (
            refuse-Answers (record { label = label }) z
              (record { world = (m s).1; exchange = arrived req cs }))
      ]
