-- ===== src/Todos/Web/Tests.antt =====
-- Forms and a deletion over the in-memory store, and the theorems at them.
use base_template_server_go.Todos.Web.Messages.{create-page, delete-consume, said}
use base_template_server_go.Base.{
  List, Option, String, [], false, if◌then◌else◌, nat_eq, negsuc, none, pos, refl, some, string_eq,
  true, ℤ, ◌++◌, ◌==◌, ◌∷◌, ◌≡◌,
}
use base_template_server_go.Op.{Result, ok}
use base_template_server_go.Authn.{background, from_context, require_authenticated, with_principal}
use base_template_server_go.Todos.{Todo, Uuid}
use base_template_server_go.Todos.Fake
use base_template_server_go.Todos.Laws.{in_memory}
use base_template_server_go.Todos.Service as TodosService
use base_template_server_go.Table.{assign, find, remove}
use base_template_server_go.Httpx.Form.{no_errors}
use base_template_server_go.Httpx.Shells.{Web}
use base_template_server_go.Todos.Web.{
  ListPage, Surroundings, accept, create, delete, empty_form, page,
}
use base_template_server_go.Todos.Web.Answers.{create-Answers, create_answer}
use base_template_server_go.Httpx.Flash.{Codec, peek_flash}
use base_template_server_go.Httpx.Render.{
  Incoming, Renderer, arrived, flash_cookie_name, html, is_htmx, of_page, redirect, renderer_from,
}
use base_template_server_go.Httpx.Render.Success.{Renders, answer}

abbrev shelf : Fake.FakeStore
shelf =
    (2, record { todo_id = 2; created_at = 1; updated_at = 1; label = "milk"; completed = false })
    ∷ []

abbrev codec : Codec
codec = record {
  marshal = λ fs. some "m";
  unmarshal = λ s. some (record { type = "success"; message = "Todo created" } ∷ []);
  encode = λ s. "x";
  decode = λ s. some "m";
}

abbrev renderer : Renderer ListPage
renderer = record { error = none; execute_template = λ name v. ("<p>", none) }

abbrev around : Surroundings
around = record {
  views = record {
    default_renderer = some renderer;
    echo_renderer = none;
    new_renderer = λ root. renderer;
    echo_render = λ name v. ok "<li>";
    shell_of = λ d. some d.shell;
  };
  codec = codec;
  strings = record {
    trim_space = λ s. if s == " bread " then "bread" else "";
    contains = λ s t. true;
    last_index = λ s t. some 16;
    slice_from = λ s n. " label is required";
  };
  cfg = record {
    disabled = false;
    session_cookie = "s";
    session_ttl = pos 100;
    csrf_cookie_name = "c";
    token_ttl = pos 100;
    bcrypt_cost = pos 10;
  };
  ctx = with_principal background (record { user_id = "u1"; roles = []; auth_method = "cookie" });
  random = "t0";
}

renders : Renders around.views
unfolding renderer_from
renders = record { loaded = refl; executes = λ name v. refl; fragments = λ name v. ("<li>", refl) }

-- A POST of the form; with `htmx`, the header too. The parameter is that of the DELETE.
abbrev sent : String → String → Incoming
sent label htmx = record {
  cookies = [];
  header = λ name. if name == "HX-Request" then htmx else "";
  form_value = λ name. label;
  param = λ name. "two";
}

abbrev parse : String → Option Uuid
parse s = if s == "two" then some 2 else none

abbrev submitted : Incoming → Result (Unit {0}) × Web Fake.FakeStore
submitted req =
    create (in_memory false) around 5 9 (record { world = shelf; exchange = arrived req [] })

abbrev made : Incoming → Result Todo × Fake.FakeStore
made req =
    TodosService.create_todo (in_memory false) around.ctx
      (record { label = around.strings.trim_space (req.form_value "label"); completed = false }) 5 9
      shelf

-- A form that creates a todo is answered with a redirect.
created :
    ((made (sent " bread " "")).0
      ≡ ok (record {
        todo_id = 5;
        created_at = 9;
        updated_at = 9;
        label = "bread";
        completed = false;
      }))
    × (answer ((submitted (sent " bread " "")).0, (submitted (sent " bread " "")).1.exchange)
        ≡ (ok tt, 303))
unfolding TodosService.create_todo TodosService.authorize TodosService.new_service with_principal
    from_context require_authenticated Fake.store Fake.create_todo assign create accept is_htmx
created = (refl, refl)

create-Answers_example :
    answer ((submitted (sent "" "true")).0, (submitted (sent "" "true")).1.exchange)
    ≡ create_answer
        (made (sent "" "true")).0
        (is_htmx (sent "" "true"))
        (TodosService.list_all_todos (in_memory false) around.ctx (made (sent "" "true")).1).0
create-Answers_example =
    create-Answers (in_memory false) around renders 5 9 (sent "" "true") [] shelf

abbrev following : Incoming
following = record (sent "" "") { cookies = (flash_cookie_name, "x") ∷ [] }

create-page_example :
    let y = (submitted (sent " bread " "")).1.exchange in
    let (d, z) = page (in_memory false) around [] empty_form no_errors (arrived following []) in
    (y.response ≡ redirect 303 "/app/todos")
    × (y.flash.set_cookies ≡ ("x", pos 300) ∷ [])
    × (d.shell.flash
        ≡ (peek_flash codec (arrived (sent " bread " "") []).flash).0 ++ said "Todo created" ∷ [])
    × (z.flash.set_cookies ≡ ("", negsuc 0) ∷ [])
unfolding is_htmx peek_flash find
create-page_example =
    create-page (in_memory false) around 5 9 (sent " bread " "") [] shelf _ "m" following [] []
      empty_form no_errors created.0 refl refl refl refl (λ e. absurd (cc e)) refl

deleted :
    ((TodosService.delete_todo (in_memory false) parse around.ctx "two" shelf).0 ≡ ok tt)
    × ((TodosService.list_all_todos
          (in_memory false)
          around.ctx
          (TodosService.delete_todo (in_memory false) parse around.ctx "two" shelf).1).0
        ≡ ok [])
unfolding TodosService.delete_todo TodosService.list_all_todos TodosService.authorize
    TodosService.new_service with_principal from_context require_authenticated Fake.store
    Fake.delete_todo Fake.find_todo_by_id Fake.list_all_todos Fake.or_no_rows find remove
deleted = (refl, refl)

delete-consume_example :
    let y =
      (delete
        (in_memory false)
        around
        parse
        (record { world = shelf; exchange = arrived (sent "" "true") [] })).1.exchange in
    (d : ListPage) × (out : String) × (around.views.echo_render "fragments/todos/list.html"
        (of_page d)
      ≡ ok out)
    × (y.response ≡ html 200 out)
    × (d.todos ≡ [])
    × (d.shell.flash
        ≡ (peek_flash codec (arrived (sent "" "true") []).flash).0 ++ said "Todo deleted" ∷ [])
    × ((peek_flash codec y.flash).0 ≡ [])
    × ((before : List (String × ℤ)) × (y.flash.set_cookies ≡ before ++ ("", negsuc 0) ∷ []))
unfolding is_htmx
delete-consume_example =
    delete-consume (in_memory false) around parse (sent "" "true") [] shelf [] renders deleted.0
      deleted.1 refl
