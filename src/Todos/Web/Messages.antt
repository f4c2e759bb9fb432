-- ===== src/Todos/Web/Messages.antt =====
-- Where the messages of Create and Delete are shown.
use base_template_server_go.Base.{
  List, Option, Option-cases, String, Time, [], ap, false, inl, inr, nat_eq, negsuc, pos, refl,
  some, string_eq, true, ℤ, ◌++◌, ◌∙◌, ◌∷◌, ◌≡◌, ◌≢◌,
}
use base_template_server_go.Table.{find}
use base_template_server_go.Op.{ok}
use base_template_server_go.Config.{AuthConfig}
use base_template_server_go.Todos.{Todo, Uuid}
use base_template_server_go.Todos.Service as TodosService
use base_template_server_go.Todos.Web.{
  ListPage, Surroundings, TodoForm, accept, create, delete, empty_form, list, page,
}
use base_template_server_go.Httpx.Flash.{
  Flash, FlashContext, consume_flash, flash_success, peek_flash, peek_flash-set_cookies,
  peek_flash-set_flash, set_flash, set_flash-peek_flash,
}
use base_template_server_go.Httpx.Form.{FormErrors, no_errors}
use base_template_server_go.Httpx.Cookies.{Cookie}
use base_template_server_go.Httpx.Render.{
  Exchange, Incoming, arrived, flash_cookie_name, html, is_htmx, of_page, redirect,
}
use base_template_server_go.Httpx.Render.Success.{Renders}
use base_template_server_go.Httpx.Shells.{consume, csrf, new_shell}

csrf-keeps :
    (cfg : AuthConfig) (random : String) (x : Exchange)
    → ((csrf cfg random x).1.request ≡ x.request) × ((csrf cfg random x).1.flash ≡ x.flash)
unfolding csrf
csrf-keeps cfg random x = elim (Option-cases (find cfg.csrf_cookie_name x.request.cookies)) [
  | inl missing ↦ rw missing (refl, refl)
  | inr (value, e) ↦ rw e (refl, refl)
]

abbrev pub said : String → Flash
said msg = record { type = "success"; message = msg }

module _ {S : Type 0} (svc : TodosService.Service S) (h : Surroundings) where
  -- A page shows what was pending, and takes it.
  page-takes :
      (items : List Todo) (form : TodoForm) (errs : FormErrors) (x : Exchange)
      → let (d, y) = page svc h items form errs x in
        (d.shell.flash ≡ (peek_flash h.codec x.flash).0)
        × (y.request ≡ x.request)
        × (y.flash ≡ (consume_flash h.codec x.flash).1)
  unfolding page new_shell consume consume_flash
  page-takes items form errs x =
      let (same, kept) = csrf-keeps h.cfg h.random x in (rw kept refl, same, rw kept refl)

  -- A todo is created by a form, without htmx. The browser is redirected with a flash cookie, and
  -- any page of todos that it asks for next with that cookie shows "Todo created" behind the
  -- messages that were pending before, and tells the browser to drop the cookie. The codec must
  -- read back what it wrote.
  pub create-page :
      (new_id : Uuid) (now : Time) (req : Incoming) (cs : List Cookie) (s : S) (t : Todo)
      (raw : String) (next : Incoming) (ds : List Cookie) (items : List Todo) (form : TodoForm)
      (errs : FormErrors)
      → let label = h.strings.trim_space (req.form_value "label") in
        let pending = (peek_flash h.codec (arrived req cs).flash).0 in
        let y =
          (create svc h new_id now (record { world = s; exchange = arrived req cs })).1.exchange in
        let (d, z) = page svc h items form errs (arrived next ds) in
        (TodosService.create_todo svc h.ctx
            (record { label = label; completed = false })
            new_id
            now
            s).0
          ≡ ok t
        → is_htmx req ≡ false
        → h.codec.marshal (pending ++ said "Todo created" ∷ []) ≡ some raw
        → h.codec.unmarshal raw ≡ some (pending ++ said "Todo created" ∷ [])
        → h.codec.decode (h.codec.encode raw) ≡ some raw
        → h.codec.encode raw ≢ ""
        → find flash_cookie_name next.cookies ≡ some (h.codec.encode raw)
        → (y.response ≡ redirect 303 "/app/todos")
          × (y.flash.set_cookies ≡ (h.codec.encode raw, pos 300) ∷ [])
          × (d.shell.flash ≡ pending ++ said "Todo created" ∷ [])
          × (z.flash.set_cookies ≡ ("", negsuc 0) ∷ [])
  unfolding create accept flash_success consume_flash
  create-page new_id now req cs s t raw next ds items form errs made plain m u d given sent =
      let (now_set, cookies, later) =
        set_flash-peek_flash h.codec (arrived req cs).flash (said "Todo created") [] raw m u d
          given in
      let (shown, same, taken) = page-takes items form errs (arrived next ds) in
      (
        rw (made, plain) refl,
        rw (made, plain)
            (cookies
              ∙ ap (λ l. l ++ (h.codec.encode raw, pos 300) ∷ [])
                  (peek_flash-set_cookies h.codec (arrived req cs).flash)),
        shown ∙ rw sent later,
        ap (λ (f : FlashContext). f.set_cookies) taken
            ∙ (ap (λ l. l ++ ("", negsuc 0) ∷ [])
                (peek_flash-set_cookies h.codec (arrived next ds).flash)),
      )

  -- A todo is deleted from the page, by htmx. "Todo deleted" goes, behind the messages that were
  -- pending, to the fragment of the list that is answered, and nowhere else: afterwards nothing is
  -- pending, and the browser is told to drop its cookie. The deletion and the listing must succeed,
  -- and the templates must not fail.
  pub delete-consume :
      (parse : String → Option Uuid) (req : Incoming) (cs : List Cookie) (s : S) (items : List Todo)
      → let pending = (peek_flash h.codec (arrived req cs).flash).0 in
        let (gone, t) = TodosService.delete_todo svc parse h.ctx (req.param "id") s in
        let y = (delete svc h parse (record { world = s; exchange = arrived req cs })).1.exchange in
        Renders h.views
        → gone ≡ ok tt
        → (TodosService.list_all_todos svc h.ctx t).0 ≡ ok items
        → is_htmx req ≡ true
        → (d : ListPage) × (out : String) × (h.views.echo_render "fragments/todos/list.html"
              (of_page d)
            ≡ ok out)
          × (y.response ≡ html 200 out)
          × (d.todos ≡ items)
          × (d.shell.flash ≡ pending ++ said "Todo deleted" ∷ [])
          × ((peek_flash h.codec y.flash).0 ≡ [])
          × ((sent : List (String × ℤ)) × (y.flash.set_cookies ≡ sent ++ ("", negsuc 0) ∷ []))
  unfolding delete list flash_success consume_flash
  delete-consume parse req cs s items r gone listed asked =
      let f0 = (arrived req cs).flash in
      let told = set_flash h.codec f0 (said "Todo deleted" ∷ []) in
      let start : Exchange = record (arrived req cs) { flash = told } in
      let (shown, same, taken) = page-takes items empty_form no_errors start in
      let (d, z) = page svc h items empty_form no_errors start in
      let (out, e) = r.fragments "fragments/todos/list.html" (of_page d) in
      (
        d,
        out,
        e,
        rw (gone, listed, same, asked, e) refl,
        refl,
        shown ∙ peek_flash-set_flash h.codec f0 (said "Todo deleted") [],
        rw (gone, listed, same, asked, e) (ap (λ f. (peek_flash h.codec f).0) taken),
        (
          (peek_flash h.codec told).1.set_cookies,
          rw (gone, listed, same, asked, e) (ap (λ f. f.set_cookies) taken),
        ),
      )
