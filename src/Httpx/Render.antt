-- ===== src/Httpx/Render.antt =====
-- internal/platform/httpx/render.go: pages in layouts and fragments. Templates are executed by
-- html/template, which may fail behind a part of its output; what it does with a name and a view is
-- an argument, and so is c.Render, which writes nothing beside an error. `P` is the type of the data
-- of a page, `Exchange` what a handler reads and writes of an echo.Context.
pub mod Success
use base_template_server_go.Base.{
  Bool, List, Option, String, [], nat_eq, none, some, string_eq, ℕ, ◌++◌, ◌==◌, ◌∷◌,
}
use base_template_server_go.Table.{find}
use base_template_server_go.Errors.{GoError}
use base_template_server_go.Op.{Op, Result, err, lift, ok, ◌>>=◌, ◌>>◌}
use base_template_server_go.Httpx.Cookies.{Cookie}
use base_template_server_go.Httpx.Flash.{Flash, FlashContext}

pub record Shell : Type 0 where
  pub title : String
  pub csrf : String
  pub flash : List Flash
  pub user : String
  pub nav : String

abbrev pub blank_shell : Shell
blank_shell = record { title = ""; csrf = ""; flash = []; user = ""; nav = "" }

-- The data of a template: that of a page, or layoutView.
pub data View (P : Type 0) : Type 0 where
  of_page : P → View P
  in_layout : (shell : Shell) → (content : String) → (d : P) → View P

-- `error` is that of loading the templates, which `once` does; `execute_template` gives what was
-- written and the error behind it.
pub record Renderer (P : Type 0) : Type 0 where
  pub error : Option GoError
  pub execute_template : String → View P → String × Option GoError

pub record Views (P : Type 0) : Type 0 where
  pub default_renderer : Option (Renderer P)
  pub echo_renderer : Option (Renderer P)
  pub new_renderer : String → Renderer P
  pub echo_render : String → View P → Result String
  pub shell_of : P → Option Shell

-- Header.Get, c.FormValue and c.Param.
pub record Incoming : Type 0 where
  pub cookies : List (String × String)
  pub header : String → String
  pub form_value : String → String
  pub param : String → String

pub data Response : Type 0 where
  unsent : Response
  html : (status : ℕ) → (body : String) → Response
  redirect : (status : ℕ) → (url : String) → Response

-- The flash cookies that are set stand in `flash`, all others in `set_cookies`.
pub record Exchange : Type 0 where
  pub request : Incoming
  pub flash : FlashContext
  pub set_cookies : List Cookie
  pub response : Response

abbrev pub flash_cookie_name : String
flash_cookie_name = "flash_messages"

-- The exchange of a request, behind middlewares that set cookies.
abbrev pub arrived : Incoming → List Cookie → Exchange
arrived req cs = record {
  request = req;
  flash = record { stored = none; cookie = find flash_cookie_name req.cookies; set_cookies = [] };
  set_cookies = cs;
  response = unsent;
}

abbrev pub set_cookie : Cookie → Exchange → Exchange
set_cookie c x = record x { set_cookies = x.set_cookies ++ c ∷ [] }

unfoldable pub is_htmx : Incoming → Bool
is_htmx req = req.header "HX-Request" == "true"

-- return c.Redirect(…)
abbrev pub redirect_to : ℕ → String → Op Exchange (Unit {0})
redirect_to status url x = (ok tt, record x { response = redirect status url })

abbrev pub buffered : String × Option GoError → Result String
buffered (out, none) = ok out
buffered (out, some e) = err e

-- WriteHeader(status), then what was written before an error.
abbrev pub written : ℕ → String × Option GoError → Op Exchange (Unit {0})
written status (out, none) x = (ok tt, record x { response = html status out })
written status (out, some e) x = (err e, record x { response = html status out })

module _ {P : Type 0} where
  unfoldable pub render : Renderer P → String → View P → String × Option GoError
  render r name d = elim r.error [ some e ↦ ("", some e) | none ↦ r.execute_template name d ]

  unfoldable pub execute : Renderer P → String → View P → Result String
  execute r name d = elim r.error [ some e ↦ err e | none ↦ buffered (r.execute_template name d) ]

module _ {P : Type 0} (lib : Views P) where
  unfoldable pub renderer_from : Renderer P
  renderer_from = elim lib.default_renderer [
    | some r ↦ r
    | none ↦ elim lib.echo_renderer [ some r ↦ r | none ↦ lib.new_renderer "web/templates" ]
  ]

  unfoldable pub extract_shell : P → Shell
  extract_shell d = elim (lib.shell_of d) [ some s ↦ s | none ↦ blank_shell ]

  unfoldable pub render_layout : ℕ → String → String → P → Op Exchange (Unit {0})
  unfolding renderer_from execute extract_shell render
  render_layout status outer name d = do
    body ← lift (execute renderer_from name (of_page d))
    written status (render renderer_from outer (in_layout (extract_shell d) body d))

  unfoldable pub render_app : String → P → Op Exchange (Unit {0})
  unfolding render_layout
  render_app name d = render_layout 200 "layouts/app.html" name d

  unfoldable pub render_app_status : ℕ → String → P → Op Exchange (Unit {0})
  unfolding render_layout
  render_app_status status name d = render_layout status "layouts/app.html" name d

  unfoldable pub render_auth : String → P → Op Exchange (Unit {0})
  unfolding render_layout
  render_auth name d = render_layout 200 "layouts/auth.html" name d

  unfoldable pub render_auth_status : ℕ → String → P → Op Exchange (Unit {0})
  unfolding render_layout
  render_auth_status status name d = render_layout status "layouts/auth.html" name d

  unfoldable pub render_fragment : String → P → Op Exchange (Unit {0})
  render_fragment name d = do out ← lift (lib.echo_render name (of_page d)); written 200 (out, none)

  unfoldable pub render_fragment_status : ℕ → String → P → Op Exchange (Unit {0})
  unfolding renderer_from render
  render_fragment_status status name d = written status (render renderer_from name (of_page d))
