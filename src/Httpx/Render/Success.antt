-- ===== src/Httpx/Render/Success.antt =====
-- Rendering where the templates do not fail.
use base_template_server_go.Base.{Option, String, inl, inr, none, refl, some, ℕ, ◌≡◌}
use base_template_server_go.Op.{Result, Result-cases, ok}
use base_template_server_go.Errors.{GoError}
use base_template_server_go.Httpx.Render.{
  Exchange, Response, View, Views, buffered, execute, extract_shell, html, in_layout, of_page,
  redirect, render, render_app, render_app_status, render_auth_status, render_fragment,
  render_fragment_status, render_layout, renderer_from, unsent, written,
}

-- The templates were loaded, and every template can be executed.
pub record Renders {P : Type 0} (lib : Views P) : Type 0 where
  pub loaded : (renderer_from lib).error ≡ none
  pub executes :
      (name : String) (v : View P) → ((renderer_from lib).execute_template name v).1 ≡ none
  pub fragments : (name : String) (v : View P) → (out : String) × (lib.echo_render name v ≡ ok out)

abbrev pub code_of : Response → ℕ
code_of unsent = 0
code_of (html status body) = status
code_of (redirect status url) = status

-- What the call returned, and the status that was written.
abbrev pub answer : Result (Unit {0}) × Exchange → Result (Unit {0}) × ℕ
answer (r, x) = (r, code_of x.response)

abbrev pub Answers : ℕ → Result (Unit {0}) × Exchange → Type 0
Answers status a = answer a ≡ (ok tt, status)

buffered-clean : (p : String × Option GoError) → p.1 ≡ none → buffered p ≡ ok p.0
buffered-clean (out, none) h = refl
buffered-clean (out, some e) h = absurd (cc h)

written-Answers :
    (status : ℕ) (p : String × Option GoError) (x : Exchange)
    → p.1 ≡ none
    → Answers status (written status p x)
written-Answers status (out, none) x h = refl
written-Answers status (out, some e) x h = absurd (cc h)

module _ {P : Type 0} (lib : Views P) (r : Renders lib) where
  render-Answers :
      (status : ℕ) (name : String) (v : View P) (x : Exchange)
      → Answers status (written status (render (renderer_from lib) name v) x)
  unfolding render
  render-Answers status name v x = rw (r.loaded) (written-Answers status _ x (r.executes name v))

  execute-clean :
      (name : String) (v : View P)
      → execute (renderer_from lib) name v ≡ ok ((renderer_from lib).execute_template name v).0
  unfolding execute
  execute-clean name v = rw (r.loaded) (buffered-clean _ (r.executes name v))

  render_layout-Answers :
      (status : ℕ) (outer name : String) (d : P) (x : Exchange)
      → Answers status (render_layout lib status outer name d x)
  unfolding render_layout
  render_layout-Answers status outer name d x =
      rw (execute-clean name (of_page d)) (render-Answers status outer _ x)

  pub render_app-Answers :
      (name : String) (d : P) (x : Exchange) → Answers 200 (render_app lib name d x)
  unfolding render_app
  render_app-Answers name d x = render_layout-Answers 200 "layouts/app.html" name d x

  pub render_app_status-Answers :
      (status : ℕ) (name : String) (d : P) (x : Exchange)
      → Answers status (render_app_status lib status name d x)
  unfolding render_app_status
  render_app_status-Answers status name d x =
      render_layout-Answers status "layouts/app.html" name d x

  pub render_auth_status-Answers :
      (status : ℕ) (name : String) (d : P) (x : Exchange)
      → Answers status (render_auth_status lib status name d x)
  unfolding render_auth_status
  render_auth_status-Answers status name d x =
      render_layout-Answers status "layouts/auth.html" name d x

  pub render_fragment-Answers :
      (name : String) (d : P) (x : Exchange) → Answers 200 (render_fragment lib name d x)
  unfolding render_fragment
  render_fragment-Answers name d x = let (out, e) = r.fragments name (of_page d) in rw e refl

  pub render_fragment_status-Answers :
      (status : ℕ) (name : String) (d : P) (x : Exchange)
      → Answers status (render_fragment_status lib status name d x)
  unfolding render_fragment_status
  render_fragment_status-Answers status name d x = render-Answers status name (of_page d) x

-- Rendering sets no cookie.
written-cookies :
    (status : ℕ) (p : String × Option GoError) (x : Exchange)
    → (written status p x).1.set_cookies ≡ x.set_cookies
written-cookies status (out, none) x = refl
written-cookies status (out, some e) x = refl

pub render_auth_status-cookies :
    {P : Type 0} (lib : Views P) (status : ℕ) (name : String) (d : P) (x : Exchange)
    → (render_auth_status lib status name d x).1.set_cookies ≡ x.set_cookies
unfolding render_auth_status render_layout
render_auth_status-cookies lib status name d x =
    elim (Result-cases (execute (renderer_from lib) name (of_page d))) [
      | inl (body, e) ↦ rw e (
          written-cookies status
            (render (renderer_from lib) "layouts/auth.html"
              (in_layout (extract_shell lib d) body d))
            x)
      | inr (z, e) ↦ rw e refl
    ]
