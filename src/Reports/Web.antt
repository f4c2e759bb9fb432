-- ===== src/Reports/Web.antt =====
-- internal/reports/web/web.go: the pages of reports. The values that the calls draw are arguments.
use base_template_server_go.Base.{List, Option, String, Time, if◌then◌else◌, ◌⧺◌}
use base_template_server_go.Op.{Op, ◌>>=◌, ◌>>◌}
use base_template_server_go.Authn.{Context}
use base_template_server_go.Config.{AuthConfig}
use base_template_server_go.Httpx.Flash.{Codec, flash_info}
use base_template_server_go.Httpx.Render.{
  Exchange, Shell, Views, blank_shell, is_htmx, redirect_to, render_app, render_fragment,
}
use base_template_server_go.Httpx.Shells.{Web, flashing, new_shell, on_exchange, on_world, reading}
use base_template_server_go.Reports.Domain.{Report, Uuid}
use base_template_server_go.Reports.Service as ReportsService

pub record ListPage : Type 0 where
  pub shell : Shell
  pub reports : List Report

pub record ShowPage : Type 0 where
  pub shell : Shell
  pub report : Report

pub record Surroundings : Type 0 where
  pub lists : Views ListPage
  pub shows : Views ShowPage
  pub codec : Codec
  pub cfg : AuthConfig
  pub ctx : Context
  pub random : String
  pub print_uuid : Uuid → String
  pub parse_uuid : String → Option Uuid

module _ {S : Type 0} (svc : ReportsService.Service S) (h : Surroundings) where
  abbrev pub list_page : List Report → Exchange → ListPage × Exchange
  list_page items x =
      let (sh, y) = new_shell h.codec h.cfg h.ctx "Reports" "reports" h.random x in
      (record { shell = sh; reports = items }, y)

  abbrev pub show_list : ListPage → Op Exchange (Unit {0})
  show_list d x =
      if is_htmx x.request
      then render_fragment h.lists "fragments/reports/list.html" d x
      else render_app h.lists "pages/reports/list.html" d x

  unfoldable pub list : Op (Web S) (Unit {0})
  unfolding new_shell render_fragment render_app is_htmx
  list = do
    items ← on_world (ReportsService.list_reports svc h.ctx)
    d ← on_exchange (reading (list_page items))
    on_exchange (show_list d)

  abbrev pub ordered : Report → Op (Web S) (Unit {0})
  unfolding list is_htmx
  ordered r w =
      if is_htmx w.exchange.request
      then list w
      else on_exchange (redirect_to 303 ("/app/reports/" ⧺ h.print_uuid r.report_id)) w

  unfoldable pub create : Uuid → Time → Op (Web S) (Unit {0})
  unfolding flash_info
  create new_id now w =
      (do
        r ← on_world (
            ReportsService.create_report svc h.ctx
              (record { type = w.exchange.request.form_value "type" }) new_id now)
        on_exchange (flashing (λ f. flash_info h.codec f "Report generation started"))
        ordered r)
        w

  abbrev pub show_page : Report → Exchange → ShowPage × Exchange
  show_page r x =
      let (sh, y) = new_shell h.codec h.cfg h.ctx "Report" "reports" h.random x in
      (record { shell = sh; report = r }, y)

  unfoldable pub show : Op (Web S) (Unit {0})
  unfolding new_shell render_app
  show w =
      (do
        r ←
            on_world
              (ReportsService.get_report svc h.parse_uuid h.ctx (w.exchange.request.param "id"))
        d ← on_exchange (reading (show_page r))
        on_exchange (render_app h.shows "pages/reports/show.html" d))
        w

  unfoldable pub status_fragment : Op (Web S) (Unit {0})
  unfolding render_fragment
  status_fragment w =
      (do
        r ←
            on_world
              (ReportsService.get_report svc h.parse_uuid h.ctx (w.exchange.request.param "id"))
        on_exchange (
            render_fragment h.shows "fragments/reports/status.html"
              (record { shell = blank_shell; report = r })))
        w
