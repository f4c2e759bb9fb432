-- ===== src/Reports/Api.antt =====
-- internal/reports/api/api.go: the handlers. What c.Bind made of the body, the path parameter and the
-- values that the service draws are arguments.
use base_template_server_go.Base.{List, Option, String, Time, none, ◌⧺◌}
use base_template_server_go.Op.{Op, Result, lift, pure, rename, ◌>>=◌}
use base_template_server_go.Authn.{Context}
use base_template_server_go.Httpx.Answer.{Answer, bad_body, json_answer}
use base_template_server_go.Reports.Domain.{CreateRequest, Report, Uuid}
use base_template_server_go.Reports.Service as ReportsService

module _ {S : Type 0} (s : ReportsService.Service S) (ctx : Context) where
  unfoldable pub create :
      (Uuid → String) → Result CreateRequest → Uuid → Time → Op S (Answer Report)
  unfolding bad_body
  create print_uuid bind new_id now = do
    req ← lift (rename (λ e. bad_body "invalid body" none) bind)
    out ← ReportsService.create_report s ctx req new_id now
    pure (record {
      status = 202;
      location = "/api/v1/reports/" ⧺ print_uuid out.report_id;
      body = out;
    })

  unfoldable pub list : Op S (Answer (List Report))
  list = do out ← ReportsService.list_reports s ctx; pure (json_answer 200 out)

  unfoldable pub get : (String → Option Uuid) → String → Op S (Answer Report)
  get parse id = do out ← ReportsService.get_report s parse ctx id; pure (json_answer 200 out)
