-- ===== src/Reports/Service/History.antt =====
-- What holds through any history of calls of the service, by any callers in any order.
use base_template_server_go.Base.{Option, String, Time, none, some, subst, ◌≡◌}
use base_template_server_go.Authn.{Context}
use base_template_server_go.Reports.Domain.{CreateRequest, Report, Uuid}
use base_template_server_go.Reports.Spec.{Rows, Wired}
use base_template_server_go.Reports.Lifecycle.{AllValid, IsTerminal, Life, Life-trans, here}
use base_template_server_go.Reports.Lifecycle.Laws.{Life-IsValid, Life-terminal}
use base_template_server_go.Reports.Store.Evolution.{Evolves}
use base_template_server_go.Reports.Service.{
  Service, create_report, generate, get_report, list_reports, reconcile_pending,
}
use base_template_server_go.Reports.Service.Evolution.{
  create-Evolves, generate-Moves, get-report-Moves, list_reports-Moves, reconcile-Moves,
}

-- The states that calls of the service lead to. A new id is one that no row has.
pub data Runs {S : Type 0} (s : Service S) (rows : S → Rows) (x : S) : S → Type 0 where
  start : Runs s rows x x
  creating :
      {y : S}
      → Runs s rows x y
      → (ctx : Context) (req : CreateRequest) (id : Uuid) (now : Time) → rows y id ≡ none
      → Runs s rows x (create_report s ctx req id now y).1
  getting :
      {y : S}
      → Runs s rows x y
      → (parse : String → Option Uuid) (ctx : Context) (id : String)
      → Runs s rows x (get_report s parse ctx id y).1
  listing : {y : S} → Runs s rows x y → (ctx : Context) → Runs s rows x (list_reports s ctx y).1
  generating :
      {y : S}
      → Runs s rows x y
      → (ctx : Context) (id : Uuid) (now at : Time) → Runs s rows x (generate s ctx id now at y).1
  reconciling :
      {y : S} → Runs s rows x y → (now : Time) → Runs s rows x (reconcile_pending s now y).1

module _ {S : Type 0} (s : Service S) (rows : S → Rows) (w : Wired s rows) where
  Runs-Evolves : {x y : S} → Runs s rows x y → Evolves rows x y
  Runs-Evolves start id = here
  Runs-Evolves (creating r ctx req i now fresh) id =
      Life-trans (Runs-Evolves r id) (create-Evolves s rows w ctx req i now _ fresh id)
  Runs-Evolves (getting r parse ctx i) id =
      Life-trans (Runs-Evolves r id) ((get-report-Moves s rows w parse ctx i).at _ id)
  Runs-Evolves (listing r ctx) id =
      Life-trans (Runs-Evolves r id) ((list_reports-Moves s rows w ctx).at _ id)
  Runs-Evolves (generating r ctx i now at) id =
      Life-trans (Runs-Evolves r id) ((generate-Moves s rows w ctx i now at).at _ id)
  Runs-Evolves (reconciling r now) id =
      Life-trans (Runs-Evolves r id) ((reconcile-Moves s rows w now).at _ id)

  -- Once a report is completed or failed, no history of calls changes its row, whatever fails.
  terminal_absorbs :
      {x y : S}
      → Runs s rows x y
      → (id : Uuid) (r : Report) → rows x id ≡ some r
      → IsTerminal r
      → rows y id ≡ some r
  terminal_absorbs {x} {y} run id r e t =
      Life-terminal (subst (λ (o : Option Report). Life o (rows y id)) e (Runs-Evolves run id)) t

  -- If every row is valid (its fields fit its status), every row is valid after any history.
  pub Runs-IsValid :
      {x y : S}
      → Runs s rows x y
      → ((id : Uuid) → AllValid (rows x id))
      → (id : Uuid) → AllValid (rows y id)
  Runs-IsValid run v id = Life-IsValid (Runs-Evolves run id) (v id)
