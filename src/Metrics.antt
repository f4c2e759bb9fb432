-- ===== src/Metrics.antt =====
-- internal/platform/metrics/metrics.go: what is counted of requests and jobs. A counter is a function
-- of its labels, a histogram or summary the list of its observations; float64 is an argument.
pub mod Counts
pub mod Failures
mod Tests
use base_template_server_go.Base.{
  List, Option, String, [], decimal, if◌then◌else◌, ltb, nat_eq, none, some, string_eq, suc, ℕ,
  ◌&&◌, ◌++◌, ◌==◌, ◌∷◌,
}
use base_template_server_go.Op.{Op, Result, is_ok}

pub record Registry (Float : Type 0) : Type 0 where
  pub http_requests_total : String → String → String → ℕ
  pub http_request_duration : List (String × String × Float)
  pub http_request_size_bytes : List (String × String × ℕ)
  pub http_response_size_bytes : List (String × String × ℕ)
  pub jobs_processed_total : String → String → ℕ

abbrev inc3 :
    String → String → String → (String → String → String → ℕ) → String → String → String → ℕ
inc3 a b c f x y z = if a == x && b == y && c == z then suc (f x y z) else f x y z

abbrev inc2 : String → String → (String → String → ℕ) → String → String → ℕ
inc2 a b f x y = if a == x && b == y then suc (f x y) else f x y

unfoldable pub job_processed : {F : Type 0} → String → String → Registry F → Registry F
job_processed type status reg = record reg {
  jobs_processed_total = inc2 type status reg.jobs_processed_total;
}

-- What the middleware reads of c: `status` and `size` are those of c.Response().
pub record Metered (F S : Type 0) : Type 0 where
  pub registry : Registry F
  pub status : ℕ
  pub size : ℕ
  pub rest : S

-- `content_length` is none for an unknown length.
pub record Call : Type 0 where
  pub method : String
  pub path : String
  pub content_length : Option ℕ

abbrev pub path_label : String → String
path_label path = if path == "" then "unmatched" else path

abbrev pub counted_status : {A : Type 0} → ℕ → Result A → ℕ
counted_status status r = if status == 0 then (if is_ok r then 200 else 500) else status

abbrev sized : Option ℕ → ℕ
sized none = 0
sized (some n) = n

abbrev observe_size : String → String → ℕ → List (String × String × ℕ) → List (String × String × ℕ)
observe_size method path n seen = if ltb 0 n then seen ++ (method, path, n) ∷ [] else seen

module _ {F : Type 0} where
  unfoldable pub observed : Call → F → ℕ → ℕ → Registry F → Registry F
  unfolding decimal
  observed call elapsed status size reg =
      let path = path_label call.path in
      record {
        http_requests_total = inc3 call.method path (decimal status) reg.http_requests_total;
        http_request_duration = reg.http_request_duration ++ (call.method, path, elapsed) ∷ [];
        http_request_size_bytes =
            observe_size call.method path (sized call.content_length) reg.http_request_size_bytes;
        http_response_size_bytes = observe_size call.method path size reg.http_response_size_bytes;
        jobs_processed_total = reg.jobs_processed_total;
      }

module _ {F S : Type 0} where
  -- Middleware. `elapsed` is a function of the state in which the handler ended.
  unfoldable pub middleware :
      Call → (Metered F S → F) → Op (Metered F S) (Unit {0}) → Op (Metered F S) (Unit {0})
  unfolding observed
  middleware call elapsed next w =
      let (r, y) = next w in
      (
        r,
        record y {
          registry = observed call (elapsed y) (counted_status y.status r) y.size y.registry;
        },
      )
