-- ===== src/Metrics/Counts.antt =====
-- What the counter of requests says about the requests.
use base_template_server_go.Base.{
  All, Bool, Bool-cases, List, String, [], ap, arith, decimal, if◌then◌else◌, inl, inr, nat_eq,
  string_eq, suc, ℕ, ◌&&◌, ◌+◌, ◌==◌, ◌∷◌, ◌≡◌,
}
use base_template_server_go.Op.{Op}
use base_template_server_go.Metrics.{
  Call, Metered, counted_status, middleware, observed, path_label,
}

-- A request: what is read of it, the seconds that it took, and its handler.
pub record Served (F S : Type 0) : Type 0 where
  pub call : Call
  pub elapsed : Metered F S → F
  pub next : Op (Metered F S) (Unit {0})

module _ {F S : Type 0} where
  abbrev step : Served F S → Metered F S → Metered F S
  step r w = (middleware r.call r.elapsed r.next w).1

  -- One request after another, each from the response that it starts with.
  unfoldable pub serve :
      (S → Metered F S → Metered F S) → List (S × Served F S) → Metered F S → Metered F S
  serve begin [] w = w
  serve begin ((s, r) ∷ rs) w = serve begin rs (step r (begin s w))

  -- The handler of a request leaves the counter alone.
  abbrev pub Leaves : Served F S → Type 0
  Leaves r =
      (w : Metered F S) → (r.next w).1.registry.http_requests_total ≡ w.registry.http_requests_total

  abbrev pub is_counted : String → String → String → Served F S → Metered F S → Bool
  is_counted m p code r w =
      let (res, y) = r.next w in
      r.call.method == m
      && path_label r.call.path == p
      && decimal (counted_status y.status res) == code

  -- How many of the requests have the labels, by their methods and paths and how they ended.
  unfoldable pub matching :
      (S → Metered F S → Metered F S)
      → String
      → String
      → String
      → List (S × Served F S)
      → Metered F S
      → ℕ
  matching begin m p code [] w = 0
  matching begin m p code ((s, r) ∷ rs) w =
      let rest = matching begin m p code rs (step r (begin s w)) in
      if is_counted m p code r (begin s w) then suc rest else rest

  step-counts :
      (r : Served F S) (w : Metered F S) (m p code : String)
      → Leaves r
      → (step r w).registry.http_requests_total m p code ≡ (
          if is_counted m p code r w
          then suc (w.registry.http_requests_total m p code)
          else w.registry.http_requests_total m p code)
  unfolding middleware observed
  step-counts r w m p code keeps =
      let same = ap (λ f. f m p code) (keeps w) in
      elim (Bool-cases (is_counted m p code r w)) [
        | inl here ↦ rw here (ap suc same)
        | inr away ↦ rw away same
      ]

  -- After any requests, one after another, the counter of a method, a path and a status has grown by
  -- the number of those that had this method and path and ended with this status in their response.
  -- The handlers must not count themselves.
  pub serve-matching :
      (begin : S → Metered F S → Metered F S) (rs : List (S × Served F S)) (w : Metered F S)
      (m p code : String)
      → ((s : S) (x : Metered F S)
          → (begin s x).registry.http_requests_total ≡ x.registry.http_requests_total)
      → All (λ (s, r). Leaves r) rs
      → (serve begin rs w).registry.http_requests_total m p code
        ≡ w.registry.http_requests_total m p code + matching begin m p code rs w
  unfolding serve matching
  serve-matching begin [] w m p code quiet keeps = omega arith
  serve-matching begin ((s, r) ∷ rs) w m p code quiet (keep, keeps) =
      let x = begin s w in
      let before : x.registry.http_requests_total m p code
          ≡ w.registry.http_requests_total m p code =
        ap (λ f. f m p code) (quiet s w) in
      let one = step-counts r x m p code keep in
      let rest = serve-matching begin rs (step r x) m p code quiet keeps in
      elim (Bool-cases (is_counted m p code r x)) [
        | inl here ↦ let one' = rw here at one in rw here (omega arith)
        | inr away ↦ let one' = rw away at one in rw away (omega arith)
      ]
