-- ===== src/Errors/Laws.antt =====
-- What marking an error as retryable keeps of its chain (internal/reports/domain.go, `Retryable`).
use base_template_server_go.Base.{◌≡◌, true, arith}
use base_template_server_go.Errors.{Sentinel, GoError, is, is_retryable, make_retryable}

-- A marked error is retryable, and `errors.Is` finds in it what it found before.
pub make_retryable_lem :
    (e : GoError) (s : Sentinel)
    → (is_retryable (make_retryable e) ≡ true) × (is (make_retryable e) s ≡ is e s)
unfolding make_retryable
make_retryable_lem e s = ground arith
