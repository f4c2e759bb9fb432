-- ===== src/Base/Instants.antt =====
-- Instants and durations. An instant is a number of nanoseconds after the epoch, and a duration
-- (`time.Duration`, an int64 of nanoseconds) is an integer, since the configuration can hold a
-- negative one. `now.Add(-d)` stops at the epoch: no instant lies before it, so that a comparison
-- `t < now - d` has the same answer.
use Prim.Native.Nat.{ℕ, zero, suc, ◌+◌, ◌-◌, ◌<◌}
use mathlib.Core.Logic.{◌↔◌}
use mathlib.Core.Bool.{Bool, true, false}
use native.Mathlib.Omega.{arith}

abbrev pub Time : Type 0
Time = ℕ

pub data ℤ : Type 0 where
  pos : ℕ → ℤ
  negsuc : ℕ → ℤ

abbrev pub Duration : Type 0
Duration = ℤ

-- d > 0
abbrev pub is_positive : Duration → Bool
is_positive (pos zero) = false
is_positive (pos (suc _)) = true
is_positive (negsuc _) = false

-- now.Add(-d)
abbrev pub go_back : Time → Duration → Time
go_back now (pos n) = now - n
go_back now (negsuc n) = now + n + 1

-- now.Add(d)
abbrev pub go_on : Time → Duration → Time
go_on now (pos n) = now + n
go_on now (negsuc n) = now - n - 1

abbrev pub second : ℕ
second = 1000000000

abbrev pub minute : ℕ
minute = 60000000000

abbrev pub hour : ℕ
hour = 3600000000000

pub lt-go_back_iff : (t now n : ℕ) → (t < go_back now (pos n)) ↔ (t + n < now)
lt-go_back_iff t now n = (λ h. omega arith, λ h. omega arith)
