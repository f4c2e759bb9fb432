-- ===== src/Reports/Lifecycle/Laws.antt =====
-- What a report keeps through its life.
use base_template_server_go.Base.{
  Option, String, Time, arith, eq_iff, false, inl, inr, nat_eq, refl, some, string_eq, true, ◌==◌,
  ◌≡◌, ◌≢◌, ◌⊎◌,
}
use base_template_server_go.Reports.Domain.{
  Report, status_completed, status_failed, status_pending, status_processing,
}
use base_template_server_go.Reports.Fake
use base_template_server_go.Reports.Fake.{claimed, finished, is_eligible, returned}
use base_template_server_go.Reports.Lifecycle.{
  AllValid, IsProcessing, IsTerminal, IsValid, Life, Step, claim, complete, completed, create, fail,
  failed, here, next, pending, processing, retry,
}

-- Two literals that `==` tells apart are not both the status.
differ : (s a b : String) → (a == b) ≡ false → s ≡ a → s ≢ b
differ s a b h e f = ground (arith, eq_iff a b, e, f)

IsProcessing-fields : {r : Report} → IsValid r → r.status ≡ status_processing → IsProcessing r
IsProcessing-fields (pending v) e =
    absurd (differ _ status_processing status_pending refl e v.status)
IsProcessing-fields (processing v) e = v
IsProcessing-fields (completed v) e =
    absurd (differ _ status_processing status_completed refl e v.status)
IsProcessing-fields (failed v) e = absurd (differ _ status_processing status_failed refl e v.status)

pub is_eligible-cases :
    (r : Report) (t : Time)
    → is_eligible r t ≡ true
    → (r.status ≡ status_pending) ⊎ (r.status ≡ status_processing)
unfolding is_eligible
is_eligible-cases r t e =
    ground (arith, eq_iff r.status status_pending, eq_iff r.status status_processing)

terminal_not_eligible : (r : Report) (t : Time) → IsTerminal r → is_eligible r t ≢ true
terminal_not_eligible r t h e = elim (is_eligible-cases r t e) [
  | inl p ↦ elim h [
    | inl c ↦ differ _ status_pending status_completed refl p c
    | inr c ↦ differ _ status_pending status_failed refl p c
  ]
  | inr p ↦ elim h [
    | inl c ↦ differ _ status_processing status_completed refl p c
    | inr c ↦ differ _ status_processing status_failed refl p c
  ]
]

terminal_not_processing : (r : Report) → IsTerminal r → r.status ≢ status_processing
terminal_not_processing r (inl c) p = differ _ status_processing status_completed refl p c
terminal_not_processing r (inr c) p = differ _ status_processing status_failed refl p c

-- Each step leaves a report whose fields fit its status.
Step-IsValid : {a b : Option Report} → Step a b → AllValid a → AllValid b
unfolding claimed returned finished Fake.failed
Step-IsValid (create r n) v = pending (ground arith)
Step-IsValid (claim r now t e) (pending v) = processing (ground arith)
Step-IsValid (claim r now t e) (processing v) = processing (ground arith)
Step-IsValid (claim r now t e) (completed v) = absurd (terminal_not_eligible r t (inl v.status) e)
Step-IsValid (claim r now t e) (failed v) = absurd (terminal_not_eligible r t (inr v.status) e)
Step-IsValid (retry r at e) v = pending (ground (arith, IsProcessing-fields v e))
Step-IsValid (complete r text at e) v = completed (ground (arith, IsProcessing-fields v e))
Step-IsValid (fail r code reason at e) v = failed (ground (arith, IsProcessing-fields v e))

pub Life-IsValid : {a b : Option Report} → Life a b → AllValid a → AllValid b
Life-IsValid here v = v
Life-IsValid (next l s) v = Step-IsValid s (Life-IsValid l v)

Step-terminal : {r : Report} {a b : Option Report} → Step a b → a ≡ some r → IsTerminal r → ⊥
Step-terminal (create r n) e t = cc
Step-terminal {r = q} (claim r now t e) p h = terminal_not_eligible q t h (ground (arith, e, p))
Step-terminal {r = q} (retry r at e) p h = terminal_not_processing q h (ground (arith, e, p))
Step-terminal {r = q} (complete r text at e) p h =
    terminal_not_processing q h (ground (arith, e, p))
Step-terminal {r = q} (fail r code reason at e) p h =
    terminal_not_processing q h (ground (arith, e, p))

-- A terminal report never changes again.
pub Life-terminal : {r : Report} {b : Option Report} → Life (some r) b → IsTerminal r → b ≡ some r
Life-terminal here t = refl
Life-terminal (next l s) t = absurd (Step-terminal s (Life-terminal l t) t)
