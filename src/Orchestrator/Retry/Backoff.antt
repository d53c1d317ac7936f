-- ===== src/Orchestrator/Retry/Backoff.antt =====
-- The delays of src/orchestrator/retry-coordinator.ts.
use native.Mathlib.Nat.{pow-suc}
use risoluto.Prelude.{ℕ, ◌+◌, ◌-◌, ◌*◌, ◌^◌, ◌≤◌, min, ◌≡◌, ap, ◌∙◌, arith}
use risoluto.Orchestrator.Retry.{compute_backoff_for_attempt}

-- The delay never passes the bound and never falls from one attempt to the next; it starts at ten
-- seconds, or the bound where that is less, and doubles as long as twice the delay is within the bound.
pub compute_backoff_for_attempt_lem :
    (n max_backoff_ms : ℕ)
    → (compute_backoff_for_attempt n max_backoff_ms ≤ max_backoff_ms)
      × (compute_backoff_for_attempt n max_backoff_ms
          ≤ compute_backoff_for_attempt (n + 1) max_backoff_ms)
      × (compute_backoff_for_attempt 0 max_backoff_ms ≡ min 10000 max_backoff_ms)
      × (2 * compute_backoff_for_attempt n max_backoff_ms ≤ max_backoff_ms
          → compute_backoff_for_attempt (n + 1) max_backoff_ms
            ≡ 2 * compute_backoff_for_attempt n max_backoff_ms)
unfolding compute_backoff_for_attempt
compute_backoff_for_attempt_lem n max_backoff_ms =
    let here : 2 ^ (n + 1 - 1) ≡ 2 ^ n = ap (λ k. 2 ^ k) (omega arith) in
    let next : 2 ^ (n + 1 + 1 - 1) ≡ 2 ^ n * 2 = ap (λ k. 2 ^ k) (omega arith) ∙ pow-suc 2 n in
    (omega (arith, here), omega (arith, here, next), omega arith, λ h. omega (arith, here, next, h))
