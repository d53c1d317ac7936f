-- ===== src/Webhook/Tests.antt =====
-- The theorems of src/webhook at concrete inputs.
use risoluto.Prelude.{codes, arith}
use risoluto.Webhook.Health.{
  HealthTracker, new_health_tracker, record_verified_delivery, begun, continued, delivered,
}
use risoluto.Webhook.Health.Laws.{IsSound}
use risoluto.Webhook.Health.Runs.{Run-IsSound}

abbrev first_delivery : HealthTracker
first_delivery = record_verified_delivery 5 (codes "now") (codes "Issue") new_health_tracker

Run-IsSound_example : IsSound first_delivery
Run-IsSound_example = Run-IsSound 5 first_delivery (
    continued 0 5 new_health_tracker first_delivery (begun 0) (omega arith)
      (delivered 5 (codes "now") (codes "Issue") new_health_tracker))
