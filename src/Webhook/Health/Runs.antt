-- ===== src/Webhook/Health/Runs.antt =====
-- The runs of the tracker, and its recovery.
use risoluto.Prelude.{
  ℕ, ◌+◌, Bool, true, false, not, ◌||◌, ◌≡◌, refl, none, some, Text, arith, if◌then◌else◌,
}
use risoluto.Webhook.Health.{
  WebhookHealthStatus, connected, degraded, disconnected, HealthTracker, new_health_tracker,
  transition, start_cooldown, clear_cooldown, record_verified_delivery, record_subscription_check,
  cooldown_expired, stop, delivered_in, flagged_in, is_degraded, Step, delivered, checked, cooled,
  halted, Run, begun, continued,
}
use risoluto.Webhook.Health.Laws.{IsSound, transition-IsSound}

delivered_in-IsSound :
    (status : WebhookHealthStatus) (now_ms : ℕ) (t : HealthTracker)
    → t.status ≡ status
    → t.stopped ≡ false
    → IsSound t
    → IsSound (delivered_in status now_ms t)
unfolding start_cooldown
delivered_in-IsSound disconnected now_ms t here on h =
    transition-IsSound t connected (ground arith) (h.cools (ground arith)) (λ e. ground arith)
      h.follows h.edges
delivered_in-IsSound degraded now_ms t here on h = record {
  cools = λ e. ground arith;
  ends = h.ends;
  follows = h.follows;
  edges = h.edges;
}
delivered_in-IsSound connected now_ms t here on h = h

flagged_in-IsSound :
    (status : WebhookHealthStatus) (t : HealthTracker)
    → t.status ≡ status
    → t.stopped ≡ false
    → IsSound t
    → IsSound (flagged_in status t)
flagged_in-IsSound connected t here on h =
    transition-IsSound t degraded (ground arith) (h.cools (ground arith)) (λ e. ground arith)
      h.follows h.edges
flagged_in-IsSound degraded t here on h = record {
  cools = λ e. refl;
  ends = h.ends;
  follows = h.follows;
  edges = h.edges;
}
flagged_in-IsSound disconnected t here on h = h

either-IsSound :
    (b : Bool) (t t' : HealthTracker)
    → (b ≡ true → IsSound t)
    → (b ≡ false → IsSound t')
    → IsSound (if b then t else t')
either-IsSound true t t' h k = h refl
either-IsSound false t t' h k = k refl

record_verified_delivery-IsSound :
    (now_ms : ℕ) (now event_type : Text) (t : HealthTracker)
    → IsSound t
    → IsSound (record_verified_delivery now_ms now event_type t)
unfolding record_verified_delivery
record_verified_delivery-IsSound now_ms now event_type t h =
    let counted = record t {
      deliveries_received = t.deliveries_received + 1;
      last_delivery_at = some now;
      last_event_type = some event_type;
    } in
    either-IsSound t.stopped t (delivered_in t.status now_ms counted) (λ off. h)
      (λ on.
        delivered_in-IsSound t.status now_ms counted refl on
          (record { cools = h.cools; ends = h.ends; follows = h.follows; edges = h.edges }))

record_subscription_check-IsSound :
    (enabled : Bool) (t : HealthTracker) → IsSound t → IsSound (record_subscription_check enabled t)
unfolding record_subscription_check
record_subscription_check-IsSound enabled t h =
    either-IsSound (t.stopped || enabled) t (flagged_in t.status t) (λ off. h)
      (λ on. flagged_in-IsSound t.status t refl (ground arith) h)

cooldown_expired-IsSound : (t : HealthTracker) → IsSound t → IsSound (cooldown_expired t)
unfolding cooldown_expired
cooldown_expired-IsSound t h =
    let cleared = clear_cooldown t in
    let kept : IsSound cleared = record {
      cools = λ e. refl;
      ends = h.ends;
      follows = h.follows;
      edges = h.edges;
    } in
    either-IsSound (not t.stopped)
      (if is_degraded t.status then transition cleared connected else cleared) cleared
      (λ on.
        either-IsSound (is_degraded t.status) (transition cleared connected) cleared
          (λ e.
            transition-IsSound cleared connected (ground arith) refl (λ off. ground arith) h.follows
              h.edges)
          (λ e. kept))
      (λ off. kept)

stop-IsSound : (t : HealthTracker) → IsSound t → IsSound (stop t)
unfolding stop
stop-IsSound t h =
    let halted_tracker = record t { stopped = true; cooldown_due_ms = none } in
    either-IsSound t.stopped t (transition halted_tracker disconnected) (λ off. h)
      (λ on.
        transition-IsSound halted_tracker disconnected (ground arith) refl (λ e. refl) h.follows
          h.edges)

Step-IsSound : (now_ms : ℕ) (t t' : HealthTracker) → Step now_ms t t' → IsSound t → IsSound t'
Step-IsSound _ _ _ (delivered now_ms now event_type t) h =
    record_verified_delivery-IsSound now_ms now event_type t h
Step-IsSound _ _ _ (checked now_ms enabled t) h = record_subscription_check-IsSound enabled t h
Step-IsSound _ _ _ (cooled now_ms due_ms t here due) h = cooldown_expired-IsSound t h
Step-IsSound _ _ _ (halted now_ms t) h = stop-IsSound t h

-- In every run, a tracker waits for a cooldown only while it is degraded, it is disconnected once it
-- is stopped, and the changes it has emitted lead from the first status to its own, each along an
-- edge of the state machine.
pub Run-IsSound : (now_ms : ℕ) (t : HealthTracker) → Run now_ms t → IsSound t
unfolding new_health_tracker
Run-IsSound _ _ (begun now_ms) = record {
  cools = λ e. refl;
  ends = λ e. refl;
  follows = refl;
  edges = tt;
}
Run-IsSound _ _ (continued before_ms now_ms t t' run later step) =
    Step-IsSound now_ms t t' step (Run-IsSound before_ms t run)
