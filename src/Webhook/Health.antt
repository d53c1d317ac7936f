-- ===== src/Webhook/Health.antt =====
-- src/webhook/health-tracker.ts: the tracker of the webhook's health. Its cooldown timer is the time at
-- which it fires; the events it emits are kept in the order they are emitted in. The timer of the
-- subscription check calls `record_subscription_check` with what Linear answers, or nothing.
pub mod Laws
pub mod Runs
use risoluto.Prelude.{
  ℕ, ◌+◌, ◌≤◌, Bool, true, false, not, ◌||◌, ◌≡◌, List, [], ◌∷◌, ◌++◌, Option, none, some, Text,
  if◌then◌else◌,
}

pub data WebhookHealthStatus : Type 0 where
  connected degraded disconnected : WebhookHealthStatus

pub record HealthChange : Type 0 where
  pub old_status : WebhookHealthStatus
  pub new_status : WebhookHealthStatus

pub record HealthTracker : Type 0 where
  pub status : WebhookHealthStatus
  pub deliveries_received : ℕ
  pub last_delivery_at : Option Text
  pub last_event_type : Option Text
  pub cooldown_due_ms : Option ℕ
  pub stopped : Bool
  pub emitted : List HealthChange

unfoldable pub new_health_tracker : HealthTracker
new_health_tracker = record {
  status = disconnected;
  deliveries_received = 0;
  last_delivery_at = none;
  last_event_type = none;
  cooldown_due_ms = none;
  stopped = false;
  emitted = [];
}

abbrev pub degraded_cooldown_ms : ℕ
degraded_cooldown_ms = 60000

abbrev pub same_status : WebhookHealthStatus → WebhookHealthStatus → Bool
same_status connected connected = true
same_status degraded degraded = true
same_status disconnected disconnected = true
same_status _ _ = false

unfoldable pub transition : HealthTracker → WebhookHealthStatus → HealthTracker
transition t new_status = if same_status t.status new_status then t else record t {
  status = new_status;
  emitted = t.emitted ++ record { old_status = t.status; new_status = new_status } ∷ [];
}

unfoldable pub start_cooldown : ℕ → HealthTracker → HealthTracker
start_cooldown now_ms t = record t { cooldown_due_ms = some (now_ms + degraded_cooldown_ms) }

abbrev pub clear_cooldown : HealthTracker → HealthTracker
clear_cooldown t = record t { cooldown_due_ms = none }

-- By the status that the tracker has.
abbrev pub delivered_in : WebhookHealthStatus → ℕ → HealthTracker → HealthTracker
delivered_in disconnected now_ms t = transition t connected
delivered_in degraded now_ms t = start_cooldown now_ms t
delivered_in connected now_ms t = t

unfoldable pub record_verified_delivery : ℕ → Text → Text → HealthTracker → HealthTracker
unfolding transition start_cooldown
record_verified_delivery now_ms now event_type t =
    if t.stopped
    then t
    else delivered_in t.status now_ms (record t {
      deliveries_received = t.deliveries_received + 1;
      last_delivery_at = some now;
      last_event_type = some event_type;
    })

abbrev pub flagged_in : WebhookHealthStatus → HealthTracker → HealthTracker
flagged_in connected t = transition t degraded
flagged_in degraded t = clear_cooldown t
flagged_in disconnected t = t

unfoldable pub record_subscription_check : Bool → HealthTracker → HealthTracker
unfolding transition
record_subscription_check enabled t = if t.stopped || enabled then t else flagged_in t.status t

abbrev pub is_degraded : WebhookHealthStatus → Bool
is_degraded degraded = true
is_degraded _ = false

-- The callback of the cooldown's timer.
unfoldable pub cooldown_expired : HealthTracker → HealthTracker
unfolding transition
cooldown_expired t =
    let cleared = clear_cooldown t in
    if not cleared.stopped
    then if is_degraded cleared.status then transition cleared connected else cleared
    else cleared

unfoldable pub stop : HealthTracker → HealthTracker
unfolding transition
stop t =
    if t.stopped
    then t
    else transition (record t { stopped = true; cooldown_due_ms = none }) disconnected

unfoldable pub compute_effective_interval : ℕ → ℕ → HealthTracker → ℕ
compute_effective_interval polling_stretch_ms polling_base_ms t = elim t.status [
  | connected ↦ polling_stretch_ms
  | degraded ↦ polling_base_ms
  | disconnected ↦ polling_base_ms
]

-- What can happen to a tracker at a time. The timer fires at its time or later.
pub data Step : ℕ → HealthTracker → HealthTracker → Type 0 where
  delivered :
      (now_ms : ℕ) (now event_type : Text) (t : HealthTracker)
      → Step now_ms t (record_verified_delivery now_ms now event_type t)
  checked :
      (now_ms : ℕ) (enabled : Bool) (t : HealthTracker)
      → Step now_ms t (record_subscription_check enabled t)
  cooled :
      (now_ms due_ms : ℕ) (t : HealthTracker)
      → t.cooldown_due_ms ≡ some due_ms
      → due_ms ≤ now_ms
      → Step now_ms t (cooldown_expired t)
  halted : (now_ms : ℕ) (t : HealthTracker) → Step now_ms t (stop t)

-- A run of a new tracker, up to a time.
pub data Run : ℕ → HealthTracker → Type 0 where
  begun : (now_ms : ℕ) → Run now_ms new_health_tracker
  continued :
      (before_ms now_ms : ℕ) (t t' : HealthTracker)
      → Run before_ms t
      → before_ms ≤ now_ms
      → Step now_ms t t'
      → Run now_ms t'
