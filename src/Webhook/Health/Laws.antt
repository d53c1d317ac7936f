-- ===== src/Webhook/Health/Laws.antt =====
-- The guarantees of the tracker.
use risoluto.Prelude.{
  Bool, true, false, not, ◌||◌, ◌≡◌, List, [], ◌∷◌, ◌++◌, Option, none, some, arith, if◌then◌else◌,
}
use risoluto.Webhook.Health.{
  WebhookHealthStatus, connected, degraded, disconnected, HealthChange, HealthTracker, same_status,
  transition, is_degraded,
}

-- The status after the changes, where they follow one another from the first on.
abbrev pub follow : WebhookHealthStatus → List HealthChange → Option WebhookHealthStatus
follow status [] = some status
follow status (change ∷ changes) =
    if same_status status change.old_status then follow change.new_status changes else none

-- The changes that the source's state machine has.
abbrev pub is_edge : HealthChange → Bool
is_edge change = elim change.old_status [
  | disconnected ↦ same_status change.new_status connected
  | connected ↦ not (same_status change.new_status connected)
  | degraded ↦ not (same_status change.new_status degraded)
]

abbrev pub AllEdges : List HealthChange → Type 0
AllEdges [] = Unit
AllEdges (change ∷ changes) = (is_edge change ≡ true) × AllEdges changes

-- A tracker waits for a cooldown only while it is degraded, and is disconnected once stopped.
pub record IsSound (t : HealthTracker) : Type 0 where
  pub cools : is_degraded t.status ≡ false → t.cooldown_due_ms ≡ none
  pub ends : t.stopped ≡ true → t.status ≡ disconnected
  pub follows : follow disconnected t.emitted ≡ some t.status
  pub edges : AllEdges t.emitted

follow-append :
    (status middle : WebhookHealthStatus) (changes : List HealthChange) (next : WebhookHealthStatus)
    → follow status changes ≡ some middle
    → follow status (changes ++ record { old_status = middle; new_status = next } ∷ []) ≡ some next
follow-append status middle [] next h = ground arith
follow-append status middle (change ∷ changes) next h =
    ground (arith, follow-append change.new_status middle changes next)

AllEdges-append :
    (changes : List HealthChange) (change : HealthChange)
    → AllEdges changes
    → is_edge change ≡ true
    → AllEdges (changes ++ change ∷ [])
AllEdges-append [] change h e = (e, tt)
AllEdges-append (c ∷ changes) change h e = (h.0, AllEdges-append changes change h.1 e)

-- A change along an edge keeps the history in order.
transition-follows :
    (t : HealthTracker) (next : WebhookHealthStatus)
    → (same_status t.status next || is_edge (record { old_status = t.status; new_status = next }))
      ≡ true
    → follow disconnected t.emitted ≡ some t.status
    → AllEdges t.emitted
    → (follow disconnected (transition t next).emitted ≡ some (transition t next).status)
      × AllEdges (transition t next).emitted
unfolding transition
transition-follows t next edge h k = ground (
  arith,
  follow-append disconnected t.status t.emitted next h,
  AllEdges-append t.emitted (record { old_status = t.status; new_status = next }) k,
)

-- A change along an edge keeps the guarantees.
pub transition-IsSound :
    (t : HealthTracker) (next : WebhookHealthStatus)
    → (same_status t.status next || is_edge (record { old_status = t.status; new_status = next }))
      ≡ true
    → t.cooldown_due_ms ≡ none
    → (t.stopped ≡ true → next ≡ disconnected)
    → follow disconnected t.emitted ≡ some t.status
    → AllEdges t.emitted
    → IsSound (transition t next)
unfolding transition
transition-IsSound t next edge idle ended h k =
    let (follows, edges) = transition-follows t next edge h k in
    record { cools = λ e. ground arith; ends = λ e. ground arith; follows = follows; edges = edges }
