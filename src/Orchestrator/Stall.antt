-- ===== src/Orchestrator/Stall.antt =====
-- src/orchestrator/stall-detector.ts: agents that have been silent for too long are aborted. The event's
-- text has the rounded seconds in it; the host writes it.
pub mod Laws
use risoluto.Prelude.{
  ℕ, ◌+◌, ◌-◌, Bool, true, false, not, ◌||◌, ◌&&◌, List, [], ◌∷◌, ◌++◌, Option, none, some, Dict,
  length, drop, Text, codes, if◌then◌else◌, ltb,
}
use risoluto.Core.Types.{ServiceConfig}
use risoluto.Orchestrator.Runtime.{RunningEntry, stopping, RecentEvent}
use risoluto.Orchestrator.State.{
  LifecycleState, StallEvent, push_recent_event_in_state, max_recent_events,
}

abbrev pub max_stall_events : ℕ
max_stall_events = 100

module _ (now_ms : ℕ) (now_iso : Text) (message : ℕ → Text) where
  abbrev pub is_aborted : Option Text → Bool
  is_aborted none = false
  is_aborted (some reason) = true

  -- `-` stops at 0 here; an event of the future is not silence.
  abbrev pub is_stalled : ℕ → RunningEntry → Bool
  is_stalled timeout_ms entry =
      not (is_aborted entry.abort_reason) && ltb timeout_ms (now_ms - entry.last_event_at_ms)

  abbrev pub kill : RunningEntry → RunningEntry
  kill entry = record entry { abort_reason = some (codes "stalled"); status = stopping }

  abbrev pub stall_event : ℕ → RunningEntry → StallEvent
  stall_event timeout_ms entry = record {
    at = now_iso;
    issue_id = entry.issue.id;
    issue_identifier = entry.issue.identifier;
    silent_ms = now_ms - entry.last_event_at_ms;
    timeout_ms = timeout_ms;
  }

  abbrev pub stall_record : RunningEntry → RecentEvent
  stall_record entry = record {
    at = now_iso;
    issue_id = some entry.issue.id;
    issue_identifier = some entry.issue.identifier;
    session_id = entry.session_id;
    event = codes "worker_stalled";
    message = message (now_ms - entry.last_event_at_ms);
    content = none;
    metadata = none;
  }

  -- What the scan leaves: the entries, the new stall events, and the events for the recent ones.
  pub record Detected : Type 0 where
    pub entries : Dict Text RunningEntry
    pub events : List StallEvent
    pub pushed : List RecentEvent

  unfoldable pub detect : ℕ → Dict Text RunningEntry → Detected
  detect timeout_ms [] = record { entries = []; events = []; pushed = [] }
  detect timeout_ms ((id, entry) ∷ entries) =
      let rest = detect timeout_ms entries in
      if is_stalled timeout_ms entry
      then record {
        entries = (id, kill entry) ∷ rest.entries;
        events = stall_event timeout_ms entry ∷ rest.events;
        pushed = stall_record entry ∷ rest.pushed;
      }
      else record {
        entries = (id, entry) ∷ rest.entries;
        events = rest.events;
        pushed = rest.pushed;
      }

  abbrev pub push_all : LifecycleState → List RecentEvent → LifecycleState
  push_all s [] = s
  push_all s (event ∷ events) =
      push_all (push_recent_event_in_state s event max_recent_events) events

  -- `slice(-MAX_STALL_EVENTS)`
  abbrev pub last_stalls : List StallEvent → List StallEvent
  last_stalls events = drop (length events - max_stall_events) events

  -- The new state, and how many were killed. With a timeout of 0 nothing is scanned.
  unfoldable pub detect_and_kill_stalled_workers :
      ServiceConfig → LifecycleState → LifecycleState × ℕ
  unfolding detect push_recent_event_in_state
  detect_and_kill_stalled_workers config s =
      let timeout_ms = config.codex.stall_timeout_ms in
      let found = detect timeout_ms s.running_entries in
      if not (ltb 0 timeout_ms) then (s, 0) else (
        record (push_all (record s { running_entries = found.entries }) found.pushed) {
          stall_events = last_stalls (s.stall_events ++ found.events);
        },
        length found.events,
      )
