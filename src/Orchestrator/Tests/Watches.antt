-- ===== src/Orchestrator/Tests/Watches.antt =====
-- The theorems on the agents' events at concrete inputs.
use risoluto.Prelude.{
  Text-discrete, ◌≤◌, length, arith, false, ◌≡◌, refl, get, text_eq, ◌==◌, [], ◌∷◌, some, none,
  codes,
}
use risoluto.Orchestrator.Runtime.{done}
use risoluto.Orchestrator.State.{LifecycleState, max_recent_events, create_lifecycle_state}
use risoluto.Orchestrator.Worker.{AgentEvent}
use risoluto.Orchestrator.Worker.Events.{signal_and_issue, hear_each, last_signal, hear_each_lem}
use risoluto.Orchestrator.Tests.{idle, entry}

abbrev done_event : AgentEvent
done_event = record {
  recent = record {
    at = codes "now";
    issue_id = some (codes "A-1");
    issue_identifier = some (codes "A-1");
    session_id = some (codes "session");
    event = codes "agent_message";
    message = codes "done";
    content = some (codes "done");
    metadata = none;
  };
  usage = none;
  usage_mode = none;
  rate_limits = none;
  stop_signal = some done;
}

abbrev working : LifecycleState
working = record idle { running_entries = (codes "A-1", entry) ∷ (codes "A-2", entry) ∷ [] }

hear_each_lem_example :
    let s' = hear_each 5 working (codes "A-1") (done_event ∷ []) in
    (signal_and_issue (get s'.running_entries (codes "A-1"))
      ≡ some (last_signal entry.last_stop_signal (done_event ∷ []), entry.issue))
    × ((codes "A-1" == codes "A-2") ≡ false
        → get s'.running_entries (codes "A-2") ≡ get working.running_entries (codes "A-2"))
    × (s'.retry_entries ≡ working.retry_entries)
    × (s'.claimed_issue_ids ≡ working.claimed_issue_ids)
    × (length s'.recent_events ≤ max_recent_events)
unfolding create_lifecycle_state get Text-discrete
hear_each_lem_example =
    hear_each_lem 5 working (codes "A-1") (codes "A-2") entry (done_event ∷ []) refl (omega arith)
