-- ===== src/Orchestrator/Ended.antt =====
-- src/orchestrator/worker-outcome/index.ts, worker-failure.ts and `handleWorkerPromise` of
-- run-lifecycle-coordinator.ts: what is done when a worker ends. The store is taken to accept the
-- updates of an attempt after the first one, which `prepare_worker_outcome` makes.
pub mod Claims
use risoluto.Prelude.{
  ℕ, Bool, true, false, not, ◌||◌, List, [], ◌∷◌, Option, none, some, Dict, get, delete, Text,
  text_eq, codes, first_some, if◌then◌else◌, ◌==◌,
}
use risoluto.Core.Types.{Issue, ServiceConfig}
use risoluto.State.Policy.{is_active_state, is_terminal_state}
use risoluto.Orchestrator.Runtime.{
  RunningEntry, Workspace, RunOutcome, OutcomeKind, cancelled, StopSignal, RecentEvent,
}
use risoluto.Orchestrator.State.{
  LifecycleState, mark_dirty, release_issue_claim_in_state, push_event, is_hard_failure,
}
use risoluto.Orchestrator.Outcome.{OutcomeServices, PreparedWorkerOutcome, prepare_worker_outcome}
use risoluto.Orchestrator.Finalize.{
  finalize_service_stopped, finalize_terminal_cleanup, finalize_inactive_issue,
  finalize_operator_abort, finalize_cancelled_or_hard_failure, finalize_stop_signal,
}
use risoluto.Orchestrator.Retry.{is_code, dispatch}

abbrev pub is_cancelled : OutcomeKind → Bool
is_cancelled cancelled = true
is_cancelled _ = false

-- How the promise of a worker settles.
pub data Settled : Type 0 where
  resolved : RunOutcome → Settled
  rejected : Text → Settled

module _ (config : ServiceConfig) (services : OutcomeServices) (message : Text) where
  abbrev pub signal_or_dispatch :
      Option StopSignal → LifecycleState → PreparedWorkerOutcome → LifecycleState
  signal_or_dispatch none s prepared = dispatch config services message s prepared
  signal_or_dispatch (some signal) s prepared = finalize_stop_signal services signal s prepared

  unfoldable pub dispatch_post_reconciliation :
      LifecycleState → PreparedWorkerOutcome → LifecycleState
  dispatch_post_reconciliation s prepared =
      signal_or_dispatch
        (first_some prepared.entry.last_stop_signal
          (services.detect_stop_signal prepared.entry.last_agent_message_content))
        s prepared

  -- The part of `handleWorkerOutcome` after the preparation.
  unfoldable pub handle_prepared : LifecycleState → PreparedWorkerOutcome → LifecycleState
  unfolding dispatch_post_reconciliation is_hard_failure
  handle_prepared s prepared =
      let state = prepared.latest_issue.state in
      let outcome = prepared.outcome in
      if not s.running
      then finalize_service_stopped services s prepared
      else if prepared.entry.cleanup_on_exit || is_terminal_state state config
      then finalize_terminal_cleanup services s prepared
      else if not (is_active_state state config)
      then finalize_inactive_issue services s prepared
      else if is_code outcome.error_code (codes "model_override_updated")
      then dispatch config services message s prepared
      else if is_code outcome.error_code (codes "operator_abort")
      then finalize_operator_abort services s prepared
      else if is_cancelled outcome.kind || is_hard_failure outcome.error_code
      then finalize_cancelled_or_hard_failure services s prepared
      else dispatch_post_reconciliation s prepared

  unfoldable pub handle_worker_failure :
      LifecycleState → Issue → RunningEntry → Text → LifecycleState
  unfolding release_issue_claim_in_state push_event
  handle_worker_failure s issue entry error_text =
      let removed = mark_dirty (record s { running_entries = delete s.running_entries issue.id }) in
      push_event (release_issue_claim_in_state removed issue.id).0 (record {
        at = services.now_iso;
        issue_id = some issue.id;
        issue_identifier = some issue.identifier;
        session_id = entry.session_id;
        event = codes "worker_failed";
        message = error_text;
        content = none;
        metadata = none;
      })

  abbrev pub handle_if_prepared :
      LifecycleState × Option PreparedWorkerOutcome → Issue → RunningEntry → Text → LifecycleState
  handle_if_prepared (s, none) issue entry error_text =
      handle_worker_failure s issue entry error_text
  handle_if_prepared (s, some prepared) issue entry error_text = handle_prepared s prepared

  -- `error_text` is the text of the store's error, where it refuses the update.
  unfoldable pub handle_worker_promise :
      LifecycleState → Settled → Issue → Workspace → RunningEntry → Option ℕ → Text → LifecycleState
  unfolding handle_prepared handle_worker_failure prepare_worker_outcome
  handle_worker_promise s (rejected error) issue workspace entry attempt error_text =
      handle_worker_failure s issue entry error
  handle_worker_promise s (resolved outcome) issue workspace entry attempt error_text =
      handle_if_prepared
        (prepare_worker_outcome config services s outcome entry issue workspace attempt) issue entry
        error_text
