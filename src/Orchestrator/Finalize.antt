-- ===== src/Orchestrator/Finalize.antt =====
-- src/orchestrator/worker-outcome/finalize.ts: the ends of a run.
use risoluto.Prelude.{
  Bool, true, false, [], ◌∷◌, Option, none, some, get, put, Text, text_eq, codes, first_some,
  if◌then◌else◌,
}
use risoluto.Core.Types.{Issue}
use risoluto.Orchestrator.Runtime.{RuntimeIssueView, StopSignal, done, blocked}
use risoluto.Orchestrator.State.{
  LifecycleState, mark_dirty, release_issue_claim_in_state, set_completed_view_in_state,
}
use risoluto.Orchestrator.Launch.{build_issue_dispatch_fingerprint}
use risoluto.Orchestrator.Outcome.{
  OutcomeServices, PreparedWorkerOutcome, outcome_to_status, complete, release_claim,
}

module _ (services : OutcomeServices) where
  unfoldable pub finalize_service_stopped : LifecycleState → PreparedWorkerOutcome → LifecycleState
  unfolding release_issue_claim_in_state complete
  finalize_service_stopped s prepared =
      complete services (release_claim s prepared) prepared (record {
        status = codes "cancelled";
        attempt = prepared.attempt;
        error = prepared.outcome.error_message;
        message =
            first_some prepared.outcome.error_message
              (some (codes "service stopped before the worker completed"));
        pull_request_url = none;
      })

  abbrev pub cleanup_message : Option Bool → Text
  cleanup_message (some true) = codes "workspace preserved after cleanup protection triggered"
  cleanup_message _ = codes "workspace cleaned after terminal state"

  unfoldable pub finalize_terminal_cleanup : LifecycleState → PreparedWorkerOutcome → LifecycleState
  unfolding release_issue_claim_in_state complete outcome_to_status
  finalize_terminal_cleanup s prepared =
      release_claim
        (complete services s prepared (record {
          status = outcome_to_status prepared.outcome.kind;
          attempt = prepared.attempt;
          error = first_some prepared.outcome.error_message prepared.outcome.error_code;
          message = some (cleanup_message (services.preserved prepared.latest_issue));
          pull_request_url = none;
        }))
        prepared

  unfoldable pub finalize_inactive_issue : LifecycleState → PreparedWorkerOutcome → LifecycleState
  unfolding release_issue_claim_in_state complete
  finalize_inactive_issue s prepared =
      release_claim
        (complete services s prepared (record {
          status = codes "paused";
          attempt = none;
          error = none;
          message = some (codes "issue is no longer active");
          pull_request_url = none;
        }))
        prepared

  -- `suppressIssueDispatch` of run-lifecycle-coordinator.ts
  unfoldable pub suppress_issue_dispatch : LifecycleState → Issue → LifecycleState
  unfolding build_issue_dispatch_fingerprint
  suppress_issue_dispatch s issue = mark_dirty (record s {
    operator_abort_suppressions =
        put s.operator_abort_suppressions issue.id (build_issue_dispatch_fingerprint issue);
  })

  unfoldable pub finalize_operator_abort : LifecycleState → PreparedWorkerOutcome → LifecycleState
  unfolding release_issue_claim_in_state complete suppress_issue_dispatch
  finalize_operator_abort s prepared =
      let completed = complete services s prepared (record {
        status = codes "cancelled";
        attempt = prepared.attempt;
        error = prepared.outcome.error_code;
        message =
            first_some prepared.outcome.error_message
              (some (codes "worker cancelled by operator request"));
        pull_request_url = none;
      }) in
      release_claim (suppress_issue_dispatch completed prepared.latest_issue) prepared

  unfoldable pub finalize_cancelled_or_hard_failure :
      LifecycleState → PreparedWorkerOutcome → LifecycleState
  unfolding release_issue_claim_in_state complete outcome_to_status
  finalize_cancelled_or_hard_failure s prepared =
      release_claim
        (complete services s prepared (record {
          status = outcome_to_status prepared.outcome.kind;
          attempt = prepared.attempt;
          error = prepared.outcome.error_code;
          message = first_some prepared.outcome.error_message (
              first_some prepared.outcome.error_code
                (some (codes "worker stopped without a retry")));
          pull_request_url = none;
        }))
        prepared

  abbrev pub is_blocked : StopSignal → Bool
  is_blocked blocked = true
  is_blocked done = false

  abbrev pub with_view : LifecycleState → Text → Text → Option RuntimeIssueView → LifecycleState
  with_view s identifier state none = s
  with_view s identifier state (some view) =
      set_completed_view_in_state s identifier (record view { state = state })

  -- The state that the write-back moved the issue to, if it moved it.
  abbrev pub with_state : LifecycleState → Text → Option Text → LifecycleState
  with_state s identifier none = s
  with_state s identifier (some []) = s
  with_state s identifier (some (c ∷ state)) =
      with_view s identifier (c ∷ state) (get s.completed_views identifier)

  -- Only work that is done goes to a pull request.
  abbrev pub post_run : StopSignal → PreparedWorkerOutcome → Option Text
  post_run done prepared = services.git_post_run prepared.entry
  post_run blocked prepared = none

  -- Work that is done keeps its claim, so that the issue is not dispatched again.
  unfoldable pub finalize_stop_signal :
      StopSignal → LifecycleState → PreparedWorkerOutcome → LifecycleState
  unfolding release_issue_claim_in_state complete set_completed_view_in_state
  finalize_stop_signal signal s prepared =
      let completed = complete services s prepared (record {
        status = if is_blocked signal then codes "paused" else codes "completed";
        attempt = prepared.attempt;
        error = none;
        message = some (
            if is_blocked signal
            then codes "worker reported issue blocked"
            else codes "worker reported issue complete");
        pull_request_url = post_run signal prepared;
      }) in
      with_state (if is_blocked signal then release_claim completed prepared else completed)
        prepared.latest_issue.identifier (services.completion_writeback prepared.latest_issue)
