-- ===== src/Orchestrator/Invariant/Ends.antt =====
-- The invariant under the ends of workers.
use risoluto.Prelude.{
  ℕ, false, ◌≡◌, refl, [], ◌∷◌, Option, none, some, get, Text, text_eq, codes, arith, ◌==◌, ==_iff,
  get-delete, includes-remove, or_else, first_some, ◌+◌,
}
use risoluto.Core.Types.{Issue, ServiceConfig}
use risoluto.Orchestrator.Runtime.{RunningEntry, StopSignal, done, blocked, RuntimeIssueView}
use risoluto.Orchestrator.State.{
  LifecycleState, release_issue_claim_in_state, set_completed_view_in_state, push_event,
  push_recent_event_in_state,
}
use risoluto.Orchestrator.Outcome.{
  OutcomeServices, OutcomeOverrides, PreparedWorkerOutcome, complete, release_claim,
}
use risoluto.Orchestrator.Finalize.{
  finalize_service_stopped, finalize_terminal_cleanup, finalize_inactive_issue,
  finalize_operator_abort, finalize_cancelled_or_hard_failure, finalize_stop_signal,
  suppress_issue_dispatch, with_state, with_view,
}
use risoluto.Orchestrator.Retry.{
  classify_retry_strategy, RetryStrategy, hard_fail, retry, compact_and_retry, default,
  apply_strategy, queue_prepared_retry, handle_error_retry, handle_continuation_exhausted, dispatch,
}
use risoluto.Orchestrator.Ended.{
  handle_prepared, dispatch_post_reconciliation, signal_or_dispatch, handle_worker_failure,
}
use risoluto.Orchestrator.Invariant.{
  is_running, is_retrying, IsSound, IsSoundAt, queue_retry-IsSound,
}

-- The issue is neither running nor waiting for a retry.
abbrev pub IsIdle : LifecycleState → Text → Type 0
IsIdle s id = (is_running s id ≡ false) × (is_retrying s id ≡ false)

complete_lem :
    (services : OutcomeServices) (s : LifecycleState) (prepared : PreparedWorkerOutcome)
    (overrides : OutcomeOverrides)
    → let s' = complete services s prepared overrides in
      (s'.running_entries ≡ s.running_entries)
      × (s'.retry_entries ≡ s.retry_entries)
      × (s'.claimed_issue_ids ≡ s.claimed_issue_ids)
      × (s'.running ≡ s.running)
unfolding complete set_completed_view_in_state
complete_lem services s prepared overrides = (refl, refl, refl, refl)

release_lem :
    (s : LifecycleState) (prepared : PreparedWorkerOutcome)
    → IsIdle s prepared.latest_issue.id
    → IsSound s
    → IsSound (release_claim s prepared)
unfolding release_issue_claim_in_state
release_lem s prepared idle h id = ground (
  arith,
  h id,
  includes-remove s.claimed_issue_ids prepared.latest_issue.id id,
  ==_iff prepared.latest_issue.id id,
)

with_view-IsSound :
    (services : OutcomeServices) (s : LifecycleState) (identifier state : Text)
    (view : Option RuntimeIssueView)
    → IsSound s
    → IsSound (with_view services s identifier state view)
unfolding set_completed_view_in_state
with_view-IsSound services s identifier state none h = h
with_view-IsSound services s identifier state (some view) h = h

with_state-IsSound :
    (services : OutcomeServices) (s : LifecycleState) (identifier : Text) (state : Option Text)
    → IsSound s
    → IsSound (with_state services s identifier state)
with_state-IsSound services s identifier none h = h
with_state-IsSound services s identifier (some []) h = h
with_state-IsSound services s identifier (some (c ∷ state)) h =
    with_view-IsSound services s identifier (c ∷ state) (get s.completed_views identifier) h

module _ (config : ServiceConfig) (services : OutcomeServices) (message : Text) where
  -- A preparation that ends in the release of the claim.
  completed_lem :
      (s : LifecycleState) (prepared : PreparedWorkerOutcome) (overrides : OutcomeOverrides)
      → IsIdle s prepared.latest_issue.id
      → IsSound s
      → IsSound (release_claim (complete services s prepared overrides) prepared)
  completed_lem s prepared overrides idle h =
      let same = complete_lem services s prepared overrides in
      release_lem (complete services s prepared overrides) prepared (ground (arith, idle, same))
        (λ id. ground (arith, h id, same))

  finalize_service_stopped-IsSound :
      (s : LifecycleState) (prepared : PreparedWorkerOutcome)
      → IsIdle s prepared.latest_issue.id
      → IsSound s
      → IsSound (finalize_service_stopped services s prepared)
  unfolding finalize_service_stopped complete set_completed_view_in_state
  finalize_service_stopped-IsSound s prepared idle h = release_lem s prepared idle h

  finalize_cancelled_or_hard_failure-IsSound :
      (s : LifecycleState) (prepared : PreparedWorkerOutcome)
      → IsIdle s prepared.latest_issue.id
      → IsSound s
      → IsSound (finalize_cancelled_or_hard_failure services s prepared)
  unfolding finalize_cancelled_or_hard_failure
  finalize_cancelled_or_hard_failure-IsSound s prepared idle h = completed_lem s prepared _ idle h

  finalize_operator_abort-IsSound :
      (s : LifecycleState) (prepared : PreparedWorkerOutcome)
      → IsIdle s prepared.latest_issue.id
      → IsSound s
      → IsSound (finalize_operator_abort services s prepared)
  unfolding finalize_operator_abort suppress_issue_dispatch complete set_completed_view_in_state
  finalize_operator_abort-IsSound s prepared idle h = release_lem _ prepared idle h

  finalize_stop_signal-IsSound :
      (signal : StopSignal) (s : LifecycleState) (prepared : PreparedWorkerOutcome)
      → IsIdle s prepared.latest_issue.id
      → IsSound s
      → IsSound (finalize_stop_signal services signal s prepared)
  unfolding finalize_stop_signal
  finalize_stop_signal-IsSound done s prepared idle h =
      with_state-IsSound services _ prepared.latest_issue.identifier
        (services.completion_writeback prepared.latest_issue)
        (λ id. ground (arith, h id, complete_lem services s prepared))
  finalize_stop_signal-IsSound blocked s prepared idle h =
      with_state-IsSound services _ prepared.latest_issue.identifier
        (services.completion_writeback prepared.latest_issue) (completed_lem s prepared _ idle h)

  finalize_terminal_cleanup-IsSound :
      (s : LifecycleState) (prepared : PreparedWorkerOutcome)
      → IsIdle s prepared.latest_issue.id
      → IsSound s
      → IsSound (finalize_terminal_cleanup services s prepared)
  unfolding finalize_terminal_cleanup
  finalize_terminal_cleanup-IsSound s prepared idle h = completed_lem s prepared _ idle h

  finalize_inactive_issue-IsSound :
      (s : LifecycleState) (prepared : PreparedWorkerOutcome)
      → IsIdle s prepared.latest_issue.id
      → IsSound s
      → IsSound (finalize_inactive_issue services s prepared)
  unfolding finalize_inactive_issue
  finalize_inactive_issue-IsSound s prepared idle h = completed_lem s prepared _ idle h

  apply_strategy-IsSound :
      (strategy : RetryStrategy) (s : LifecycleState) (prepared : PreparedWorkerOutcome)
      → IsIdle s prepared.latest_issue.id
      → IsSound s
      → IsSound (apply_strategy config services strategy s prepared)
  unfolding handle_error_retry queue_prepared_retry
  apply_strategy-IsSound hard_fail s prepared idle h =
      finalize_cancelled_or_hard_failure-IsSound s prepared idle h
  apply_strategy-IsSound (retry delay_ms reason) s prepared idle h =
      queue_retry-IsSound services.now_ms s prepared.latest_issue _ delay_ms _ _ idle.0 h
  apply_strategy-IsSound compact_and_retry s prepared idle h =
      queue_retry-IsSound services.now_ms s prepared.latest_issue _ _ _ _ idle.0 h
  apply_strategy-IsSound default s prepared idle h =
      queue_retry-IsSound services.now_ms s prepared.latest_issue _ _ _ _ idle.0 h

  handle_continuation_exhausted-IsSound :
      (s : LifecycleState) (prepared : PreparedWorkerOutcome)
      → IsIdle s prepared.latest_issue.id
      → IsSound s
      → IsSound (handle_continuation_exhausted config services message s prepared)
  unfolding handle_continuation_exhausted
  handle_continuation_exhausted-IsSound s prepared idle h = completed_lem s prepared _ idle h

  dispatch-IsSound :
      (s : LifecycleState) (prepared : PreparedWorkerOutcome)
      → IsIdle s prepared.latest_issue.id
      → IsSound s
      → IsSound (dispatch config services message s prepared)
  unfolding dispatch queue_prepared_retry
  dispatch-IsSound s prepared idle h id =
      let queue = λ (attempt delay_ms : ℕ) (error thread_id : Option Text).
        queue_retry-IsSound services.now_ms s prepared.latest_issue attempt delay_ms error thread_id
          idle.0 h id in
      ground (
        arith,
        handle_continuation_exhausted-IsSound s prepared idle h id,
        queue (or_else prepared.attempt 0 + 1) 1000 (some (codes "continuation"))
            prepared.entry.session_id,
        queue (or_else prepared.attempt 1) 0 (some (codes "model_override_updated")) none,
        apply_strategy-IsSound (classify_retry_strategy prepared.outcome.codex_error_info) s
            prepared idle h id,
      )

  signal_or_dispatch-IsSound :
      (signal : Option StopSignal) (s : LifecycleState) (prepared : PreparedWorkerOutcome)
      → IsIdle s prepared.latest_issue.id
      → IsSound s
      → IsSound (signal_or_dispatch config services message signal s prepared)
  signal_or_dispatch-IsSound none s prepared idle h = dispatch-IsSound s prepared idle h
  signal_or_dispatch-IsSound (some signal) s prepared idle h =
      finalize_stop_signal-IsSound signal s prepared idle h

  -- Every branch of the handler.
  pub handle_prepared-IsSound :
      (s : LifecycleState) (prepared : PreparedWorkerOutcome)
      → IsIdle s prepared.latest_issue.id
      → IsSound s
      → IsSound (handle_prepared config services message s prepared)
  unfolding handle_prepared dispatch_post_reconciliation
  handle_prepared-IsSound s prepared idle h id =
      let signal =
        first_some prepared.entry.last_stop_signal
          (services.detect_stop_signal prepared.entry.last_agent_message_content) in
      ground (
        arith,
        finalize_service_stopped-IsSound s prepared idle h id,
        finalize_terminal_cleanup-IsSound s prepared idle h id,
        finalize_inactive_issue-IsSound s prepared idle h id,
        dispatch-IsSound s prepared idle h id,
        finalize_operator_abort-IsSound s prepared idle h id,
        finalize_cancelled_or_hard_failure-IsSound s prepared idle h id,
        signal_or_dispatch-IsSound signal s prepared idle h id,
      )

  pub handle_worker_failure-IsSound :
      (s : LifecycleState) (issue : Issue) (entry : RunningEntry) (error_text : Text)
      → is_retrying s issue.id ≡ false
      → ((id : Text) → (issue.id == id) ≡ false → IsSoundAt s id)
      → IsSound (handle_worker_failure config services message s issue entry error_text)
  unfolding handle_worker_failure push_event push_recent_event_in_state release_issue_claim_in_state
  handle_worker_failure-IsSound s issue entry error_text free h id = ground (
    arith,
    h id,
    get-delete s.running_entries issue.id id,
    includes-remove s.claimed_issue_ids issue.id id,
    ==_iff issue.id id,
  )
