-- ===== src/Orchestrator/Ended/Claims.antt =====
-- Which issues stay claimed when their worker has ended.
use risoluto.Prelude.{
  ℕ, true, false, ◌≡◌, ◌⊎◌, inl, inr, refl, [], ◌∷◌, Option, none, some, get, Text, text_eq, codes,
  arith, ==_iff, or_else, first_some, ◌+◌, includes-remove,
}
use risoluto.Core.Types.{ServiceConfig}
use risoluto.State.Policy.{is_active_state, is_terminal_state}
use risoluto.Orchestrator.Runtime.{StopSignal, done, blocked, RuntimeIssueView}
use risoluto.Orchestrator.State.{
  LifecycleState, release_issue_claim_in_state, set_completed_view_in_state,
}
use risoluto.Orchestrator.Outcome.{OutcomeServices, PreparedWorkerOutcome, complete, release_claim}
use risoluto.Orchestrator.Finalize.{
  finalize_service_stopped, finalize_terminal_cleanup, finalize_inactive_issue,
  finalize_operator_abort, finalize_cancelled_or_hard_failure, finalize_stop_signal,
  suppress_issue_dispatch, with_state, with_view,
}
use risoluto.Orchestrator.Retry.{
  RetryStrategy, hard_fail, retry, compact_and_retry, default, classify_retry_strategy,
  apply_strategy, queue_prepared_retry, handle_error_retry, handle_continuation_exhausted, dispatch,
  queue_retry,
}
use risoluto.Orchestrator.Ended.{handle_prepared, dispatch_post_reconciliation, signal_or_dispatch}
use risoluto.Orchestrator.Invariant.{is_retrying, is_claimed, queue_retry_lem}

-- The claim is gone, or a retry waits.
abbrev IsSettled : LifecycleState → Text → Type 0
IsSettled s id = is_retrying s id ≡ false → is_claimed s id ≡ false

module _ (config : ServiceConfig) (services : OutcomeServices) (message : Text) where
  release-IsSettled :
      (s : LifecycleState) (prepared : PreparedWorkerOutcome)
      → IsSettled (release_claim s prepared) prepared.latest_issue.id
  unfolding release_issue_claim_in_state
  release-IsSettled s prepared h = ground (
    arith,
    includes-remove s.claimed_issue_ids prepared.latest_issue.id prepared.latest_issue.id,
    ==_iff prepared.latest_issue.id prepared.latest_issue.id,
  )

  finalize_service_stopped-IsSettled :
      (s : LifecycleState) (prepared : PreparedWorkerOutcome)
      → IsSettled (finalize_service_stopped services s prepared) prepared.latest_issue.id
  unfolding finalize_service_stopped complete set_completed_view_in_state
  finalize_service_stopped-IsSettled s prepared = release-IsSettled s prepared

  queue-IsSettled :
      (s : LifecycleState) (prepared : PreparedWorkerOutcome) (attempt delay_ms : ℕ)
      (error thread_id : Option Text)
      → s.running ≡ true
      → IsSettled
          (queue_retry services.now_ms s prepared.latest_issue attempt delay_ms error thread_id)
          prepared.latest_issue.id
  queue-IsSettled s prepared attempt delay_ms error thread_id on h = ground (
    arith,
    queue_retry_lem services.now_ms s prepared.latest_issue attempt delay_ms error thread_id
        prepared.latest_issue.id,
    ==_iff prepared.latest_issue.id prepared.latest_issue.id,
  )

  strategy-IsSettled :
      (strategy : RetryStrategy) (s : LifecycleState) (prepared : PreparedWorkerOutcome)
      → s.running ≡ true
      → IsSettled (apply_strategy config services strategy s prepared) prepared.latest_issue.id
  unfolding finalize_cancelled_or_hard_failure handle_error_retry queue_prepared_retry
  strategy-IsSettled hard_fail s prepared on =
      release-IsSettled (complete services s prepared _) prepared
  strategy-IsSettled (retry delay_ms reason) s prepared on = queue-IsSettled s prepared _ _ _ _ on
  strategy-IsSettled compact_and_retry s prepared on = queue-IsSettled s prepared _ _ _ _ on
  strategy-IsSettled default s prepared on = queue-IsSettled s prepared _ _ _ _ on

  exhausted-IsSettled :
      (s : LifecycleState) (prepared : PreparedWorkerOutcome)
      → IsSettled
          (handle_continuation_exhausted config services message s prepared)
          prepared.latest_issue.id
  unfolding handle_continuation_exhausted
  exhausted-IsSettled s prepared = release-IsSettled (complete services s prepared _) prepared

  dispatch-IsSettled :
      (s : LifecycleState) (prepared : PreparedWorkerOutcome)
      → s.running ≡ true
      → IsSettled (dispatch config services message s prepared) prepared.latest_issue.id
  unfolding dispatch queue_prepared_retry
  dispatch-IsSettled s prepared on = ground (
    arith,
    exhausted-IsSettled s prepared,
    strategy-IsSettled (classify_retry_strategy prepared.outcome.codex_error_info) s prepared on,
    queue-IsSettled s prepared (or_else prepared.attempt 0 + 1) 1000 (some (codes "continuation"))
        prepared.entry.session_id on,
    queue-IsSettled s prepared (or_else prepared.attempt 1) 0
        (some (codes "model_override_updated")) none on,
  )

  completed-IsSettled :
      (s : LifecycleState) (prepared : PreparedWorkerOutcome)
      → IsSettled (finalize_terminal_cleanup services s prepared) prepared.latest_issue.id
        × IsSettled (finalize_inactive_issue services s prepared) prepared.latest_issue.id
        × IsSettled
            (finalize_cancelled_or_hard_failure services s prepared)
            prepared.latest_issue.id
        × IsSettled (finalize_operator_abort services s prepared) prepared.latest_issue.id
  unfolding finalize_terminal_cleanup finalize_inactive_issue finalize_cancelled_or_hard_failure
      finalize_operator_abort
  completed-IsSettled s prepared = (
    release-IsSettled (complete services s prepared _) prepared,
    release-IsSettled (complete services s prepared _) prepared,
    release-IsSettled (complete services s prepared _) prepared,
    release-IsSettled
        (suppress_issue_dispatch services (complete services s prepared _) prepared.latest_issue)
        prepared,
  )

  with_view-IsSettled :
      (s : LifecycleState) (identifier state : Text) (view : Option RuntimeIssueView) (id : Text)
      → IsSettled s id
      → IsSettled (with_view services s identifier state view) id
  unfolding set_completed_view_in_state
  with_view-IsSettled s identifier state none id h = h
  with_view-IsSettled s identifier state (some view) id h = h

  with_state-IsSettled :
      (s : LifecycleState) (identifier : Text) (state : Option Text) (id : Text)
      → IsSettled s id
      → IsSettled (with_state services s identifier state) id
  with_state-IsSettled s identifier none id h = h
  with_state-IsSettled s identifier (some []) id h = h
  with_state-IsSettled s identifier (some (c ∷ state)) id h =
      with_view-IsSettled s identifier (c ∷ state) (get s.completed_views identifier) id h

  -- The stop signal that the handler acts on.
  abbrev pub signal_of : PreparedWorkerOutcome → Option StopSignal
  signal_of prepared =
      first_some prepared.entry.last_stop_signal
        (services.detect_stop_signal prepared.entry.last_agent_message_content)

  signal-IsSettled :
      (signal : Option StopSignal) (s : LifecycleState) (prepared : PreparedWorkerOutcome)
      → s.running ≡ true
      → (signal ≡ some done)
        ⊎ IsSettled
            (signal_or_dispatch config services message signal s prepared)
            prepared.latest_issue.id
  unfolding finalize_stop_signal
  signal-IsSettled none s prepared on = inr (dispatch-IsSettled s prepared on)
  signal-IsSettled (some done) s prepared on = inl refl
  signal-IsSettled (some blocked) s prepared on = inr (
      with_state-IsSettled (release_claim (complete services s prepared _) prepared)
        prepared.latest_issue.identifier (services.completion_writeback prepared.latest_issue)
        prepared.latest_issue.id (release-IsSettled (complete services s prepared _) prepared))

  -- When the outcome of a worker has been handled, its issue is still claimed only where a retry was
  -- queued for it, or where the service runs, the issue is active and not terminal, and the agent
  -- reported that the work is done.
  pub handle_prepared-claim :
      (s : LifecycleState) (prepared : PreparedWorkerOutcome)
      → is_claimed (handle_prepared config services message s prepared) prepared.latest_issue.id
        ≡ true
      → is_retrying (handle_prepared config services message s prepared) prepared.latest_issue.id
        ≡ false
      → (s.running ≡ true)
        × (is_terminal_state prepared.latest_issue.state config ≡ false)
        × (is_active_state prepared.latest_issue.state config ≡ true)
        × (signal_of prepared ≡ some done)
  unfolding handle_prepared dispatch_post_reconciliation
  handle_prepared-claim s prepared claimed free = ground (
    arith,
    finalize_service_stopped-IsSettled s prepared,
    completed-IsSettled s prepared,
    dispatch-IsSettled s prepared,
    signal-IsSettled (signal_of prepared) s prepared,
  )
