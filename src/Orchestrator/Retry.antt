-- ===== src/Orchestrator/Retry.antt =====
-- src/orchestrator/core/retry-policy.ts and retry-coordinator.ts: which failures are retried, when,
-- and what a retry does when it is due. The timer of a retry is its entry's due time; the code after
-- the await of `revalidateAndLaunch` is a function of its own, on the state it finds then.
pub mod Due
pub mod Backoff
use risoluto.Prelude.{
  ℕ, ◌+◌, ◌-◌, ◌*◌, ◌^◌, min, Bool, true, false, not, ◌||◌, List, [], ◌∷◌, ◌++◌, Option, none, some,
  Dict, get, put, delete, has, length, Text, text_eq, codes, or_else, first_some, if◌then◌else◌,
  ◌==◌, ltb, leb,
}
use risoluto.Core.Types.{Issue, ServiceConfig, ModelSelection}
use risoluto.State.Policy.{is_active_state, is_terminal_state}
use risoluto.Orchestrator.Runtime.{
  RunningEntry, RetryRuntimeEntry, CodexErrorInfo, RunOutcome, OutcomeKind, normal,
  RuntimeIssueView, RecentEvent,
}
use risoluto.Orchestrator.State.{
  LifecycleState, mark_dirty, claim_issue_in_state, release_issue_claim_in_state,
  set_detail_view_in_state, set_completed_view_in_state, push_event, issue_view,
}
use risoluto.Orchestrator.Launch.{has_available_state_slot, resolve_model_selection}
use risoluto.Orchestrator.Outcome.{OutcomeServices, PreparedWorkerOutcome, complete, release_claim}
use risoluto.Orchestrator.Finalize.{finalize_cancelled_or_hard_failure}

pub data RetryStrategy : Type 0 where
  hard_fail : RetryStrategy
  retry : ℕ → Text → RetryStrategy
  compact_and_retry default : RetryStrategy

unfoldable pub classify_retry_strategy : Option CodexErrorInfo → RetryStrategy
classify_retry_strategy none = default
classify_retry_strategy (some info) =
    if info.type == codes "ContextWindowExceeded"
    then compact_and_retry
    else if info.type == codes "UsageLimitExceeded"
    then retry 60000 (codes "usage_limit")
    else if info.type == codes "RateLimited"
    then retry (or_else info.retry_after_ms 30000) (codes "rate_limited")
    else if info.type == codes "Unauthorized"
    then hard_fail
    else default

-- `Math.max(0, nextAttempt - 1)`; `-` stops at 0 here.
unfoldable pub compute_backoff_for_attempt : ℕ → ℕ → ℕ
compute_backoff_for_attempt current_attempt max_backoff_ms =
    let next_attempt = current_attempt + 1 in min (10000 * 2 ^ (next_attempt - 1)) max_backoff_ms

abbrev pub is_code : Option Text → Text → Bool
is_code none code = false
is_code (some error_code) code = error_code == code

abbrev pub view_workspace_key : Option RuntimeIssueView → Option Text
view_workspace_key none = none
view_workspace_key (some view) = view.workspace_key

abbrev pub queued_entry :
    ℕ → LifecycleState → Issue → ℕ → ℕ → Option Text → Option Text → RetryRuntimeEntry
queued_entry now_ms s issue attempt delay_ms error thread_id = record {
  issue_id = issue.id;
  identifier = issue.identifier;
  attempt = attempt;
  due_at_ms = now_ms + delay_ms;
  error = error;
  thread_id = thread_id;
  issue = issue;
  workspace_key = view_workspace_key (get s.detail_views issue.identifier);
}

unfoldable pub queue_retry :
    ℕ → LifecycleState → Issue → ℕ → ℕ → Option Text → Option Text → LifecycleState
unfolding claim_issue_in_state
queue_retry now_ms s issue attempt delay_ms error thread_id =
    if not s.running
    then s
    else (let claimed = claim_issue_in_state s issue.id in
        mark_dirty (record claimed {
          retry_entries =
              put claimed.retry_entries issue.id
                (queued_entry now_ms claimed issue attempt delay_ms error thread_id);
        }))

unfoldable pub cancel : LifecycleState → Text → LifecycleState
unfolding release_issue_claim_in_state
cancel s issue_id =
    let s' =
      if has s.retry_entries issue_id
      then mark_dirty (record s { retry_entries = delete s.retry_entries issue_id })
      else s in
    if has s'.running_entries issue_id then s' else (release_issue_claim_in_state s' issue_id).0

module _ (config : ServiceConfig) (services : OutcomeServices) where
  unfoldable pub queue_prepared_retry :
      LifecycleState → PreparedWorkerOutcome → ℕ → Text → Option Text → LifecycleState
  unfolding queue_retry
  queue_prepared_retry s prepared delay_ms reason thread_id =
      queue_retry services.now_ms s prepared.latest_issue (or_else prepared.attempt 0 + 1) delay_ms
        (some reason) thread_id

  unfoldable pub handle_error_retry : LifecycleState → PreparedWorkerOutcome → LifecycleState
  unfolding compute_backoff_for_attempt queue_prepared_retry
  handle_error_retry s prepared =
      let delay_ms =
        compute_backoff_for_attempt (or_else prepared.attempt 0)
          config.agent.max_retry_backoff_ms in
      queue_prepared_retry s prepared delay_ms
        (or_else prepared.outcome.error_code (codes "turn_failed"))
        (first_some prepared.entry.session_id prepared.outcome.thread_id)

  -- `exhausted_message` has the limit in it; the number is written by the host.
  unfoldable pub handle_continuation_exhausted :
      Text → LifecycleState → PreparedWorkerOutcome → LifecycleState
  unfolding complete release_issue_claim_in_state
  handle_continuation_exhausted message s prepared =
      release_claim
        (complete services s prepared (record {
          status = codes "failed";
          attempt = prepared.attempt;
          error = some (codes "max_continuations_exceeded");
          message = some message;
          pull_request_url = none;
        }))
        prepared

  abbrev pub is_normal : OutcomeKind → Bool
  is_normal normal = true
  is_normal _ = false

  abbrev pub apply_strategy :
      RetryStrategy → LifecycleState → PreparedWorkerOutcome → LifecycleState
  apply_strategy hard_fail s prepared = finalize_cancelled_or_hard_failure services s prepared
  apply_strategy (retry delay_ms reason) s prepared =
      queue_prepared_retry s prepared delay_ms reason none
  apply_strategy compact_and_retry s prepared = handle_error_retry s prepared
  apply_strategy default s prepared = handle_error_retry s prepared

  unfoldable pub dispatch : Text → LifecycleState → PreparedWorkerOutcome → LifecycleState
  unfolding queue_prepared_retry handle_error_retry handle_continuation_exhausted
      classify_retry_strategy finalize_cancelled_or_hard_failure queue_retry
  dispatch message s prepared =
      if is_normal prepared.outcome.kind
      then if ltb config.agent.max_continuation_attempts (or_else prepared.attempt 0 + 1)
        then handle_continuation_exhausted message s prepared
        else queue_prepared_retry s prepared 1000 (codes "continuation") prepared.entry.session_id
      else if is_code prepared.outcome.error_code (codes "model_override_updated")
      then queue_retry services.now_ms s prepared.latest_issue (or_else prepared.attempt 1) 0
          (some (codes "model_override_updated")) none
      else apply_strategy (classify_retry_strategy prepared.outcome.codex_error_info) s prepared

  -- The checks of a retry that is due, once the tracker has answered `latest` for it: the new state,
  -- and whether a worker is to be launched.
  unfoldable pub revalidate :
      LifecycleState → RetryRuntimeEntry → Text → ℕ → Option Issue → LifecycleState × Bool
  unfolding cancel queue_retry has_available_state_slot
  revalidate s retry_entry issue_id attempt none = (cancel s issue_id, false)
  revalidate s retry_entry issue_id attempt (some latest) =
      if is_terminal_state latest.state config
      then (cancel s issue_id, false)
      else if not (is_active_state latest.state config)
      then (cancel s issue_id, false)
      else if leb config.agent.max_concurrent_agents (length s.running_entries)
          || not (has_available_state_slot latest config s.running_entries none none)
      then (
        queue_retry services.now_ms s latest attempt 1000 retry_entry.error retry_entry.thread_id,
        false,
      )
      else (mark_dirty (record s { retry_entries = delete s.retry_entries issue_id }), true)
