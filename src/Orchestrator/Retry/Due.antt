-- ===== src/Orchestrator/Retry/Due.antt =====
-- The callback of a retry's timer in src/orchestrator/retry-coordinator.ts: `revalidateAndLaunch`, and
-- `handleRetryLaunchFailure` where it throws. It awaits the tracker between `retry_asked` and
-- `retry_answered`, which has the entry of the first and the state of then. The launch is an argument: the new state, and whether it
-- threw. What is persisted of a failure is output and left out.
use risoluto.Prelude.{
  ℕ, Bool, true, false, not, ◌++◌, Option, none, some, get, delete, Text, text_eq, codes, or_else,
  first_some, if◌then◌else◌,
}
use risoluto.Core.Types.{Issue, ServiceConfig}
use risoluto.Orchestrator.Runtime.{RunningEntry, RetryRuntimeEntry, RuntimeIssueView}
use risoluto.Orchestrator.State.{
  LifecycleState, mark_dirty, set_detail_view_in_state, set_completed_view_in_state, push_event,
  issue_view,
}
use risoluto.Orchestrator.Launch.{resolve_model_selection}
use risoluto.Orchestrator.Worker.{LaunchServices, launch_worker}
use risoluto.Orchestrator.Outcome.{OutcomeServices}
use risoluto.Orchestrator.Retry.{cancel, revalidate, view_workspace_key}

-- What the tracker answers: a rejection, or the first of the issues it sends.
pub data Fetched : Type 0 where
  rejected : Fetched
  fetched : Option Issue → Fetched

abbrev pub of_entry {ℓ} : {A : Type ℓ} → (RunningEntry → Option A) → Option RunningEntry → Option A
of_entry field none = none
of_entry field (some entry) = field entry

-- `launchWorker(latestIssue, attempt, { claimHeld: true, previousThreadId })`
abbrev pub retry_launch :
    ServiceConfig
    → LaunchServices
    → LifecycleState
    → Issue
    → ℕ
    → Option Text
    → LifecycleState × Bool
retry_launch config launch_services s latest attempt thread_id =
    launch_worker config launch_services s latest (some attempt) (record {
      claim_held = true;
      previous_thread_id = thread_id;
      model_selection_override = none;
      recovered_attempt = none;
    })

-- The callback up to its await: the entry with which it asks the tracker, if it asks at all.
unfoldable pub retry_asked : LifecycleState → Text → Option RetryRuntimeEntry
retry_asked s issue_id = if not s.running then none else get s.retry_entries issue_id

module _ (config : ServiceConfig) (services : OutcomeServices) where
  unfoldable pub build_retry_failure_view :
      LifecycleState → Issue → Option RunningEntry → Text → ℕ → RuntimeIssueView
  unfolding issue_view
  build_retry_failure_view s issue running_entry error_text attempt =
      let configured = resolve_model_selection s.issue_model_overrides config issue.identifier in
      let selection = or_else (of_entry (λ e. some e.model_selection) running_entry) configured in
      record (issue_view services.now_iso issue) {
        workspace_key =
            first_some (of_entry (λ e. some e.workspace.workspace_key) running_entry)
              (view_workspace_key (get s.detail_views issue.identifier));
        workspace_path = of_entry (λ e. some e.workspace.path) running_entry;
        status = codes "failed";
        attempt = some attempt;
        error = some error_text;
        message = some (codes "retry startup failed: " ++ error_text);
        started_at = of_entry (λ e. some (services.to_iso e.started_at_ms)) running_entry;
        token_usage = of_entry (λ e. e.token_usage) running_entry;
        configured_model = some configured.model;
        configured_reasoning_effort = configured.reasoning_effort;
        configured_model_source = some configured.source;
        model_change_pending = some false;
        model = some selection.model;
        reasoning_effort = selection.reasoning_effort;
        model_source = some selection.source;
      }

  unfoldable pub handle_retry_launch_failure : LifecycleState → Issue → ℕ → Text → LifecycleState
  unfolding cancel push_event build_retry_failure_view set_detail_view_in_state
      set_completed_view_in_state
  handle_retry_launch_failure s issue attempt error_text =
      let running_entry = get s.running_entries issue.id in
      let removed = mark_dirty (record s { running_entries = delete s.running_entries issue.id }) in
      let cancelled = cancel removed issue.id in
      let pushed = push_event cancelled (record {
        at = services.now_iso;
        issue_id = some issue.id;
        issue_identifier = some issue.identifier;
        session_id = of_entry (λ e. e.session_id) running_entry;
        event = codes "worker_failed";
        message = codes "retry startup failed: " ++ error_text;
        content = none;
        metadata = none;
      }) in
      let view = build_retry_failure_view pushed issue running_entry error_text attempt in
      set_completed_view_in_state (set_detail_view_in_state pushed issue.identifier view)
        issue.identifier view

  module _ (launch : LifecycleState → Issue → ℕ → Option Text → LifecycleState × Bool) where
    -- The launch of a retry that passed its checks.
    abbrev pub launch_retry :
        LifecycleState × Bool → RetryRuntimeEntry → ℕ → Option Issue → LifecycleState × Bool
    launch_retry (s, true) retry_entry attempt (some latest) =
        launch s latest attempt retry_entry.thread_id
    launch_retry (s, go) retry_entry attempt latest = (s, false)

    abbrev pub revalidate_entry :
        LifecycleState → RetryRuntimeEntry → Text → ℕ → Fetched → LifecycleState × Bool
    revalidate_entry s retry_entry issue_id attempt rejected = (s, true)
    revalidate_entry s retry_entry issue_id attempt (fetched latest) =
        launch_retry (revalidate config services s retry_entry issue_id attempt latest) retry_entry
          attempt latest

    -- The callback once the tracker has answered, on the state it then finds; the error's text is
    -- written by the host.
    unfoldable pub retry_answered :
        LifecycleState → RetryRuntimeEntry → Issue → ℕ → Text → Fetched → LifecycleState
    unfolding revalidate handle_retry_launch_failure
    retry_answered s retry_entry issue attempt error_text answer =
        let (s', threw) = revalidate_entry s retry_entry issue.id attempt answer in
        if threw then handle_retry_launch_failure s' issue attempt error_text else s'
