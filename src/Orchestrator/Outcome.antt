-- ===== src/Orchestrator/Outcome.antt =====
-- src/orchestrator/worker-outcome (prepare.ts, finalize.ts, types.ts) and `projectOutcomeIssueView` of
-- core/snapshot-projection.ts: what becomes of an issue when its worker ends. Notifications, events for
-- the bus and the records written for display are output and left out; what the services answer is
-- in `OutcomeServices`.
use risoluto.Prelude.{
  ℕ, Bool, false, Option, none, some, delete, Text, text_eq, codes, or_else, if◌then◌else◌,
}
use risoluto.Core.Types.{Issue, ServiceConfig, ModelSelection}
use risoluto.Orchestrator.Runtime.{
  RunningEntry, Workspace, RunOutcome, OutcomeKind, normal, failed, timed_out, stalled, cancelled,
  RuntimeIssueView, StopSignal,
}
use risoluto.Orchestrator.State.{
  LifecycleState, mark_dirty, release_issue_claim_in_state, set_detail_view_in_state,
  set_completed_view_in_state, issue_view,
}
use risoluto.Orchestrator.Launch.{resolve_model_selection}

-- What the services answer while an outcome is handled. `fetch_issue` is the first issue that the
-- tracker sends for the id, or the issue itself where the request is rejected; `update_attempt` tells
-- whether the store takes the update; `preserved` is the result of the removal of the workspace.
pub record OutcomeServices : Type 0 where
  pub fetch_issue : Issue → Option Issue
  pub update_attempt : Text → Bool
  pub preserved : Issue → Option Bool
  pub git_post_run : RunningEntry → Option Text
  pub completion_writeback : Issue → Option Text
  pub detect_stop_signal : Option Text → Option StopSignal
  pub now_ms : ℕ
  pub now_iso : Text
  pub to_iso : ℕ → Text

pub record PreparedWorkerOutcome : Type 0 where
  pub outcome : RunOutcome
  pub entry : RunningEntry
  pub issue : Issue
  pub workspace : Workspace
  pub attempt : Option ℕ
  pub latest_issue : Issue
  pub model_selection : ModelSelection

unfoldable pub outcome_to_status : OutcomeKind → Text
outcome_to_status normal = codes "completed"
outcome_to_status timed_out = codes "timed_out"
outcome_to_status stalled = codes "stalled"
outcome_to_status cancelled = codes "cancelled"
outcome_to_status failed = codes "failed"

-- `outcome.kind` itself, as the detail view shows it.
abbrev pub kind_text : OutcomeKind → Text
kind_text normal = codes "normal"
kind_text timed_out = codes "timed_out"
kind_text stalled = codes "stalled"
kind_text cancelled = codes "cancelled"
kind_text failed = codes "failed"

pub record OutcomeOverrides : Type 0 where
  pub status : Text
  pub attempt : Option ℕ
  pub error : Option Text
  pub message : Option Text
  pub pull_request_url : Option Text

unfoldable pub project_outcome_issue_view :
    OutcomeServices
    → Issue
    → Workspace
    → RunningEntry
    → ModelSelection
    → OutcomeOverrides
    → RuntimeIssueView
unfolding issue_view
project_outcome_issue_view services issue workspace entry configured overrides =
    record (issue_view services.now_iso issue) {
      workspace_key = some workspace.workspace_key;
      workspace_path = some workspace.path;
      status = overrides.status;
      attempt = overrides.attempt;
      error = overrides.error;
      message = overrides.message;
      started_at = some (services.to_iso entry.started_at_ms);
      updated_at = services.to_iso entry.last_event_at_ms;
      last_event_at = some (services.to_iso entry.last_event_at_ms);
      token_usage = entry.token_usage;
      configured_model = some configured.model;
      configured_reasoning_effort = configured.reasoning_effort;
      configured_model_source = some configured.source;
      model_change_pending = some false;
      model = some entry.model_selection.model;
      reasoning_effort = entry.model_selection.reasoning_effort;
      model_source = some entry.model_selection.source;
      pull_request_url = overrides.pull_request_url;
    }

-- `ctx.setCompletedView(issue.identifier, ctx.buildOutcomeView(...))` on the latest issue.
unfoldable pub complete :
    OutcomeServices → LifecycleState → PreparedWorkerOutcome → OutcomeOverrides → LifecycleState
unfolding project_outcome_issue_view set_completed_view_in_state
complete services s prepared overrides =
    set_completed_view_in_state s prepared.latest_issue.identifier (
      project_outcome_issue_view services prepared.latest_issue prepared.workspace prepared.entry
        prepared.model_selection overrides)

abbrev pub release_claim : LifecycleState → PreparedWorkerOutcome → LifecycleState
release_claim s prepared = (release_issue_claim_in_state s prepared.latest_issue.id).0

-- The state after the entry is taken out, and the outcome prepared; `none` where the store rejects
-- the update of the attempt.
unfoldable pub prepare_worker_outcome :
    ServiceConfig
    → OutcomeServices
    → LifecycleState
    → RunOutcome
    → RunningEntry
    → Issue
    → Workspace
    → Option ℕ
    → LifecycleState × Option PreparedWorkerOutcome
unfolding project_outcome_issue_view set_detail_view_in_state
prepare_worker_outcome config services s outcome entry issue workspace attempt =
    let removed = mark_dirty (record s { running_entries = delete s.running_entries issue.id }) in
    let latest = or_else (services.fetch_issue issue) issue in
    let selection =
      resolve_model_selection removed.issue_model_overrides config latest.identifier in
    if services.update_attempt entry.run_id
    then (
      set_detail_view_in_state removed latest.identifier (
          project_outcome_issue_view services latest workspace entry selection (record {
            status = kind_text outcome.kind;
            attempt = attempt;
            error = outcome.error_message;
            message = outcome.error_message;
            pull_request_url = none;
          })),
      some (record {
        outcome = outcome;
        entry = entry;
        issue = issue;
        workspace = workspace;
        attempt = attempt;
        latest_issue = latest;
        model_selection = selection;
      }),
    )
    else (removed, none)
