-- ===== src/Orchestrator/Queue.antt =====
-- `projectQueueAndDetailViews` and `seedCompletedClaimsFromAttempts` of
-- src/orchestrator/core/lifecycle-state.ts, with `refreshQueueViews` and `seedCompletedClaims` of
-- lifecycle.ts: the views of what is queued, and what a new process takes from earlier attempts.
pub mod Laws
pub mod Seeds
use risoluto.Prelude.{
  ℕ, ◌+◌, Bool, true, false, not, ◌||◌, ◌&&◌, List, [], ◌∷◌, ◌++◌, Option, none, some, Dict, get,
  put, values, includes, add, add_all, take, length, ltb, Text, text_eq, nat_eq, codes, or_else,
  if◌then◌else◌, ◌==◌,
}
use risoluto.Core.Types.{Issue, ServiceConfig, ModelSelection}
use risoluto.Orchestrator.Runtime.{
  RuntimeIssueView, RecentEvent, AttemptRecord, AttemptStatus, running, completed, failed,
  timed_out, stalled, cancelled, paused,
}
use risoluto.Orchestrator.Dispatch.{Host, sort_issues_for_dispatch}
use risoluto.Orchestrator.State.{
  LifecycleState, issue_view, push_event, set_queued_views_in_state, mark_dirty,
}
use risoluto.Orchestrator.Launch.{can_dispatch_issue, resolve_model_selection}

abbrev pub visible_queue_limit : ℕ
visible_queue_limit = 50

-- The filter by `canDispatchIssue`, which prunes suppressions on the way.
unfoldable pub keep_dispatchable :
    ServiceConfig → LifecycleState → List Issue → LifecycleState × List Issue
unfolding can_dispatch_issue
keep_dispatchable config s [] = (s, [])
keep_dispatchable config s (issue ∷ issues) =
    let (s', dispatchable) = can_dispatch_issue config s issue in
    let (after, rest) = keep_dispatchable config s' issues in
    (after, if dispatchable then issue ∷ rest else rest)

-- `metadata` is the text of the state and the priority of an issue, which the host writes.
module _ (config : ServiceConfig) (now : Text) (metadata : Issue → Text) where
  abbrev pub with_selection : RuntimeIssueView → ModelSelection → RuntimeIssueView
  with_selection view selection = record view {
    configured_model = some selection.model;
    configured_reasoning_effort = selection.reasoning_effort;
    configured_model_source = some selection.source;
    model_change_pending = some false;
    model = some selection.model;
    reasoning_effort = selection.reasoning_effort;
    model_source = some selection.source;
  }

  unfoldable pub detail_view : LifecycleState → Issue → RuntimeIssueView
  unfolding issue_view
  detail_view s issue =
      with_selection (issue_view now issue)
        (resolve_model_selection s.issue_model_overrides config issue.identifier)

  unfoldable pub queued_view : LifecycleState → Issue → RuntimeIssueView
  unfolding detail_view
  queued_view s issue = record (detail_view s issue) { status = codes "queued" }

  abbrev pub queued_views : LifecycleState → List Issue → List RuntimeIssueView
  queued_views s [] = []
  queued_views s (issue ∷ issues) = queued_view s issue ∷ queued_views s issues

  unfoldable pub put_detail_views :
      LifecycleState → Dict Text RuntimeIssueView → List Issue → Dict Text RuntimeIssueView
  put_detail_views s views [] = views
  put_detail_views s views (issue ∷ issues) =
      put_detail_views s (put views issue.identifier (detail_view s issue)) issues

  abbrev pub queued_event : Issue → RecentEvent
  queued_event issue = record {
    at = now;
    issue_id = some issue.id;
    issue_identifier = some issue.identifier;
    session_id = none;
    event = codes "issue_queued";
    message = codes "Issue queued for dispatch";
    content = none;
    metadata = some (metadata issue);
  }

  unfoldable pub queued_events : List Text → List Issue → List RecentEvent
  queued_events previous [] = []
  queued_events previous (issue ∷ issues) =
      let rest = queued_events previous issues in
      if includes previous issue.id then rest else queued_event issue ∷ rest

  abbrev pub view_ids : List RuntimeIssueView → List Text
  view_ids [] = []
  view_ids (view ∷ views) = view.issue_id ∷ view_ids views

  abbrev pub push_events : LifecycleState → List RecentEvent → LifecycleState
  push_events s [] = s
  push_events s (event ∷ events) = push_events (push_event s event) events

  -- The detail views are replaced as a whole; the callback is called where there were or are any.
  abbrev pub refresh_detail_views : LifecycleState → Dict Text RuntimeIssueView → LifecycleState
  refresh_detail_views s next =
      let replaced = record s { detail_views = next } in
      if ltb 0 (length s.detail_views) || ltb 0 (length next) then mark_dirty replaced else replaced

  unfoldable pub refresh_queue_views : Host → LifecycleState → List Issue → LifecycleState
  unfolding keep_dispatchable put_detail_views queued_view queued_events
  refresh_queue_views host s issues =
      let sorted = sort_issues_for_dispatch host issues in
      let previous = view_ids s.queued_views in
      let (s', dispatchable) = keep_dispatchable config s sorted in
      let visible = take visible_queue_limit dispatchable in
      let pushed = push_events s' (queued_events previous visible) in
      refresh_detail_views (set_queued_views_in_state pushed (queued_views s' visible))
        (put_detail_views s' [] sorted)

-- `>` on texts of the host: the first code unit that differs decides, and a prefix is less.
unfoldable pub text_greater : Text → Text → Bool
text_greater [] b = false
text_greater (x ∷ a) [] = true
text_greater (x ∷ a) (y ∷ b) = let rest = text_greater a b in if x == y then rest else ltb y x

abbrev pub is_newer : AttemptRecord → Option AttemptRecord → Bool
is_newer attempt none = true
is_newer attempt (some existing) = text_greater attempt.started_at existing.started_at

unfoldable pub latest_by_issue :
    Dict Text AttemptRecord → List AttemptRecord → Dict Text AttemptRecord
unfolding text_greater
latest_by_issue latest [] = latest
latest_by_issue latest (attempt ∷ attempts) =
    latest_by_issue
      (if is_newer attempt (get latest attempt.issue_identifier)
        then put latest attempt.issue_identifier attempt
        else latest)
      attempts

abbrev pub is_completed : AttemptStatus → Bool
is_completed completed = true
is_completed _ = false

abbrev pub is_terminal_attempt : AttemptStatus → Bool
is_terminal_attempt running = false
is_terminal_attempt _ = true

abbrev pub status_text : AttemptStatus → Text
status_text running = codes "running"
status_text completed = codes "completed"
status_text failed = codes "failed"
status_text timed_out = codes "timed_out"
status_text stalled = codes "stalled"
status_text cancelled = codes "cancelled"
status_text paused = codes "paused"

unfoldable pub attempt_status_to_linear_state : AttemptStatus → Text
attempt_status_to_linear_state completed = codes "Done"
attempt_status_to_linear_state failed = codes "Canceled"
attempt_status_to_linear_state timed_out = codes "Canceled"
attempt_status_to_linear_state stalled = codes "Canceled"
attempt_status_to_linear_state cancelled = codes "Canceled"
attempt_status_to_linear_state running = codes "running"
attempt_status_to_linear_state paused = codes "paused"

-- Fields that the source leaves out are `none` or empty.
unfoldable pub attempt_to_completed_view : AttemptRecord → RuntimeIssueView
unfolding attempt_status_to_linear_state
attempt_to_completed_view attempt = record {
  issue_id = attempt.issue_id;
  identifier = attempt.issue_identifier;
  title = attempt.title;
  state = attempt_status_to_linear_state attempt.status;
  workspace_key = attempt.workspace_key;
  workspace_path = attempt.workspace_path;
  message = attempt.error_message;
  status = status_text attempt.status;
  updated_at = or_else attempt.ended_at attempt.started_at;
  attempt = attempt.attempt_number;
  error = attempt.error_code;
  priority = none;
  labels = [];
  started_at = some attempt.started_at;
  last_event_at = none;
  token_usage = attempt.token_usage;
  model = some attempt.model;
  reasoning_effort = attempt.reasoning_effort;
  model_source = some attempt.model_source;
  configured_model = none;
  configured_reasoning_effort = none;
  configured_model_source = none;
  model_change_pending = none;
  configured_template_id = none;
  configured_template_name = none;
  url = none;
  description = none;
  blocked_by = [];
  branch_name = none;
  pull_request_url = attempt.pull_request_url;
  next_retry_due_at = none;
  created_at = none;
}

-- The loop over the latest attempts: the claims of what is completed, the views of what has ended.
unfoldable pub seed_from :
    List Text
    → Dict Text RuntimeIssueView
    → List AttemptRecord
    → List Text × Dict Text RuntimeIssueView
unfolding attempt_to_completed_view
seed_from claimed views [] = (claimed, views)
seed_from claimed views (attempt ∷ attempts) =
    seed_from (if is_completed attempt.status then add claimed attempt.issue_id else claimed)
      (if is_terminal_attempt attempt.status
        then put views attempt.issue_identifier (attempt_to_completed_view attempt)
        else views)
      attempts

unfoldable pub seed_completed_claims_from_attempts :
    List AttemptRecord → List Text × Dict Text RuntimeIssueView
unfolding seed_from latest_by_issue
seed_completed_claims_from_attempts attempts =
    seed_from [] [] (values (latest_by_issue [] attempts))

abbrev pub put_views :
    Dict Text RuntimeIssueView → Dict Text RuntimeIssueView → Dict Text RuntimeIssueView
put_views views [] = views
put_views views ((identifier, view) ∷ more) = put_views (put views identifier view) more

unfoldable pub seed_completed_claims : LifecycleState → List AttemptRecord → LifecycleState
unfolding seed_completed_claims_from_attempts
seed_completed_claims s attempts =
    let (claimed, views) = seed_completed_claims_from_attempts attempts in
    let seeded = record s {
      claimed_issue_ids = add_all s.claimed_issue_ids claimed;
      completed_views = put_views s.completed_views views;
    } in
    if ltb 0 (length views) then mark_dirty seeded else seeded
