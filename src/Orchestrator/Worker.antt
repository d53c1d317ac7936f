-- ===== src/Orchestrator/Worker.antt =====
-- `launchWorker` of src/orchestrator/worker-launcher.ts and what it calls there. What the workspace
-- manager, the attempt store, the templates and the agent runner answer are parameters; the function
-- holds the workspace's lock while it runs, and its steps are modelled as one.
pub mod Laws
pub mod Events
pub mod Rounds
use risoluto.Prelude.{
  ℕ, Bool, true, false, not, ◌||◌, ◌&&◌, List, [], ◌∷◌, Option, none, some, Dict, get, put, delete,
  keep, Text, text_eq, codes, or_else, first_some, if◌then◌else◌, ◌==◌,
}
use risoluto.Core.Types.{
  Issue, ServiceConfig, ModelSelection, SelectionSource, ReasoningEffort, TokenUsageSnapshot,
}
use risoluto.Orchestrator.Runtime.{
  RunningEntry, Workspace, WorkerStatus, running, AttemptRecord, RuntimeIssueView, RecentEvent,
  StopSignal,
}
use risoluto.Orchestrator.State.{
  LifecycleState, UsageMode, delta, claim_issue_in_state, release_issue_claim_in_state, mark_dirty,
  set_queued_views_in_state, issue_view, apply_usage_event_in_state, push_event,
  set_rate_limits_in_state,
}
use risoluto.Orchestrator.Launch.{resolve_model_selection}

-- What the services answer during a launch: `none` and `false` stand for a rejection.
pub record LaunchServices : Type 0 where
  pub prepare_workspace : Issue → Option Workspace
  pub persist : RunningEntry → Bool
  pub resolve_template : Text → Bool
  pub run_attempt : RunningEntry → Bool
  pub now_ms : ℕ
  pub now_iso : Text
  pub random_uuid : Text
  pub parse_date : Text → Option ℕ

pub record LaunchWorkerOptions : Type 0 where
  pub claim_held : Bool
  pub previous_thread_id : Option Text
  pub model_selection_override : Option ModelSelection
  pub recovered_attempt : Option AttemptRecord

-- An event of the agent, with the usage and the limits it may carry.
pub record AgentEvent : Type 0 where
  pub recent : RecentEvent
  pub usage : Option TokenUsageSnapshot
  pub usage_mode : Option UsageMode
  pub rate_limits : Option Text
  pub stop_signal : Option StopSignal

-- `recoveredAttempt?.field ?? otherwise`
abbrev pub recovered {ℓ} :
    {A : Type ℓ} → (AttemptRecord → Option A) → Option AttemptRecord → Option A → Option A
recovered field none otherwise = otherwise
recovered field (some a) otherwise = first_some (field a) otherwise

unfoldable pub build_running_entry :
    LaunchServices
    → Issue
    → Workspace
    → Option ℕ
    → ModelSelection
    → Option AttemptRecord
    → RunningEntry
build_running_entry services issue workspace attempt selection recovered_attempt = record {
  run_id = or_else (recovered (λ a. some a.attempt_id) recovered_attempt none) services.random_uuid;
  issue = issue;
  workspace = workspace;
  started_at_ms =
      or_else (recovered (λ a. services.parse_date a.started_at) recovered_attempt none)
        services.now_ms;
  last_event_at_ms = services.now_ms;
  attempt = recovered (λ a. a.attempt_number) recovered_attempt attempt;
  abort_reason = none;
  cleanup_on_exit = false;
  status = running;
  session_id = recovered (λ a. a.thread_id) recovered_attempt none;
  token_usage = recovered (λ a. a.token_usage) recovered_attempt none;
  model_selection = selection;
  last_agent_message_content = none;
  last_stop_signal = none;
}

-- The detail view of an issue that is being worked on.
unfoldable pub launch_view : Text → Issue → Workspace → Option ℕ → ModelSelection → RuntimeIssueView
unfolding issue_view
launch_view now issue workspace attempt selection = record (issue_view now issue) {
  workspace_key = some workspace.workspace_key;
  status = codes "running";
  attempt = attempt;
  configured_model = some selection.model;
  configured_reasoning_effort = selection.reasoning_effort;
  configured_model_source = some selection.source;
  model_change_pending = some false;
  model = some selection.model;
  reasoning_effort = selection.reasoning_effort;
  model_source = some selection.source;
}

-- What is set before the attempt is persisted.
unfoldable pub register_entry : LifecycleState → Issue → RunningEntry → LifecycleState
unfolding set_queued_views_in_state
register_entry s issue entry =
    let s' = record s {
      running_entries = put s.running_entries issue.id entry;
      completed_views = delete s.completed_views issue.identifier;
      dirty = true;
    } in
    set_queued_views_in_state s' (keep (λ view. not (view.issue_id == issue.id)) s'.queued_views)

-- The outer `catch` while the promise is not handed off.
unfoldable pub undo_launch : LifecycleState → Issue → LifecycleState
unfolding release_issue_claim_in_state
undo_launch s issue =
    mark_dirty
      (release_issue_claim_in_state
        (record s { running_entries = delete s.running_entries issue.id }) issue.id).0

-- The entry of a launch in a workspace.
abbrev pub launch_entry :
    ServiceConfig
    → LaunchServices
    → LifecycleState
    → Issue
    → Option ℕ
    → LaunchWorkerOptions
    → Workspace
    → RunningEntry
launch_entry config services s issue attempt options workspace =
    build_running_entry services issue workspace attempt
      (or_else options.model_selection_override
        (resolve_model_selection s.issue_model_overrides config issue.identifier))
      options.recovered_attempt

-- The body under the lock, in the workspace that was prepared: the state it leaves, and whether it
-- threw.
unfoldable pub start_worker :
    ServiceConfig
    → LaunchServices
    → LifecycleState
    → Issue
    → Option ℕ
    → LaunchWorkerOptions
    → Option Workspace
    → LifecycleState × Bool
unfolding build_running_entry register_entry launch_view
start_worker config services s issue attempt options none = (s, true)
start_worker config services s issue attempt options (some workspace) =
    let entry = launch_entry config services s issue attempt options workspace in
    let s' = register_entry s issue entry in
    if not (services.persist entry) then (s', true) else (
      mark_dirty (record s' {
        detail_views =
            put s'.detail_views issue.identifier
              (launch_view services.now_iso issue workspace attempt entry.model_selection);
      }),
      not (services.resolve_template issue.identifier && services.run_attempt entry),
    )

-- The new state, and whether the launch threw.
unfoldable pub launch_worker :
    ServiceConfig
    → LaunchServices
    → LifecycleState
    → Issue
    → Option ℕ
    → LaunchWorkerOptions
    → LifecycleState × Bool
unfolding start_worker undo_launch claim_issue_in_state
launch_worker config services s issue attempt options =
    let s' = if options.claim_held then s else claim_issue_in_state s issue.id in
    let (started, threw) =
      start_worker config services s' issue attempt options (services.prepare_workspace issue) in
    if threw then (undo_launch started issue, true) else (started, false)

abbrev pub usage_applied :
    LifecycleState × RunningEntry
    → Option TokenUsageSnapshot
    → Option UsageMode
    → LifecycleState × RunningEntry
usage_applied (s, entry) none mode = (s, entry)
usage_applied (s, entry) (some usage) mode =
    apply_usage_event_in_state s entry usage (or_else mode delta)

-- The content of an agent's message; an empty one is not kept.
abbrev pub message_content : RecentEvent → Option Text
message_content event =
    if event.event == codes "agent_message"
    then if or_else event.content [] == [] then none else event.content
    else none

-- What the entry keeps of an event.
abbrev pub heard_entry : ℕ → RunningEntry → AgentEvent → RunningEntry
heard_entry now_ms entry event = record entry {
  session_id = event.recent.session_id;
  last_event_at_ms = now_ms;
  last_agent_message_content =
      first_some (message_content event.recent) entry.last_agent_message_content;
  last_stop_signal = first_some event.stop_signal entry.last_stop_signal;
}

abbrev pub limits_applied :
    LifecycleState × RunningEntry → Option Text → LifecycleState × RunningEntry
limits_applied (s, entry) none = (s, entry)
limits_applied (s, entry) (some limits) = (set_rate_limits_in_state s (some limits), entry)

-- The handler of `buildOnEventHandler`: the event goes to the entry, the recent events, the usage
-- and the limits. What it queues for the attempt store is left out. The changed entry is a result, and
-- `hear_event` puts it in the map.
unfoldable pub on_agent_event :
    ℕ → LifecycleState → RunningEntry → AgentEvent → LifecycleState × RunningEntry
unfolding push_event apply_usage_event_in_state set_rate_limits_in_state
on_agent_event now_ms s entry event =
    limits_applied
      (usage_applied (push_event s event.recent, heard_entry now_ms entry event) event.usage
        event.usage_mode)
      event.rate_limits

-- The entry that the source's handler changes is the object that stands in the map: it goes back there.
unfoldable pub hear_event : ℕ → LifecycleState → Text → RunningEntry → AgentEvent → LifecycleState
unfolding on_agent_event
hear_event now_ms s id entry event =
    let (s', entry') = on_agent_event now_ms s entry event in
    record s' { running_entries = put s'.running_entries id entry' }
