-- ===== src/Orchestrator/Facade/Commands.antt =====
-- The commands of src/orchestrator/orchestrator.ts, with src/orchestrator/issue-locator.ts and
-- updateIssueModelSelection of src/orchestrator/model-selection.ts. Steering hands a message to the
-- turn of a worker and is left out.
pub mod Laws
use risoluto.Prelude.{
  ℕ, Bool, true, false, ◌||◌, List, [], ◌∷◌, ◌++◌, Option, none, some, map, Dict, get, put, put_all,
  delete, Text, text_eq, codes, is_some, if◌then◌else◌,
}
use risoluto.Core.Types.{Issue, ServiceConfig, ReasoningEffort, ModelSelection}
use risoluto.Orchestrator.Runtime.{
  RunningEntry, RetryRuntimeEntry, RuntimeIssueView, RecentEvent, WorkerStatus, stopping,
}
use risoluto.Orchestrator.State.{LifecycleState, mark_dirty, push_event}
use risoluto.Orchestrator.Launch.{resolve_model_selection}
use risoluto.Orchestrator.Facade.{Orchestrator, abort_worker, handle_refresh_command}

abbrev pub indexed : Text × RunningEntry → Text × (Text × RunningEntry)
indexed (id, entry) = (entry.issue.identifier, (id, entry))

-- `buildRunningEntryIndex` with the key of each entry in the map of the running ones, and
-- `buildRetryEntryIndex`. Of entries with one identifier the last counts.
unfoldable pub build_running_entry_index : Dict Text RunningEntry → Dict Text (Text × RunningEntry)
build_running_entry_index entries = put_all [] (map indexed entries)

unfoldable pub build_retry_entry_index : Dict Text RetryRuntimeEntry → Dict Text RetryRuntimeEntry
build_retry_entry_index entries = put_all [] (map (λ e. (e.1.identifier, e.1)) entries)

pub data IssueLocation : Type 0 where
  running : Text → RunningEntry → IssueLocation
  retry : RetryRuntimeEntry → IssueLocation
  completed : RuntimeIssueView → IssueLocation
  detail : RuntimeIssueView → IssueLocation

abbrev pub located :
    Option (Text × RunningEntry)
    → Option RetryRuntimeEntry
    → Option RuntimeIssueView
    → Option RuntimeIssueView
    → Option IssueLocation
located (some (id, entry)) r c d = some (running id entry)
located none (some entry) c d = some (retry entry)
located none none (some view) d = some (completed view)
located none none none (some view) = some (detail view)
located none none none none = none

-- Where an issue is, over the maps that the caller hands in.
unfoldable pub resolve_issue :
    Dict Text RunningEntry
    → Dict Text RetryRuntimeEntry
    → Dict Text RuntimeIssueView
    → Dict Text RuntimeIssueView
    → Text
    → Option IssueLocation
resolve_issue running_entries retry_entries completed_views detail_views identifier =
    located (get (build_running_entry_index running_entries) identifier)
      (get (build_retry_entry_index retry_entries) identifier) (get completed_views identifier)
      (get detail_views identifier)

-- Whether `getIssueDetail` finds the issue.
unfoldable pub has_issue_detail : LifecycleState → Text → Bool
has_issue_detail s identifier =
    is_some
      (resolve_issue s.running_entries s.retry_entries s.completed_views s.detail_views identifier)

abbrev pub entry_event : Text → RunningEntry → Text → Text → RecentEvent
entry_event at entry event message = record {
  at = at;
  issue_id = some entry.issue.id;
  issue_identifier = some entry.issue.identifier;
  session_id = entry.session_id;
  event = event;
  message = message;
  content = none;
  metadata = none;
}

abbrev pub is_stopping_status : WorkerStatus → Bool
is_stopping_status stopping = true
is_stopping_status WorkerStatus.running = false

abbrev pub is_stopping : RunningEntry → Bool
is_stopping entry = is_stopping_status entry.status || is_some entry.abort_reason

abbrev pub stop_worker : Text → RunningEntry → RunningEntry
stop_worker reason entry = record (abort_worker reason entry) { status = stopping }

-- `entry.status = "stopping"`, the event and the abort of a worker.
unfoldable pub stop_running :
    LifecycleState → Text → RunningEntry → Text → RecentEvent → LifecycleState
stop_running s id entry reason event =
    push_event
      (mark_dirty
        (record s { running_entries = put s.running_entries id (stop_worker reason entry) }))
      event

pub data Command : Type 0 where
  refresh : Command
  abort_issue : Text → Command
  update_issue_model_selection : Text → Text → Option ReasoningEffort → Command
  set_issue_template_override : Text → Text → Command
  clear_issue_template_override : Text → Command

-- `refused` stands for the result `null`.
pub data CommandResult : Type 0 where
  refreshed : Bool → CommandResult
  aborted : Bool → CommandResult
  not_found conflict refused updated cleared : CommandResult
  selected : Bool → ModelSelection → CommandResult

module _ (now : Text) where
  abbrev pub abort_found :
      Orchestrator → Text → Option (Text × RunningEntry) → Orchestrator × CommandResult
  abort_found o identifier none =
      (o, if has_issue_detail o.state identifier then conflict else not_found)
  abort_found o identifier (some (id, entry)) =
      if is_stopping entry then ((handle_refresh_command o).0, aborted true) else (
        (handle_refresh_command (record o {
          state = stop_running o.state id entry (codes "operator_abort") (
              entry_event now entry (codes "worker_abort_requested")
                (codes "operator requested worker abort"));
        })).0,
        aborted false,
      )

  unfoldable pub handle_abort_issue_command : Orchestrator → Text → Orchestrator × CommandResult
  handle_abort_issue_command o identifier =
      abort_found o identifier (get (build_running_entry_index o.state.running_entries) identifier)

  abbrev pub stop_found : Orchestrator → Text → Option (Text × RunningEntry) → Orchestrator
  stop_found o reason none = o
  stop_found o reason (some (id, entry)) =
      if is_stopping entry
      then o
      else (handle_refresh_command (record o {
        state = stop_running o.state id entry (codes "webhook_stop") (
            entry_event now entry (codes "worker_webhook_stop")
              (codes "worker stopped via webhook: " ++ reason));
      })).0

  unfoldable pub stop_worker_for_issue : Orchestrator → Text → Text → Orchestrator
  stop_worker_for_issue o identifier reason =
      stop_found o reason (get (build_running_entry_index o.state.running_entries) identifier)

  -- Where the issue is decides whether the selection waits for its next attempt. `message` is that
  -- of the event.
  abbrev pub selection_applied :
      Orchestrator → ModelSelection → Text → Option IssueLocation → Orchestrator × CommandResult
  selection_applied o selection message none =
      ((handle_refresh_command o).0, selected false selection)
  selection_applied o selection message (some (running id entry)) =
      if is_some entry.abort_reason
      then ((handle_refresh_command o).0, selected false selection)
      else (
        record o {
          state =
              push_event o.state (entry_event now entry (codes "model_selection_updated") message);
        },
        selected true selection,
      )
  selection_applied o selection message (some (retry entry)) = (
    record o {
      state = push_event o.state (record {
        at = now;
        issue_id = some entry.issue.id;
        issue_identifier = some entry.issue.identifier;
        session_id = none;
        event = codes "model_selection_updated";
        message = message;
        content = none;
        metadata = none;
      });
    },
    selected true selection,
  )
  selection_applied o selection message (some (completed view)) =
      ((handle_refresh_command o).0, selected false selection)
  selection_applied o selection message (some (detail view)) =
      ((handle_refresh_command o).0, selected false selection)

  module _ (config : ServiceConfig) (message : ModelSelection → Text) where
    unfoldable pub update_model_selection :
        Orchestrator → Text → Text → Option ReasoningEffort → Orchestrator × CommandResult
    update_model_selection o identifier model effort =
        let s = mark_dirty (record o.state {
          issue_model_overrides = put o.state.issue_model_overrides identifier (model, effort);
        }) in
        let selection = resolve_model_selection s.issue_model_overrides config identifier in
        if has_issue_detail o.state identifier
        then selection_applied (record o { state = s }) selection (message selection)
            (resolve_issue s.running_entries s.retry_entries [] [] identifier)
        else (o, refused)

    unfoldable pub execute_command : Orchestrator → Command → Orchestrator × CommandResult
    execute_command o refresh =
        ((handle_refresh_command o).0, refreshed (handle_refresh_command o).1)
    execute_command o (abort_issue identifier) = handle_abort_issue_command o identifier
    execute_command o (update_issue_model_selection identifier model effort) =
        update_model_selection o identifier model effort
    execute_command o (set_issue_template_override identifier template_id) =
        if has_issue_detail o.state identifier
        then (
          record o {
            state = mark_dirty (record o.state {
              issue_template_overrides =
                  put o.state.issue_template_overrides identifier template_id;
            });
          },
          updated,
        )
        else (o, refused)
    execute_command o (clear_issue_template_override identifier) =
        if has_issue_detail o.state identifier
        then (
          record o {
            state = mark_dirty (record o.state {
              issue_template_overrides = delete o.state.issue_template_overrides identifier;
            });
          },
          cleared,
        )
        else (o, refused)
