-- ===== src/Orchestrator/Runtime.antt =====
-- src/orchestrator/runtime-types.ts with the records of src/core/types that the orchestrator keeps.
-- Promises, timers and functions stored in the entries are left out; an abort controller is the
-- reason that it was aborted with, if it was. What the code calls `unknown` is kept as its text.
use risoluto.Prelude.{ℕ, Bool, List, Option, Text}
use risoluto.Core.Types.{
  Issue, IssueBlockerRef, TokenUsageSnapshot, ReasoningEffort, SelectionSource, ModelSelection,
}

pub data StopSignal : Type 0 where
  done blocked : StopSignal

pub record Workspace : Type 0 where
  pub path : Text
  pub workspace_key : Text
  pub created_now : Bool

pub data WorkerStatus : Type 0 where
  running stopping : WorkerStatus

pub record RunningEntry : Type 0 where
  pub run_id : Text
  pub issue : Issue
  pub workspace : Workspace
  pub started_at_ms : ℕ
  pub last_event_at_ms : ℕ
  pub attempt : Option ℕ
  pub abort_reason : Option Text
  pub cleanup_on_exit : Bool
  pub status : WorkerStatus
  pub session_id : Option Text
  pub token_usage : Option TokenUsageSnapshot
  pub model_selection : ModelSelection
  pub last_agent_message_content : Option Text
  pub last_stop_signal : Option StopSignal

pub record RetryRuntimeEntry : Type 0 where
  pub issue_id : Text
  pub identifier : Text
  pub attempt : ℕ
  pub due_at_ms : ℕ
  pub error : Option Text
  pub thread_id : Option Text
  pub issue : Issue
  pub workspace_key : Option Text

pub data OutcomeKind : Type 0 where
  normal failed timed_out stalled cancelled : OutcomeKind

pub record CodexErrorInfo : Type 0 where
  pub type : Text
  pub message : Text
  pub retry_after_ms : Option ℕ

pub record RunOutcome : Type 0 where
  pub kind : OutcomeKind
  pub error_code : Option Text
  pub error_message : Option Text
  pub codex_error_info : Option CodexErrorInfo
  pub thread_id : Option Text
  pub turn_id : Option Text
  pub turn_count : ℕ

pub record RecentEvent : Type 0 where
  pub at : Text
  pub issue_id : Option Text
  pub issue_identifier : Option Text
  pub session_id : Option Text
  pub event : Text
  pub message : Text
  pub content : Option Text
  pub metadata : Option Text

pub record RuntimeIssueView : Type 0 where
  pub issue_id : Text
  pub identifier : Text
  pub title : Text
  pub state : Text
  pub workspace_key : Option Text
  pub workspace_path : Option Text
  pub message : Option Text
  pub status : Text
  pub updated_at : Text
  pub attempt : Option ℕ
  pub error : Option Text
  pub priority : Option ℕ
  pub labels : List Text
  pub started_at : Option Text
  pub last_event_at : Option Text
  pub token_usage : Option TokenUsageSnapshot
  pub model : Option Text
  pub reasoning_effort : Option ReasoningEffort
  pub model_source : Option SelectionSource
  pub configured_model : Option Text
  pub configured_reasoning_effort : Option ReasoningEffort
  pub configured_model_source : Option SelectionSource
  pub model_change_pending : Option Bool
  pub configured_template_id : Option Text
  pub configured_template_name : Option Text
  pub url : Option Text
  pub description : Option Text
  pub blocked_by : List IssueBlockerRef
  pub branch_name : Option Text
  pub pull_request_url : Option Text
  pub next_retry_due_at : Option Text
  pub created_at : Option Text

pub data AttemptStatus : Type 0 where
  running completed failed timed_out stalled cancelled paused : AttemptStatus

pub record AttemptRecord : Type 0 where
  pub attempt_id : Text
  pub issue_id : Text
  pub issue_identifier : Text
  pub title : Text
  pub workspace_key : Option Text
  pub workspace_path : Option Text
  pub status : AttemptStatus
  pub attempt_number : Option ℕ
  pub started_at : Text
  pub ended_at : Option Text
  pub model : Text
  pub reasoning_effort : Option ReasoningEffort
  pub model_source : SelectionSource
  pub thread_id : Option Text
  pub turn_id : Option Text
  pub turn_count : ℕ
  pub error_code : Option Text
  pub error_message : Option Text
  pub token_usage : Option TokenUsageSnapshot
  pub pull_request_url : Option Text
  pub stop_signal : Option StopSignal
  pub summary : Option Text
