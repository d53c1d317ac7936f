-- ===== src/Persistence/Mappers.antt =====
-- src/persistence/sqlite/mappers.ts: records of attempts, events and checkpoints, and their rows. An
-- absent value and `null` are both `none`; a cast of a text to an enumeration changes nothing.
pub mod Laws
use risoluto.Prelude.{
  ℕ, Bool, true, false, Option, none, some, Text, or_else, is_empty, if◌then◌else◌,
}
use risoluto.Core.Types.{TokenUsageSnapshot, ReasoningEffort, SelectionSource}
use risoluto.Orchestrator.Runtime.{AttemptRecord, AttemptStatus, StopSignal}

-- A row of the table `attempts`.
pub record AttemptRow : Type 0 where
  pub attempt_id : Text
  pub issue_id : Text
  pub issue_identifier : Text
  pub title : Text
  pub workspace_key : Option Text
  pub workspace_path : Option Text
  pub status : AttemptStatus
  pub attempt_number : Option ℕ
  pub started_at : Text
  pub ended_at : Option Text
  pub model : Text
  pub reasoning_effort : Option ReasoningEffort
  pub model_source : SelectionSource
  pub thread_id : Option Text
  pub turn_id : Option Text
  pub turn_count : ℕ
  pub error_code : Option Text
  pub error_message : Option Text
  pub input_tokens : Option ℕ
  pub output_tokens : Option ℕ
  pub total_tokens : Option ℕ
  pub pull_request_url : Option Text
  pub stop_signal : Option StopSignal
  pub summary : Option Text

unfoldable pub build_token_usage : Option ℕ → Option ℕ → Option ℕ → Option TokenUsageSnapshot
build_token_usage none none none = none
build_token_usage (some i) output total =
    some (record {
      input_tokens = i;
      output_tokens = or_else output 0;
      total_tokens = or_else total 0;
    })
build_token_usage none (some o) total =
    some (record { input_tokens = 0; output_tokens = o; total_tokens = or_else total 0 })
build_token_usage none none (some t) =
    some (record { input_tokens = 0; output_tokens = 0; total_tokens = t })

-- `usage?.inputTokens ?? null`, and so on.
abbrev pub input_of : Option TokenUsageSnapshot → Option ℕ
input_of none = none
input_of (some usage) = some usage.input_tokens

abbrev pub output_of : Option TokenUsageSnapshot → Option ℕ
output_of none = none
output_of (some usage) = some usage.output_tokens

abbrev pub total_of : Option TokenUsageSnapshot → Option ℕ
total_of none = none
total_of (some usage) = some usage.total_tokens

unfoldable pub row_to_attempt_record : AttemptRow → AttemptRecord
row_to_attempt_record row = record {
  attempt_id = row.attempt_id;
  issue_id = row.issue_id;
  issue_identifier = row.issue_identifier;
  title = row.title;
  workspace_key = row.workspace_key;
  workspace_path = row.workspace_path;
  status = row.status;
  attempt_number = row.attempt_number;
  started_at = row.started_at;
  ended_at = row.ended_at;
  model = row.model;
  reasoning_effort = row.reasoning_effort;
  model_source = row.model_source;
  thread_id = row.thread_id;
  turn_id = row.turn_id;
  turn_count = row.turn_count;
  error_code = row.error_code;
  error_message = row.error_message;
  token_usage = build_token_usage row.input_tokens row.output_tokens row.total_tokens;
  pull_request_url = row.pull_request_url;
  stop_signal = row.stop_signal;
  summary = row.summary;
}

unfoldable pub attempt_record_to_row : AttemptRecord → AttemptRow
attempt_record_to_row r = record {
  attempt_id = r.attempt_id;
  issue_id = r.issue_id;
  issue_identifier = r.issue_identifier;
  title = r.title;
  workspace_key = r.workspace_key;
  workspace_path = r.workspace_path;
  status = r.status;
  attempt_number = r.attempt_number;
  started_at = r.started_at;
  ended_at = r.ended_at;
  model = r.model;
  reasoning_effort = r.reasoning_effort;
  model_source = r.model_source;
  thread_id = r.thread_id;
  turn_id = r.turn_id;
  turn_count = r.turn_count;
  error_code = r.error_code;
  error_message = r.error_message;
  input_tokens = input_of r.token_usage;
  output_tokens = output_of r.token_usage;
  total_tokens = total_of r.token_usage;
  pull_request_url = r.pull_request_url;
  stop_signal = r.stop_signal;
  summary = r.summary;
}

pub data CheckpointTrigger : Type 0 where
  attempt_created cursor_advanced status_transition terminal_completion pr_merged :
      CheckpointTrigger

-- `metadata` is the record of `JSON.parse`, of a type from outside, as is a limit of `rateLimits`.
pub record AttemptEvent (M : Type 0) : Type 0 where
  pub attempt_id : Text
  pub at : Text
  pub issue_id : Option Text
  pub issue_identifier : Option Text
  pub session_id : Option Text
  pub event : Text
  pub message : Text
  pub content : Option Text
  pub usage : Option TokenUsageSnapshot
  pub rate_limits : Option M
  pub metadata : Option M

-- The table has no column for the limits.
pub record AttemptEventRow : Type 0 where
  pub attempt_id : Text
  pub timestamp : Text
  pub issue_id : Option Text
  pub issue_identifier : Option Text
  pub session_id : Option Text
  pub type : Text
  pub message : Text
  pub content : Option Text
  pub input_tokens : Option ℕ
  pub output_tokens : Option ℕ
  pub total_tokens : Option ℕ
  pub metadata : Option Text

-- A checkpoint but for its `checkpointId` and `ordinal`.
pub record Checkpoint (M : Type 0) : Type 0 where
  pub attempt_id : Text
  pub trigger : CheckpointTrigger
  pub event_cursor : Option ℕ
  pub status : AttemptStatus
  pub thread_id : Option Text
  pub turn_id : Option Text
  pub turn_count : ℕ
  pub token_usage : Option TokenUsageSnapshot
  pub metadata : Option M
  pub created_at : Text

pub record AttemptCheckpointRecord (M : Type 0) : Type 0 where
  pub checkpoint_id : ℕ
  pub ordinal : ℕ
  pub checkpoint : Checkpoint M

pub record CheckpointInsert : Type 0 where
  pub attempt_id : Text
  pub ordinal : ℕ
  pub trigger : CheckpointTrigger
  pub event_cursor : Option ℕ
  pub status : AttemptStatus
  pub thread_id : Option Text
  pub turn_id : Option Text
  pub turn_count : ℕ
  pub input_tokens : Option ℕ
  pub output_tokens : Option ℕ
  pub total_tokens : Option ℕ
  pub metadata : Option Text
  pub created_at : Text

-- A row of the table: the inserted one under the id that the database gave it.
pub record CheckpointRow : Type 0 where
  pub checkpoint_id : ℕ
  pub inserted : CheckpointInsert

module _ {M : Type 0} (stringify : M → Text) (parse : Text → M) where
  abbrev pub metadata_to_text : Option M → Option Text
  metadata_to_text none = none
  metadata_to_text (some m) = some (stringify m)

  -- The empty text is no metadata.
  abbrev pub text_to_metadata : Option Text → Option M
  text_to_metadata none = none
  text_to_metadata (some text) = if is_empty text then none else some (parse text)

  unfoldable pub row_to_attempt_event : AttemptEventRow → AttemptEvent M
  row_to_attempt_event row = record {
    attempt_id = row.attempt_id;
    at = row.timestamp;
    issue_id = row.issue_id;
    issue_identifier = row.issue_identifier;
    session_id = row.session_id;
    event = row.type;
    message = row.message;
    content = row.content;
    usage = build_token_usage row.input_tokens row.output_tokens row.total_tokens;
    rate_limits = none;
    metadata = text_to_metadata row.metadata;
  }

  unfoldable pub attempt_event_to_row : AttemptEvent M → AttemptEventRow
  attempt_event_to_row e = record {
    attempt_id = e.attempt_id;
    timestamp = e.at;
    issue_id = e.issue_id;
    issue_identifier = e.issue_identifier;
    session_id = e.session_id;
    type = e.event;
    message = e.message;
    content = e.content;
    input_tokens = input_of e.usage;
    output_tokens = output_of e.usage;
    total_tokens = total_of e.usage;
    metadata = metadata_to_text e.metadata;
  }

  unfoldable pub to_attempt_checkpoint_record : CheckpointRow → AttemptCheckpointRecord M
  to_attempt_checkpoint_record row = record {
    checkpoint_id = row.checkpoint_id;
    ordinal = row.inserted.ordinal;
    checkpoint = record {
      attempt_id = row.inserted.attempt_id;
      trigger = row.inserted.trigger;
      event_cursor = row.inserted.event_cursor;
      status = row.inserted.status;
      thread_id = row.inserted.thread_id;
      turn_id = row.inserted.turn_id;
      turn_count = row.inserted.turn_count;
      token_usage =
          build_token_usage row.inserted.input_tokens row.inserted.output_tokens
            row.inserted.total_tokens;
      metadata = text_to_metadata row.inserted.metadata;
      created_at = row.inserted.created_at;
    };
  }

  unfoldable pub from_attempt_checkpoint_record : Checkpoint M → ℕ → CheckpointInsert
  from_attempt_checkpoint_record c ordinal = record {
    attempt_id = c.attempt_id;
    ordinal = ordinal;
    trigger = c.trigger;
    event_cursor = c.event_cursor;
    status = c.status;
    thread_id = c.thread_id;
    turn_id = c.turn_id;
    turn_count = c.turn_count;
    input_tokens = input_of c.token_usage;
    output_tokens = output_of c.token_usage;
    total_tokens = total_of c.token_usage;
    metadata = metadata_to_text c.metadata;
    created_at = c.created_at;
  }
