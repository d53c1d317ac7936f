-- ===== src/Core/Types.antt =====
-- src/core/types: issues, models, attempts and the configuration. Texts are code units, times are
-- milliseconds or the texts that the tracker sends, and `T | null` is `Option T`.
use risoluto.Prelude.{ℕ, Bool, List, Option, Dict, Text}

pub record IssueBlockerRef : Type 0 where
  pub id : Option Text
  pub identifier : Option Text
  pub state : Option Text

pub record Issue : Type 0 where
  pub id : Text
  pub identifier : Text
  pub title : Text
  pub description : Option Text
  pub priority : Option ℕ
  pub state : Text
  pub branch_name : Option Text
  pub url : Option Text
  pub labels : List Text
  pub blocked_by : List IssueBlockerRef
  pub created_at : Option Text
  pub updated_at : Option Text

pub record TokenUsageSnapshot : Type 0 where
  pub input_tokens : ℕ
  pub output_tokens : ℕ
  pub total_tokens : ℕ

pub data ReasoningEffort : Type 0 where
  none minimal low medium high xhigh : ReasoningEffort

pub data SelectionSource : Type 0 where
  default override : SelectionSource

pub record ModelSelection : Type 0 where
  pub model : Text
  pub reasoning_effort : Option ReasoningEffort
  pub source : SelectionSource

pub data StateStageKind : Type 0 where
  backlog todo active gate terminal : StateStageKind

pub record StateStageConfig : Type 0 where
  pub name : Text
  pub kind : StateStageKind

pub record StateMachineConfig : Type 0 where
  pub stages : List StateStageConfig
  pub transitions : Dict Text (List Text)

-- The fields of the tracker's configuration that hold states.
pub record TrackerConfig : Type 0 where
  pub active_states : List Text
  pub terminal_states : List Text

-- The limits of the agents.
pub record AgentConfig : Type 0 where
  pub max_concurrent_agents : ℕ
  pub max_concurrent_agents_by_state : Dict Text ℕ
  pub max_retry_backoff_ms : ℕ
  pub max_continuation_attempts : ℕ
  pub auto_claim : Option Bool

pub record CodexConfig : Type 0 where
  pub model : Text
  pub reasoning_effort : Option ReasoningEffort
  pub stall_timeout_ms : ℕ

-- The parts of the configuration that the modelled code reads.
pub record ServiceConfig : Type 0 where
  pub tracker : TrackerConfig
  pub agent : AgentConfig
  pub codex : CodexConfig
  pub state_machine : Option StateMachineConfig
