-- ===== src/Orchestrator/State.antt =====
-- src/orchestrator/core/lifecycle-state.ts and src/orchestrator/views.ts: the state that the
-- orchestrator keeps and the operations on it. `markDirty` is a callback; it sets `dirty` here.
pub mod Events
pub mod Usage
use risoluto.Prelude.{
  ℕ, ◌+◌, ◌-◌, Bool, true, false, not, ◌||◌, ◌&&◌, List, [], ◌∷◌, ◌++◌, Option, none, some, Dict,
  get, put, includes, add, remove, length, drop, Text, text_eq, codes, or_else, ltb, if◌then◌else◌,
  ◌==◌,
}
use risoluto.Core.Types.{Issue, TokenUsageSnapshot, ReasoningEffort}
use risoluto.Orchestrator.Runtime.{RunningEntry, RetryRuntimeEntry, RecentEvent, RuntimeIssueView}

-- What `buildIssueDispatchFingerprint` writes as JSON, kept as a record: two such texts are equal
-- exactly when the records are.
pub record Fingerprint : Type 0 where
  pub state : Text
  pub updated_at : Option Text
  pub priority : Option ℕ
  pub labels : List Text
  pub title : Text

pub record StallEvent : Type 0 where
  pub at : Text
  pub issue_id : Text
  pub issue_identifier : Text
  pub silent_ms : ℕ
  pub timeout_ms : ℕ

pub record CodexTotals : Type 0 where
  pub input_tokens : ℕ
  pub output_tokens : ℕ
  pub total_tokens : ℕ
  pub seconds_running : ℕ

pub record LifecycleState : Type 0 where
  pub running : Bool
  pub running_entries : Dict Text RunningEntry
  pub retry_entries : Dict Text RetryRuntimeEntry
  pub completed_views : Dict Text RuntimeIssueView
  pub detail_views : Dict Text RuntimeIssueView
  pub claimed_issue_ids : List Text
  pub queued_views : List RuntimeIssueView
  pub recent_events : List RecentEvent
  pub rate_limits : Option Text
  pub issue_model_overrides : Dict Text (Text × Option ReasoningEffort)
  pub issue_template_overrides : Dict Text Text
  pub operator_abort_suppressions : Dict Text Fingerprint
  pub session_usage_totals : Dict Text TokenUsageSnapshot
  pub codex_totals : CodexTotals
  pub stall_events : List StallEvent
  pub dirty : Bool

abbrev pub max_recent_events : ℕ
max_recent_events = 250

unfoldable pub create_lifecycle_state : LifecycleState
create_lifecycle_state = record {
  running = false;
  running_entries = [];
  retry_entries = [];
  completed_views = [];
  detail_views = [];
  claimed_issue_ids = [];
  queued_views = [];
  recent_events = [];
  rate_limits = none;
  issue_model_overrides = [];
  issue_template_overrides = [];
  operator_abort_suppressions = [];
  session_usage_totals = [];
  codex_totals = record {
    input_tokens = 0;
    output_tokens = 0;
    total_tokens = 0;
    seconds_running = 0;
  };
  stall_events = [];
  dirty = false;
}

abbrev pub mark_dirty : LifecycleState → LifecycleState
mark_dirty s = record s { dirty = true }

-- The new state, and whether the claim was there.
unfoldable pub release_issue_claim_in_state : LifecycleState → Text → LifecycleState × Bool
release_issue_claim_in_state s issue_id =
    if includes s.claimed_issue_ids issue_id
    then (record s { claimed_issue_ids = remove s.claimed_issue_ids issue_id; dirty = true }, true)
    else (s, false)

unfoldable pub claim_issue_in_state : LifecycleState → Text → LifecycleState
claim_issue_in_state s issue_id = record s {
  claimed_issue_ids = add s.claimed_issue_ids issue_id;
  dirty = true;
}

unfoldable pub set_queued_views_in_state : LifecycleState → List RuntimeIssueView → LifecycleState
set_queued_views_in_state s views = record s { queued_views = views; dirty = true }

unfoldable pub set_rate_limits_in_state : LifecycleState → Option Text → LifecycleState
set_rate_limits_in_state s rate_limits = record s { rate_limits = rate_limits; dirty = true }

unfoldable pub set_detail_view_in_state : LifecycleState → Text → RuntimeIssueView → LifecycleState
set_detail_view_in_state s identifier view = record s {
  detail_views = put s.detail_views identifier view;
  dirty = true;
}

unfoldable pub set_completed_view_in_state :
    LifecycleState → Text → RuntimeIssueView → LifecycleState
set_completed_view_in_state s identifier view = record s {
  completed_views = put s.completed_views identifier view;
  dirty = true;
}

-- `push`, then `splice(0, length - max)` when there are too many.
unfoldable pub push_bounded {ℓ} : {A : Type ℓ} → ℕ → List A → A → List A
push_bounded max_events events event =
    let pushed = events ++ event ∷ [] in
    if ltb max_events (length pushed) then drop (length pushed - max_events) pushed else pushed

unfoldable pub push_recent_event_in_state : LifecycleState → RecentEvent → ℕ → LifecycleState
unfolding push_bounded
push_recent_event_in_state s event max_events = record s {
  recent_events = push_bounded max_events s.recent_events event;
}

-- `pushEvent` of run-lifecycle-coordinator.ts; what it sends to the event bus is left out.
unfoldable pub push_event : LifecycleState → RecentEvent → LifecycleState
unfolding push_recent_event_in_state
push_event s event = mark_dirty (push_recent_event_in_state s event max_recent_events)

abbrev pub empty_usage : TokenUsageSnapshot
empty_usage = record { input_tokens = 0; output_tokens = 0; total_tokens = 0 }

-- `Math.max(0, next - previous)`; `-` stops at 0 here.
unfoldable pub usage_delta : Option TokenUsageSnapshot → TokenUsageSnapshot → TokenUsageSnapshot
usage_delta previous next =
    let p = or_else previous empty_usage in
    record {
      input_tokens = next.input_tokens - p.input_tokens;
      output_tokens = next.output_tokens - p.output_tokens;
      total_tokens = next.total_tokens - p.total_tokens;
    }

abbrev pub add_totals : CodexTotals → TokenUsageSnapshot → CodexTotals
add_totals t u = record t {
  input_tokens = t.input_tokens + u.input_tokens;
  output_tokens = t.output_tokens + u.output_tokens;
  total_tokens = t.total_tokens + u.total_tokens;
}

-- The session id is used only when it is not empty.
abbrev pub session_key : Option Text → Option Text
session_key none = none
session_key (some []) = none
session_key (some (c ∷ s)) = some (c ∷ s)

abbrev pub previous_usage : LifecycleState → Option Text → Option TokenUsageSnapshot
previous_usage s none = none
previous_usage s (some id) = get s.session_usage_totals id

abbrev pub record_session : LifecycleState → Option Text → TokenUsageSnapshot → LifecycleState
record_session s none usage = s
record_session s (some id) usage = record s {
  session_usage_totals = put s.session_usage_totals id usage;
}

unfoldable pub apply_absolute_usage_event_in_state :
    LifecycleState → RunningEntry → TokenUsageSnapshot → LifecycleState × RunningEntry
unfolding usage_delta
apply_absolute_usage_event_in_state s entry usage =
    let delta = usage_delta (previous_usage s (session_key entry.session_id)) usage in
    let counted = record s { codex_totals = add_totals s.codex_totals delta } in
    (
      mark_dirty (record_session counted (session_key entry.session_id) usage),
      record entry { token_usage = some usage },
    )

unfoldable pub apply_delta_usage_event_in_state :
    LifecycleState → RunningEntry → TokenUsageSnapshot → LifecycleState × RunningEntry
apply_delta_usage_event_in_state s entry usage =
    let before = or_else entry.token_usage empty_usage in
    (
      mark_dirty (record s { codex_totals = add_totals s.codex_totals usage }),
      record entry {
        token_usage = some (record {
          input_tokens = before.input_tokens + usage.input_tokens;
          output_tokens = before.output_tokens + usage.output_tokens;
          total_tokens = before.total_tokens + usage.total_tokens;
        });
      },
    )

pub data UsageMode : Type 0 where
  absolute_total delta : UsageMode

unfoldable pub apply_usage_event_in_state :
    LifecycleState → RunningEntry → TokenUsageSnapshot → UsageMode → LifecycleState × RunningEntry
unfolding apply_absolute_usage_event_in_state apply_delta_usage_event_in_state
apply_usage_event_in_state s entry usage absolute_total =
    apply_absolute_usage_event_in_state s entry usage
apply_usage_event_in_state s entry usage delta = apply_delta_usage_event_in_state s entry usage

-- src/orchestrator/views.ts
unfoldable pub is_hard_failure : Option Text → Bool
is_hard_failure none = false
is_hard_failure (some code) =
    includes
      (codes "startup_failed"
        ∷ codes "inactive"
        ∷ codes "terminal"
        ∷ codes "shutdown"
        ∷ codes "cancelled"
        ∷ codes "auth_token_expired"
        ∷ codes "unauthorized"
        ∷ [])
      code

-- `issueView(issue)` with no fields given anew; `now` is what `nowIso` reads.
unfoldable pub issue_view : Text → Issue → RuntimeIssueView
issue_view now issue = record {
  issue_id = issue.id;
  identifier = issue.identifier;
  title = issue.title;
  state = issue.state;
  workspace_key = none;
  workspace_path = none;
  message = none;
  status = issue.state;
  updated_at = or_else issue.updated_at now;
  attempt = none;
  error = none;
  priority = issue.priority;
  labels = issue.labels;
  started_at = none;
  last_event_at = none;
  token_usage = none;
  model = none;
  reasoning_effort = none;
  model_source = none;
  configured_model = none;
  configured_reasoning_effort = none;
  configured_model_source = none;
  model_change_pending = none;
  configured_template_id = none;
  configured_template_name = none;
  url = issue.url;
  description = issue.description;
  blocked_by = issue.blocked_by;
  branch_name = issue.branch_name;
  pull_request_url = none;
  next_retry_due_at = none;
  created_at = issue.created_at;
}
