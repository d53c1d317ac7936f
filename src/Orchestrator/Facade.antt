-- ===== src/Orchestrator/Facade.antt =====
-- src/orchestrator/orchestrator.ts: the timer of the poll and the commands of the operator, with
-- src/orchestrator/issue-locator.ts and updateIssueModelSelection of model-selection.ts.
pub mod Polling
pub mod Commands
pub mod Tick
use risoluto.Prelude.{
  ℕ, Bool, true, false, not, ◌&&◌, ◌||◌, List, [], ◌∷◌, ◌++◌, Option, none, some, map, Dict, get,
  put, put_all, delete, keys, values, Text, text_eq, codes, is_some, if◌then◌else◌, ◌==◌,
}
use risoluto.Core.Types.{Issue, ServiceConfig, ReasoningEffort}
use risoluto.Orchestrator.Runtime.{
  RunningEntry, RetryRuntimeEntry, RuntimeIssueView, RecentEvent, WorkerStatus, stopping,
}
use risoluto.Orchestrator.State.{LifecycleState, create_lifecycle_state, mark_dirty, push_event}
use risoluto.Orchestrator.Launch.{resolve_model_selection}
use risoluto.Webhook.Health.{WebhookHealthStatus, connected, degraded, disconnected}

-- The fields of the class that decide when a tick runs. A timer holds the delay it was set with.
pub record Orchestrator : Type 0 where
  pub state : LifecycleState
  pub tick_in_flight : Bool
  pub next_tick_timer : Option ℕ
  pub refresh_queued : Bool

abbrev pub new_orchestrator : Orchestrator
new_orchestrator = record {
  state = create_lifecycle_state;
  tick_in_flight = false;
  next_tick_timer = none;
  refresh_queued = false;
}

-- The configured interval of the poll, and what the tracker of the webhook reports.
unfoldable pub get_effective_polling_interval : ℕ → Option (WebhookHealthStatus × ℕ) → ℕ
get_effective_polling_interval interval_ms none = interval_ms
get_effective_polling_interval interval_ms (some (disconnected, effective)) = interval_ms
get_effective_polling_interval interval_ms (some (connected, effective)) = effective
get_effective_polling_interval interval_ms (some (degraded, effective)) = interval_ms

unfoldable pub schedule_tick : Orchestrator → ℕ → Orchestrator
schedule_tick o delay_ms =
    if not o.state.running || o.tick_in_flight
    then o
    else record o { next_tick_timer = some delay_ms }

-- `start` up to its first await; what it does after the recovery is `start_end`.
unfoldable pub start_begin : Orchestrator → Orchestrator
start_begin o =
    if o.state.running
    then o
    else record o { state = mark_dirty (record o.state { running = true }) }

unfoldable pub start_end : Orchestrator → Orchestrator
start_end o = schedule_tick o 0

abbrev pub abort_worker : Text → RunningEntry → RunningEntry
abort_worker reason entry = record entry {
  abort_reason = elim entry.abort_reason [ none ↦ some reason | some r ↦ some r ];
}

abbrev pub abort_all : Text → Dict Text RunningEntry → Dict Text RunningEntry
abort_all reason [] = []
abort_all reason ((id, entry) ∷ entries) =
    (id, abort_worker reason entry) ∷ abort_all reason entries

-- `stop` up to its await of the workers.
unfoldable pub stop : Orchestrator → Orchestrator
stop o = record o {
  state = mark_dirty (record o.state {
    running = false;
    retry_entries = [];
    claimed_issue_ids = [];
    running_entries = abort_all (codes "shutdown") o.state.running_entries;
  });
  next_tick_timer = none;
}

-- The callback of the timer and the beginning of `tick`.
abbrev pub tick_begin : Orchestrator → Orchestrator
tick_begin o =
    if not o.state.running || o.tick_in_flight then o else record o { tick_in_flight = true }

unfoldable pub fire : Orchestrator → Option ℕ → Orchestrator
fire o none = o
fire o (some delay_ms) = tick_begin (record o { next_tick_timer = none })

-- The `finally` of `tick`, with the interval of the poll.
unfoldable pub tick_end : Orchestrator → ℕ → Orchestrator
tick_end o interval_ms =
    schedule_tick (record o { tick_in_flight = false; refresh_queued = false })
      (if o.refresh_queued then 0 else interval_ms)

-- `handleRefreshCommand`, with whether the request was coalesced with one before.
unfoldable pub handle_refresh_command : Orchestrator → Orchestrator × Bool
handle_refresh_command o = (schedule_tick (record o { refresh_queued = true }) 0, o.refresh_queued)
