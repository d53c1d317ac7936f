-- ===== src/Orchestrator/Recovery/Resume.antt =====
-- src/orchestrator/recovery.ts: how a resumed attempt's worker is launched.
use risoluto.Prelude.{false, some, Bool}
use risoluto.Core.Types.{Issue, ServiceConfig, ModelSelection}
use risoluto.Orchestrator.Runtime.{AttemptRecord}
use risoluto.Orchestrator.State.{LifecycleState}
use risoluto.Orchestrator.Worker.{LaunchServices, launch_worker}

abbrev recovery_model_selection : AttemptRecord → ModelSelection
recovery_model_selection attempt = record {
  model = attempt.model;
  reasoning_effort = attempt.reasoning_effort;
  source = attempt.model_source;
}

-- `launchWorker(issue, attempt.attemptNumber, { recoveredAttempt: attempt, ... })`: the new state, and
-- whether it threw.
abbrev pub recovery_launch :
    ServiceConfig → LaunchServices → LifecycleState → Issue → AttemptRecord → LifecycleState × Bool
recovery_launch config services s issue attempt =
    launch_worker config services s issue attempt.attempt_number (record {
      claim_held = false;
      previous_thread_id = attempt.thread_id;
      model_selection_override = some (recovery_model_selection attempt);
      recovered_attempt = some attempt;
    })
