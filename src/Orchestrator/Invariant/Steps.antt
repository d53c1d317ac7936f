-- ===== src/Orchestrator/Invariant/Steps.antt =====
-- The orchestrator as a step relation: its start, the launches of the startup recovery, the rounds of
-- the poll, the ends of workers, the answers to the retries that are due, the events of agents, the
-- refreshes of the queue, the seeding, the scans for stalled workers and the commands, in any order up
-- to a stop. The timer of a retry asks the tracker and goes on in a later state; every other handler is
-- one step, its awaits included. The recovery finds no retry of the issue it launches, and a retry is
-- still there when the answer to its question comes: the latter the code does not make sure of.
use risoluto.Prelude.{
  ℕ, true, false, ◌≡◌, refl, List, Option, some, get, includes, Text, text_eq, arith,
}
use risoluto.Core.Types.{Issue, ServiceConfig, ModelSelection}
use risoluto.Orchestrator.Runtime.{RunningEntry, RetryRuntimeEntry, Workspace, AttemptRecord}
use risoluto.Orchestrator.State.{LifecycleState, create_lifecycle_state}
use risoluto.Orchestrator.Launch.{launch_available_workers}
use risoluto.Orchestrator.Worker.{LaunchServices, AgentEvent, hear_event}
use risoluto.Orchestrator.Worker.Rounds.{first_launch}
use risoluto.Orchestrator.Outcome.{OutcomeServices}
use risoluto.Orchestrator.Recovery.Resume.{recovery_launch}
use risoluto.Orchestrator.Retry.Due.{Fetched, retry_launch, retry_asked, retry_answered}
use risoluto.Orchestrator.Ended.{Settled, handle_worker_promise}
use risoluto.Orchestrator.Reconcile.{Identity, reconcile_running_and_retrying}
use risoluto.Orchestrator.Dispatch.{Host}
use risoluto.Orchestrator.Queue.{refresh_queue_views, seed_completed_claims}
use risoluto.Orchestrator.Stall.{detect_and_kill_stalled_workers}
use risoluto.Orchestrator.Facade.{Orchestrator}
use risoluto.Orchestrator.Facade.Tick.{Round, run_lifecycle_body, run_lifecycle_body-IsSound}
use risoluto.Orchestrator.Facade.Commands.{Command, execute_command}
use risoluto.Orchestrator.Facade.Commands.Laws.{execute_command-IsSound}
use risoluto.Orchestrator.Invariant.{is_running, is_retrying, IsSound}
use risoluto.Orchestrator.Invariant.Launches.{launch_worker-IsSound, round-IsSound}
use risoluto.Orchestrator.Invariant.Settles.{handle_worker_promise-IsSound}
use risoluto.Orchestrator.Invariant.Retries.{IsAnswer, retry_answered-IsSound}
use risoluto.Orchestrator.Invariant.Polls.{
  reconcile-IsSound, detect-IsSound, hear-IsSound, refresh-IsSound, seed-IsSound,
}

-- The steps. The configuration and the answers of the services may differ from step to step; the
-- tracker answers a question about an issue with an issue of that id.
pub data Step : LifecycleState → LifecycleState → Type 0 where
  reconciled :
      (identity : Identity) (config : ServiceConfig) (s : LifecycleState) (issues : List Issue)
      → Step s (reconcile_running_and_retrying identity config s issues).0
  recovered :
      (config : ServiceConfig) (services : LaunchServices) (s : LifecycleState) (issue : Issue)
      (attempt : AttemptRecord)
      → is_retrying s issue.id ≡ false
      → Step s (recovery_launch config services s issue attempt).0
  launched :
      (config : ServiceConfig) (services : LaunchServices) (s : LifecycleState)
      (issues : List Issue)
      → Step s (launch_available_workers config (first_launch config services) s issues).state
  ended :
      (config : ServiceConfig) (services : OutcomeServices) (message : Text)
      (keeps_id : (issue latest : Issue)
        → services.fetch_issue issue ≡ some latest
        → latest.id ≡ issue.id)
      (s : LifecycleState) (settled : Settled) (issue : Issue) (workspace : Workspace)
      (entry : RunningEntry) (attempt : Option ℕ) (error_text : Text)
      → is_running s issue.id ≡ true
      → Step s (
          handle_worker_promise config services message s settled issue workspace entry attempt
            error_text)
  answered :
      (config : ServiceConfig) (services : OutcomeServices) (launch_services : LaunchServices)
      (before s : LifecycleState) (retry_entry : RetryRuntimeEntry) (issue : Issue) (attempt : ℕ)
      (error_text : Text) (answer : Fetched)
      → retry_asked before issue.id ≡ some retry_entry
      → is_retrying s issue.id ≡ true
      → IsAnswer answer issue.id
      → Step s (
          retry_answered config services
            (retry_launch config launch_services)
            s
            retry_entry
            issue
            attempt
            error_text
            answer)
  scanned :
      (now_ms : ℕ) (now_iso : Text) (message : ℕ → Text) (config : ServiceConfig)
      (s : LifecycleState)
      → Step s (detect_and_kill_stalled_workers now_ms now_iso message config s).0
  refreshed :
      (config : ServiceConfig) (now : Text) (metadata : Issue → Text) (host : Host)
      (s : LifecycleState) (issues : List Issue)
      → Step s (refresh_queue_views config now metadata host s issues)
  seeded :
      (s : LifecycleState) (attempts : List AttemptRecord)
      → Step s (seed_completed_claims s attempts)
  heard :
      (now_ms : ℕ) (s : LifecycleState) (id : Text) (entry : RunningEntry) (event : AgentEvent)
      → get s.running_entries id ≡ some entry
      → Step s (hear_event now_ms s id entry event)
  polled : (r : Round) (s : LifecycleState) → Step s (run_lifecycle_body r s)
  started : (s : LifecycleState) → Step s (record s { running = true })
  commanded :
      (now : Text) (config : ServiceConfig) (message : ModelSelection → Text) (o : Orchestrator)
      (command : Command)
      → Step o.state (execute_command now config message o command).0.state

-- What the orchestrator can come to from its first state.
pub data Reachable : LifecycleState → Type 0 where
  initial : Reachable create_lifecycle_state
  stepped : (s s' : LifecycleState) → Reachable s → Step s s' → Reachable s'

Step-IsSound : (s s' : LifecycleState) → Step s s' → IsSound s → IsSound s'
Step-IsSound _ _ (reconciled identity config s issues) h =
    reconcile-IsSound identity config s issues h
Step-IsSound _ _ (launched config services s issues) h = round-IsSound config services s issues h
Step-IsSound _ _
      (ended config services message keeps_id s settled issue workspace entry attempt error_text
        here)
      h =
    handle_worker_promise-IsSound config services message keeps_id s settled issue workspace entry
      attempt error_text here h
Step-IsSound _ _ (recovered config services s issue attempt idle) h =
    launch_worker-IsSound config services s issue attempt.attempt_number _ idle refl h
Step-IsSound _ _
      (answered config services launch_services before s retry_entry issue attempt error_text answer
        asked waits same)
      h =
    retry_answered-IsSound config services launch_services s retry_entry issue attempt error_text
      answer waits same h
Step-IsSound _ _ (scanned now_ms now_iso message config s) h =
    detect-IsSound now_ms now_iso message config s h
Step-IsSound _ _ (refreshed config now metadata host s issues) h =
    refresh-IsSound config now metadata host s issues h
Step-IsSound _ _ (seeded s attempts) h = seed-IsSound s attempts h
Step-IsSound _ _ (heard now_ms s id entry event here) h =
    hear-IsSound now_ms s id entry event here h
Step-IsSound _ _ (polled r s) h = run_lifecycle_body-IsSound r s h
Step-IsSound _ _ (started s) h = h
Step-IsSound _ _ (commanded now config message o command) h =
    execute_command-IsSound now config message o command h

-- In every state that these steps reach from the first one, an issue that a worker runs for or that
-- waits for a retry is claimed, and no issue does both. The steps are the handlers, each run to its end
-- before the next one, before a stop; but other handlers may run while the timer of a retry awaits the
-- tracker, as long as they do not remove that retry. The recovery launches no issue that waits for a
-- retry, and the tracker answers with an issue of the id it was asked for.
pub Reachable-IsSound : (s : LifecycleState) → Reachable s → IsSound s
unfolding create_lifecycle_state get includes
Reachable-IsSound _ initial = λ id. ground arith
Reachable-IsSound _ (stepped s s' r step) = Step-IsSound s s' step (Reachable-IsSound s r)
