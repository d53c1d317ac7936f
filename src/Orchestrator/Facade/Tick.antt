-- ===== src/Orchestrator/Facade/Tick.antt =====
-- `runLifecycleBody` of src/orchestrator/orchestrator.ts: one round of the poll.
use risoluto.Prelude.{ℕ, List, Option, none, some, Text}
use risoluto.Core.Types.{Issue, ServiceConfig}
use risoluto.Orchestrator.State.{LifecycleState}
use risoluto.Orchestrator.Dispatch.{Host, sort_issues_for_dispatch}
use risoluto.Orchestrator.Launch.{launch_available_workers}
use risoluto.Orchestrator.Worker.{LaunchServices}
use risoluto.Orchestrator.Worker.Rounds.{first_launch}
use risoluto.Orchestrator.Reconcile.{Identity, reconcile_running_and_retrying}
use risoluto.Orchestrator.Queue.{refresh_queue_views}
use risoluto.Orchestrator.Stall.{detect_and_kill_stalled_workers}
use risoluto.Orchestrator.Invariant.{IsSound}
use risoluto.Orchestrator.Invariant.Launches.{round-IsSound}
use risoluto.Orchestrator.Invariant.Polls.{reconcile-IsSound, detect-IsSound, refresh-IsSound}

-- What the round meets: `states` and `candidates` are the answers of the tracker, absent where a
-- request is rejected, which ends the round.
pub record Round : Type 0 where
  pub now_ms : ℕ
  pub now_iso : Text
  pub stall_message : ℕ → Text
  pub metadata : Issue → Text
  pub host : Host
  pub identity : Identity
  pub config : ServiceConfig
  pub services : LaunchServices
  pub states : Option (List Issue)
  pub candidates : Option (List Issue)

module _ (r : Round) where
  abbrev pub dispatch_round : LifecycleState → Option (List Issue) → LifecycleState
  dispatch_round s none = s
  dispatch_round s (some issues) =
      let candidates = sort_issues_for_dispatch r.host issues in
      (launch_available_workers r.config (first_launch r.config r.services)
        (refresh_queue_views r.config r.now_iso r.metadata r.host s candidates) candidates).state

  abbrev pub reconciled_round : LifecycleState → Option (List Issue) → LifecycleState
  reconciled_round s none = s
  reconciled_round s (some issues) =
      dispatch_round (reconcile_running_and_retrying r.identity r.config s issues).0 r.candidates

  unfoldable pub run_lifecycle_body : LifecycleState → LifecycleState
  run_lifecycle_body s =
      reconciled_round
        (detect_and_kill_stalled_workers r.now_ms r.now_iso r.stall_message r.config s).0 r.states

  dispatch_round-IsSound :
      (s : LifecycleState) (issues : Option (List Issue))
      → IsSound s
      → IsSound (dispatch_round s issues)
  dispatch_round-IsSound s none h = h
  dispatch_round-IsSound s (some issues) h =
      let candidates = sort_issues_for_dispatch r.host issues in
      round-IsSound r.config r.services
        (refresh_queue_views r.config r.now_iso r.metadata r.host s candidates) candidates
        (refresh-IsSound r.config r.now_iso r.metadata r.host s candidates h)

  reconciled_round-IsSound :
      (s : LifecycleState) (issues : Option (List Issue))
      → IsSound s
      → IsSound (reconciled_round s issues)
  reconciled_round-IsSound s none h = h
  reconciled_round-IsSound s (some issues) h =
      dispatch_round-IsSound (reconcile_running_and_retrying r.identity r.config s issues).0
        r.candidates (reconcile-IsSound r.identity r.config s issues h)

  pub run_lifecycle_body-IsSound : (s : LifecycleState) → IsSound s → IsSound (run_lifecycle_body s)
  unfolding run_lifecycle_body
  run_lifecycle_body-IsSound s h =
      reconciled_round-IsSound
        (detect_and_kill_stalled_workers r.now_ms r.now_iso r.stall_message r.config s).0 r.states
        (detect-IsSound r.now_ms r.now_iso r.stall_message r.config s h)
