-- ===== src/Orchestrator/Worker/Rounds.antt =====
-- A round of launches with `launchWorker` as the launch.
use risoluto.Prelude.{
  ℕ, ◌+◌, ◌*◌, ◌≤◌, max, Bool, true, false, ◌≡◌, List, [], ◌∷◌, Option, none, some, Dict, get, put,
  keep, length, Text, text_eq, if◌then◌else◌, ◌==◌, ==_iff, arith, includes, All, Distinct,
}
use risoluto.Core.Types.{Issue, ServiceConfig}
use risoluto.State.Policy.{normalize_state_key}
use risoluto.Orchestrator.Runtime.{RunningEntry, Workspace}
use risoluto.Orchestrator.State.{LifecycleState, set_queued_views_in_state}
use risoluto.Orchestrator.Launch.{launch_available_workers, running_in_state}
use risoluto.Orchestrator.Launch.Bounds.{ids, in_state, launch_available_workers-capacity}
use risoluto.Orchestrator.Launch.Claims.{launch_available_workers-fresh}
use risoluto.Orchestrator.Launch.States.{IsCovered, half_round}
use risoluto.Orchestrator.Worker.{
  LaunchServices, LaunchWorkerOptions, launch_worker, launch_entry, start_worker, register_entry,
  build_running_entry,
}
use risoluto.Orchestrator.Worker.Laws.{launch_worker_lem}

-- `{ claimHeld: true }`
abbrev pub claim_held_options : LaunchWorkerOptions
claim_held_options = record {
  claim_held = true;
  previous_thread_id = none;
  model_selection_override = none;
  recovered_attempt = none;
}

-- `ctx.launchWorker(issue, 1, { claimHeld: true })`
abbrev pub first_launch :
    ServiceConfig → LaunchServices → LifecycleState → Issue → LifecycleState × Bool
first_launch config services s issue =
    launch_worker config services s issue (some 1) claim_held_options

running_in_state-put :
    (m : Dict Text RunningEntry) (id : Text) (entry : RunningEntry) (key : Text)
    → get m id ≡ none
    → running_in_state (put m id entry) key
      ≡ (if normalize_state_key entry.issue.state == key then 1 else 0) + running_in_state m key
unfolding running_in_state put get keep
running_in_state-put [] id entry key h = ground arith
running_in_state-put ((j, e) ∷ m) id entry key h =
    ground (arith, running_in_state-put m id entry key)

module _ (config : ServiceConfig) (services : LaunchServices) where
  -- A round with `launchWorker` takes the running entries to `maxConcurrentAgents` at most, or leaves
  -- them where they were above it; what it launches was not claimed before, and none twice.
  pub round_lem :
      (s : LifecycleState) (issues : List Issue)
      → let r = launch_available_workers config (first_launch config services) s issues in
        (length r.state.running_entries
          ≤ max config.agent.max_concurrent_agents (length s.running_entries))
        × All (λ (i : Issue). includes s.claimed_issue_ids i.id ≡ false) r.issues
        × Distinct (ids r.issues)
  round_lem s issues =
      let laws = λ (s : LifecycleState) (issue : Issue) (id : Text).
        launch_worker_lem config services issue (some 1) claim_held_options s id in
      let (fresh, once) =
        launch_available_workers-fresh config (first_launch config services) s issues
          (λ s issue id e h. ground (arith, laws s issue id, ==_iff issue.id id)) in
      (
        launch_available_workers-capacity config (first_launch config services) s issues
            (λ s issue. (laws s issue issue.id).3),
        fresh,
        once,
      )

  started_state :
      (s : LifecycleState) (issue : Issue) (workspace : Option Workspace) (key : Text)
      → (start_worker config services s issue (some 1) claim_held_options workspace).1 ≡ false
      → get s.running_entries issue.id ≡ none
      → running_in_state
          (start_worker config services s issue
            (some 1)
            claim_held_options
            workspace).0.running_entries
          key
        ≡ (if normalize_state_key issue.state == key then 1 else 0)
          + running_in_state s.running_entries key
  unfolding start_worker register_entry set_queued_views_in_state build_running_entry
  started_state s issue none key e fresh = ground arith
  started_state s issue (some w) key e fresh = ground (
    arith,
    running_in_state-put s.running_entries issue.id
        (launch_entry config services s issue (some 1) claim_held_options w) key fresh,
  )

  launched_state :
      (s : LifecycleState) (issue : Issue) (key : Text)
      → (first_launch config services s issue).1 ≡ false
      → get s.running_entries issue.id ≡ none
      → running_in_state (first_launch config services s issue).0.running_entries key
        ≡ (if normalize_state_key issue.state == key then 1 else 0)
          + running_in_state s.running_entries key
  unfolding launch_worker
  launched_state s issue key e fresh =
      ground (arith, started_state s issue (services.prepare_workspace issue) key)

  -- Where no worker runs for issues of a state when the round begins, and every issue that a worker
  -- runs for is claimed, only half of the state's limit is used, rounded up: a worker launched in the
  -- round is counted twice, as running and as pending.
  pub round-half :
      (s : LifecycleState) (issues : List Issue) (key : Text) (limit : ℕ)
      → get config.agent.max_concurrent_agents_by_state key ≡ some limit
      → IsCovered s
      → running_in_state s.running_entries key ≡ 0
      → 2
          * in_state
              (launch_available_workers config (first_launch config services) s issues).issues
              key
        ≤ limit + 1
  round-half s issues key limit limited covered idle =
      half_round config (first_launch config services) key limit limited
        (λ s issue e held covered id h. ground (
          arith,
          launch_worker_lem config services issue (some 1) claim_held_options s id,
          ==_iff issue.id id,
          covered id,
        ))
        (λ s issue e fresh. launched_state s issue key e fresh) s issues covered idle
