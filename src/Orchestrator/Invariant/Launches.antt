-- ===== src/Orchestrator/Invariant/Launches.antt =====
-- The invariant under launches.
use risoluto.Prelude.{
  ℕ, Bool, true, false, not, ◌≡◌, ◌||◌, refl, List, [], Option, none, some, Dict, Text, text_eq,
  arith, ==_iff, includes-add,
}
use risoluto.Core.Types.{Issue, ServiceConfig}
use risoluto.Orchestrator.Runtime.{Workspace}
use risoluto.Orchestrator.State.{
  LifecycleState, claim_issue_in_state, release_issue_claim_in_state, set_queued_views_in_state,
}
use risoluto.Orchestrator.Launch.{
  can_dispatch_issue, launch_available_workers, Launched, launched, build_running_state_counts,
}
use risoluto.Orchestrator.Launch.Slots.{can_dispatch_issue_lem, launch_loop_ind, Fires, fired}
use risoluto.Orchestrator.Launch.Bounds.{is_dispatchable-IsDispatched}
use risoluto.Orchestrator.Worker.{
  LaunchServices, LaunchWorkerOptions, start_worker, undo_launch, launch_worker, register_entry,
}
use risoluto.Orchestrator.Worker.Laws.{launch_worker_lem}
use risoluto.Orchestrator.Worker.Rounds.{first_launch, claim_held_options}
use risoluto.Orchestrator.Invariant.{is_retrying, is_claimed, IsSound}

start_worker_retries :
    (config : ServiceConfig) (services : LaunchServices) (s : LifecycleState) (issue : Issue)
    (attempt : Option ℕ) (options : LaunchWorkerOptions) (workspace : Option Workspace)
    → (start_worker config services s issue attempt options workspace).0.retry_entries
      ≡ s.retry_entries
unfolding start_worker register_entry set_queued_views_in_state
start_worker_retries config services s issue attempt options none = refl
start_worker_retries config services s issue attempt options (some w) = ground arith

launch_worker_retries :
    (config : ServiceConfig) (services : LaunchServices) (s : LifecycleState) (issue : Issue)
    (attempt : Option ℕ) (options : LaunchWorkerOptions)
    → (launch_worker config services s issue attempt options).0.retry_entries ≡ s.retry_entries
unfolding launch_worker undo_launch claim_issue_in_state release_issue_claim_in_state
launch_worker_retries config services s issue attempt options = ground (
  arith,
  start_worker_retries config services s issue attempt options (services.prepare_workspace issue),
  start_worker_retries config services (claim_issue_in_state s issue.id) issue attempt options
      (services.prepare_workspace issue),
)

-- A launch for an issue that does not wait for a retry and whose claim is taken or held.
pub launch_worker-IsSound :
    (config : ServiceConfig) (services : LaunchServices) (s : LifecycleState) (issue : Issue)
    (attempt : Option ℕ) (options : LaunchWorkerOptions)
    → is_retrying s issue.id ≡ false
    → (not options.claim_held || is_claimed s issue.id) ≡ true
    → IsSound s
    → IsSound (launch_worker config services s issue attempt options).0
launch_worker-IsSound config services s issue attempt options idle held h id = ground (
  arith,
  launch_worker_lem config services issue attempt options s id,
  launch_worker_retries config services s issue attempt options,
  h id,
  ==_iff issue.id id,
)

can_dispatch_issue-IsSound :
    (config : ServiceConfig) (s : LifecycleState) (issue : Issue)
    → IsSound s
    → IsSound (can_dispatch_issue config s issue).0
unfolding can_dispatch_issue
can_dispatch_issue-IsSound config s issue h id = ground (arith, h id)

claim_issue-IsSound :
    (s : LifecycleState) (issue_id : Text) → IsSound s → IsSound (claim_issue_in_state s issue_id)
unfolding claim_issue_in_state
claim_issue-IsSound s issue_id h id =
    ground (arith, h id, includes-add s.claimed_issue_ids issue_id id)

launched-IsSound :
    (issue : Issue) (result : LifecycleState × Bool) (rest : LifecycleState → Launched)
    → IsSound result.0
    → (IsSound result.0 → IsSound (rest result.0).state)
    → IsSound (launched issue result rest).state
launched-IsSound issue (s, true) rest h k = h
launched-IsSound issue (s, false) rest h k = k h

module _ (config : ServiceConfig) (services : LaunchServices) where
  fired-IsSound :
      (running pending : Dict Text ℕ) (s : LifecycleState) (issue : Issue)
      → Fires config (first_launch config services) running pending s issue
      → IsSound s
      → IsSound (fired config (first_launch config services) s issue).0
  unfolding claim_issue_in_state
  fired-IsSound running pending s issue f h =
      let s' = (can_dispatch_issue config s issue).0 in
      let sound = can_dispatch_issue-IsSound config s issue h in
      let free =
        (is_dispatchable-IsDispatched config issue s.claimed_issue_ids
          ((can_dispatch_issue_lem config s issue).2 f.passed)).1 in
      launch_worker-IsSound config services (claim_issue_in_state s' issue.id) issue (some 1)
        claim_held_options (ground (arith, sound issue.id, can_dispatch_issue_lem config s issue))
        (ground
          (arith, includes-add s'.claimed_issue_ids issue.id issue.id, ==_iff issue.id issue.id))
        (claim_issue-IsSound s' issue.id sound)

  -- A round of launches.
  pub round-IsSound :
      (s : LifecycleState) (issues : List Issue)
      → IsSound s
      → IsSound (launch_available_workers config (first_launch config services) s issues).state
  unfolding launch_available_workers
  round-IsSound start issues =
      launch_loop_ind config (first_launch config services)
        (λ slots pending s r. IsSound s → IsSound r.state)
        (build_running_state_counts start.running_entries) (λ slots pending s h. h)
        (λ slots pending s issue r k h. k (can_dispatch_issue-IsSound config s issue h))
        (λ slots pending s issue rest f k h.
          launched-IsSound issue (fired config (first_launch config services) s issue) rest
            (fired-IsSound (build_running_state_counts start.running_entries) pending s issue f h)
            k)
        _ [] start issues
