-- ===== src/Orchestrator/Launch/Bounds.antt =====
-- What a round of launches respects: the slots, overall and for each state; the claims; and the
-- conditions of dispatch.
use risoluto.Prelude.{
  ℕ, ◌+◌, ◌-◌, ◌≤◌, max, ◌≡◌, ap, Bool, true, false, List, [], ◌∷◌, some, Dict, includes, length,
  Text, text_eq, if◌then◌else◌, ◌==◌, arith, Bool-cases, inl, inr, All,
}
use risoluto.Core.Types.{Issue, ServiceConfig}
use risoluto.State.Policy.{is_active_state, is_todo_state, normalize_state_key}
use risoluto.Orchestrator.Dispatch.{is_blocked_by_non_terminal}
use risoluto.Orchestrator.State.{LifecycleState, claim_issue_in_state}
use risoluto.Orchestrator.Launch.{
  is_dispatchable, can_dispatch_issue, build_running_state_counts, launch_loop,
  launch_available_workers, auto_claim_off,
}
use risoluto.Orchestrator.Launch.Slots.{can_dispatch_issue_lem, fired, launch_loop_ind}

-- The conditions of dispatch.
abbrev pub IsDispatched : ServiceConfig → Issue → Type 0
IsDispatched config issue =
    (is_active_state issue.state config ≡ true)
    × (is_todo_state issue.state (some config) ≡ true
        → (auto_claim_off config.agent.auto_claim ≡ false)
          × (is_blocked_by_non_terminal issue config ≡ false))

pub is_dispatchable-IsDispatched :
    (config : ServiceConfig) (issue : Issue) (claimed : List Text)
    → is_dispatchable issue config claimed ≡ true
    → IsDispatched config issue × (includes claimed issue.id ≡ false)
unfolding is_dispatchable
is_dispatchable-IsDispatched config issue claimed h =
    ((ground arith, λ t. (ground arith, ground arith)), ground arith)

abbrev pub ids : List Issue → List Text
ids [] = []
ids (issue ∷ issues) = issue.id ∷ ids issues

-- How many of the issues are in the state.
abbrev pub in_state : List Issue → Text → ℕ
in_state [] key = 0
in_state (issue ∷ issues) key =
    (if normalize_state_key issue.state == key then 1 else 0) + in_state issues key

module _ (config : ServiceConfig) (launch : LifecycleState → Issue → LifecycleState × Bool) where
  -- At most as many workers are launched as `maxConcurrentAgents` leaves room for, and each for an
  -- issue that is active, and, if it is a to-do, may be claimed and is not blocked.
  pub launch_available_workers-IsDispatched :
      (s : LifecycleState) (issues : List Issue)
      → let r = launch_available_workers config launch s issues in
        (length r.issues ≤ config.agent.max_concurrent_agents - length s.running_entries)
        × All (IsDispatched config) r.issues
  unfolding launch_available_workers
  launch_available_workers-IsDispatched s issues =
      let n = config.agent.max_concurrent_agents - length s.running_entries in
      let running = build_running_state_counts s.running_entries in
      (
        launch_loop_ind config launch (λ slots pending s r. length r.issues ≤ slots) running
            (λ slots pending s. omega arith) (λ slots pending s issue r h. h)
            (λ slots pending s issue rest f h. ground arith) n [] s issues,
        launch_loop_ind config launch (λ slots pending s r. All (IsDispatched config) r.issues)
            running (λ slots pending s. tt) (λ slots pending s issue r h. h)
            (λ slots pending s issue rest f h.
              let ok =
                (is_dispatchable-IsDispatched config issue s.claimed_issue_ids
                  ((can_dispatch_issue_lem config s issue).2 f.passed)).0 in
              elim (Bool-cases (fired config launch s issue).1) [
                | inl e ↦ rw e (ok, tt)
                | inr e ↦ rw e (ok, h)
              ])
            n [] s issues,
      )

  module _
      (grows : (s : LifecycleState) (issue : Issue)
        → length (launch s issue).0.running_entries ≤ length s.running_entries + 1) where
    fired_size :
        (s : LifecycleState) (issue : Issue)
        → length (fired config launch s issue).0.running_entries ≤ length s.running_entries + 1
    unfolding claim_issue_in_state
    fired_size s issue =
        let s' = (can_dispatch_issue config s issue).0 in
        omega (
          arith,
          grows (claim_issue_in_state s' issue.id) issue,
          ap length (can_dispatch_issue_lem config s issue).0,
        )

    capacity_loop :
        (running : Dict Text ℕ) (slots : ℕ) (pending : Dict Text ℕ) (s : LifecycleState)
        (issues : List Issue)
        → length (launch_loop config launch slots running pending s issues).state.running_entries
          ≤ length s.running_entries + slots
    capacity_loop running =
        launch_loop_ind config launch
          (λ slots pending s r. length r.state.running_entries ≤ length s.running_entries + slots)
          running (λ slots pending s. omega arith)
          (λ slots pending s issue r h.
            omega (arith, ap length (can_dispatch_issue_lem config s issue).0))
          (λ slots pending s issue rest f h. ground (arith, fired_size s issue))

  -- If a launch adds at most one running entry, `maxConcurrentAgents` is not passed by a round that
  -- starts below it.
  pub launch_available_workers-capacity :
      (s : LifecycleState) (issues : List Issue)
      → ((s : LifecycleState) (issue : Issue)
          → length (launch s issue).0.running_entries ≤ length s.running_entries + 1)
      → length (launch_available_workers config launch s issues).state.running_entries
        ≤ max config.agent.max_concurrent_agents (length s.running_entries)
  unfolding launch_available_workers
  launch_available_workers-capacity s issues grows =
      let n = config.agent.max_concurrent_agents - length s.running_entries in
      omega
        (arith, capacity_loop grows (build_running_state_counts s.running_entries) n [] s issues)
