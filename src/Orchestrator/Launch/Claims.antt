-- ===== src/Orchestrator/Launch/Claims.antt =====
-- A round of launches and the claims.
use risoluto.Prelude.{
  ℕ, ◌-◌, ◌≡◌, refl, Bool, true, false, ◌||◌, List, [], ◌∷◌, Dict, includes, length, Text, text_eq,
  ◌==◌, arith, Bool-cases, inl, inr, includes-add, All, All-map, Distinct,
}
use risoluto.Core.Types.{Issue, ServiceConfig}
use risoluto.Orchestrator.State.{LifecycleState, claim_issue_in_state}
use risoluto.Orchestrator.Launch.{
  can_dispatch_issue, build_running_state_counts, Launched, launched, launch_loop,
  launch_available_workers,
}
use risoluto.Orchestrator.Launch.Slots.{can_dispatch_issue_lem, fired, launch_loop_ind}
use risoluto.Orchestrator.Launch.Bounds.{ids, is_dispatchable-IsDispatched}

module _ (config : ServiceConfig) (launch : LifecycleState → Issue → LifecycleState × Bool) where
  module _
      (keeps : (s : LifecycleState) (issue : Issue) (id : Text)
        → (launch s issue).1 ≡ false
        → includes s.claimed_issue_ids id ≡ true
        → includes (launch s issue).0.claimed_issue_ids id ≡ true) where
    abbrev IsFresh : LifecycleState → Launched → Type 0
    IsFresh s r =
        All (λ (i : Issue). includes s.claimed_issue_ids i.id ≡ false) r.issues
        × Distinct (ids r.issues)

    fired_claims :
        (s : LifecycleState) (issue : Issue) (id : Text)
        → (fired config launch s issue).1 ≡ false
        → (issue.id == id || includes s.claimed_issue_ids id) ≡ true
        → includes (fired config launch s issue).0.claimed_issue_ids id ≡ true
    unfolding claim_issue_in_state
    fired_claims s issue id e h =
        let s' = (can_dispatch_issue config s issue).0 in
        keeps (claim_issue_in_state s' issue.id) issue id e (
          ground (
            arith,
            includes-add s'.claimed_issue_ids issue.id id,
            can_dispatch_issue_lem config s issue,
          ))

    not_listed :
        (s : LifecycleState) (id : Text) (issues : List Issue)
        → includes s.claimed_issue_ids id ≡ true
        → All (λ (i : Issue). includes s.claimed_issue_ids i.id ≡ false) issues
        → includes (ids issues) id ≡ false
    unfolding includes
    not_listed s id [] h k = refl
    not_listed s id (i ∷ issues) h k = ground (arith, not_listed s id issues h k.1)

    IsFresh-rest :
        (s : LifecycleState) (issue : Issue) (rest : LifecycleState → Launched)
        → includes s.claimed_issue_ids issue.id ≡ false
        → IsFresh (fired config launch s issue).0 (rest (fired config launch s issue).0)
        → IsFresh s (launched issue (fired config launch s issue) rest)
    unfolding includes
    IsFresh-rest s issue rest free h = elim (Bool-cases (fired config launch s issue).1) [
      | inl e ↦ rw e ((free, tt), (refl, tt))
      | inr e ↦
          let s' = (fired config launch s issue).0 in
          rw e (
            (
              free,
              All-map (λ i k. ground (arith, fired_claims s issue i.id e)) (rest s').issues h.0,
            ),
            (
              not_listed s' issue.id (rest s').issues
                  (fired_claims s issue issue.id e (ground arith)) h.0,
              h.1,
            ),
          )
    ]

    IsFresh-loop :
        (running : Dict Text ℕ) (slots : ℕ) (pending : Dict Text ℕ) (s : LifecycleState)
        (issues : List Issue)
        → IsFresh s (launch_loop config launch slots running pending s issues)
    IsFresh-loop running =
        launch_loop_ind config launch (λ slots pending s r. IsFresh s r) running
          (λ slots pending s. (tt, tt))
          (λ slots pending s issue r h. rw (← (can_dispatch_issue_lem config s issue).1) h)
          (λ slots pending s issue rest f h.
            IsFresh-rest s issue rest
              (is_dispatchable-IsDispatched config issue s.claimed_issue_ids
                ((can_dispatch_issue_lem config s issue).2 f.passed)).1
              h)

  -- If a launch that succeeds keeps the claims, no issue is launched that was claimed before the
  -- round, and none is launched twice.
  pub launch_available_workers-fresh :
      (s : LifecycleState) (issues : List Issue)
      → ((s : LifecycleState) (issue : Issue) (id : Text)
          → (launch s issue).1 ≡ false
          → includes s.claimed_issue_ids id ≡ true
          → includes (launch s issue).0.claimed_issue_ids id ≡ true)
      → let r = launch_available_workers config launch s issues in
        All (λ (i : Issue). includes s.claimed_issue_ids i.id ≡ false) r.issues
        × Distinct (ids r.issues)
  unfolding launch_available_workers
  launch_available_workers-fresh s issues keeps =
      let n = config.agent.max_concurrent_agents - length s.running_entries in
      IsFresh-loop keeps (build_running_state_counts s.running_entries) n [] s issues
