-- ===== src/Orchestrator/Launch/Slots.antt =====
-- The dispatch check, the counts, and induction over the launch loop.
use risoluto.Prelude.{
  ℕ, zero, suc, ◌+◌, ◌≡◌, Bool, true, false, List, [], ◌∷◌, some, Dict, get, values, length, keep,
  Text, text_eq, or_else, ◌==◌, arith, Bool-cases, inl, inr, get-put,
}
use risoluto.Core.Types.{Issue, ServiceConfig}
use risoluto.State.Policy.{normalize_state_key}
use risoluto.Orchestrator.Runtime.{RunningEntry}
use risoluto.Orchestrator.State.{LifecycleState}
use risoluto.Orchestrator.Launch.{
  is_dispatchable, can_dispatch_issue, running_in_state, has_available_state_slot, count_up,
  count_states, build_running_state_counts, Launched, launched, attempt_launch, launch_loop,
}

-- The check changes neither the running entries nor the claims, and passes dispatchable issues only.
pub can_dispatch_issue_lem :
    (config : ServiceConfig) (s : LifecycleState) (issue : Issue)
    → let (s', passed) = can_dispatch_issue config s issue in
      (s'.running_entries ≡ s.running_entries)
      × (s'.claimed_issue_ids ≡ s.claimed_issue_ids)
      × (passed ≡ true → is_dispatchable issue config s.claimed_issue_ids ≡ true)
unfolding can_dispatch_issue
can_dispatch_issue_lem config s issue = ground arith

get-count_states :
    (counts : Dict Text ℕ) (entries : List RunningEntry) (key : Text)
    → or_else (get (count_states counts entries) key) 0
      ≡ or_else (get counts key) 0
        + length (keep (λ entry. normalize_state_key entry.issue.state == key) entries)
unfolding count_states keep
get-count_states counts [] key = omega arith
get-count_states counts (entry ∷ entries) key =
    let k = normalize_state_key entry.issue.state in
    ground (
      arith,
      get-count_states (count_up counts k) entries key,
      get-put counts k key (or_else (get counts k) 0 + 1),
    )

-- The counts taken before the loop are those that the slot check would compute itself.
pub build_running_state_counts_lem :
    (entries : Dict Text RunningEntry) (key : Text)
    → or_else (get (build_running_state_counts entries) key) 0 ≡ running_in_state entries key
unfolding build_running_state_counts running_in_state get
build_running_state_counts_lem entries key = omega (arith, get-count_states [] (values entries) key)

abbrev pub stopped : LifecycleState → Launched
stopped s = record { state = s; issues = []; threw = false }

module _ (config : ServiceConfig) (launch : LifecycleState → Issue → LifecycleState × Bool) where
  -- What holds when the loop fires for an issue.
  pub record Fires (running pending : Dict Text ℕ) (s : LifecycleState) (issue : Issue)
      : Type 0 where
    pub passed : (can_dispatch_issue config s issue).1 ≡ true
    pub free :
        has_available_state_slot issue config
          (can_dispatch_issue config s issue).0.running_entries
          (some pending)
          (some running)
        ≡ true

  abbrev pub fired : LifecycleState → Issue → LifecycleState × Bool
  fired s issue = attempt_launch config launch (can_dispatch_issue config s issue).0 issue

  -- Induction over the loop: it stops, passes an issue over, or launches one.
  pub launch_loop_ind {ℓ} :
      (P : ℕ → Dict Text ℕ → LifecycleState → Launched → Type ℓ) (running : Dict Text ℕ)
      → ((slots : ℕ) (pending : Dict Text ℕ) (s : LifecycleState) → P slots pending s (stopped s))
      → ((slots : ℕ) (pending : Dict Text ℕ) (s : LifecycleState) (issue : Issue) (r : Launched)
          → P slots pending (can_dispatch_issue config s issue).0 r
          → P slots pending s r)
      → ((slots : ℕ) (pending : Dict Text ℕ) (s : LifecycleState) (issue : Issue)
            (rest : LifecycleState → Launched)
          → Fires running pending s issue
          → P slots
              (count_up pending (normalize_state_key issue.state))
              (fired s issue).0
              (rest (fired s issue).0)
          → P (suc slots) pending s (launched issue (fired s issue) rest))
      → (slots : ℕ) (pending : Dict Text ℕ) (s : LifecycleState) (issues : List Issue)
      → P slots pending s (launch_loop config launch slots running pending s issues)
  unfolding launch_loop
  launch_loop_ind P running stop skip fire slots pending s [] = stop slots pending s
  launch_loop_ind P running stop skip fire zero pending s (issue ∷ issues) = stop zero pending s
  launch_loop_ind P running stop skip fire (suc slots) pending s (issue ∷ issues) =
      let s' = (can_dispatch_issue config s issue).0 in
      let over =
        skip (suc slots) pending s issue _
          (launch_loop_ind P running stop skip fire (suc slots) pending s' issues) in
      let go = λ (h : Fires running pending s issue).
        fire slots pending s issue
          (λ after.
            launch_loop config launch slots running
              (count_up pending (normalize_state_key issue.state)) after issues)
          h
          (launch_loop_ind P running stop skip fire slots
            (count_up pending (normalize_state_key issue.state)) (fired s issue).0 issues) in
      elim (Bool-cases (can_dispatch_issue config s issue).1) [
        | inr blocked ↦ rw blocked over
        | inl passed ↦
            elim (Bool-cases (
              has_available_state_slot issue config s'.running_entries (some pending)
                (some running))) [
                  | inr full ↦ rw (passed, full) over
                  | inl free ↦ rw (passed, free) (go (record { passed = passed; free = free }))
                ]
      ]
