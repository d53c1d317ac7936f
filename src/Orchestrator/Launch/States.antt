-- ===== src/Orchestrator/Launch/States.antt =====
-- A round of launches and the limits of the single states.
use risoluto.Prelude.{
  ℕ, ◌+◌, ◌-◌, ◌*◌, ◌≤◌, ◌<◌, ◌≡◌, refl, ap, ◌∙◌, Bool, true, false, List, [], ◌∷◌, none, some,
  Dict, get, values, includes, length, keep, Text, text_eq, or_else, if◌then◌else◌, ◌==◌, ==_iff,
  arith, Option-cases, ◌≢◌, inl, inr, get-put, includes-add,
}
use risoluto.Core.Types.{Issue, ServiceConfig}
use risoluto.State.Policy.{normalize_state_key}
use risoluto.Orchestrator.Runtime.{RunningEntry}
use risoluto.Orchestrator.State.{LifecycleState, claim_issue_in_state}
use risoluto.Orchestrator.Launch.{
  can_dispatch_issue, running_in_state, has_available_state_slot, count_up, count_states,
  build_running_state_counts, launch_loop, launch_available_workers,
}
use risoluto.Orchestrator.Launch.Slots.{
  can_dispatch_issue_lem, build_running_state_counts_lem, Fires, fired, launch_loop_ind,
}
use risoluto.Orchestrator.Launch.Bounds.{in_state, is_dispatchable-IsDispatched}

module _ (config : ServiceConfig) (launch : LifecycleState → Issue → LifecycleState × Bool) where
  module _ (key : Text) (limit : ℕ)
      (limited : get config.agent.max_concurrent_agents_by_state key ≡ some limit) where
    abbrev counted : Dict Text ℕ → ℕ
    counted counts = or_else (get counts key) 0

    -- The room that the slot check found, if the issue is in the state.
    Fires-room :
        (running pending : Dict Text ℕ) (s : LifecycleState) (issue : Issue)
        → Fires config launch running pending s issue
        → normalize_state_key issue.state ≡ key
        → counted running + counted pending < limit
    unfolding has_available_state_slot
    Fires-room running pending s issue f e = ground (arith, f.free)

    counted-count_up :
        (pending : Dict Text ℕ) (k : Text)
        → counted (count_up pending k) ≡ (if k == key then 1 else 0) + counted pending
    counted-count_up pending k =
        ground (arith, get-put pending k key (or_else (get pending k) 0 + 1))

    state_loop :
        (running : Dict Text ℕ) (slots : ℕ) (pending : Dict Text ℕ) (s : LifecycleState)
        (issues : List Issue)
        → in_state (launch_loop config launch slots running pending s issues).issues key
          ≤ limit - (counted running + counted pending)
    state_loop running =
        launch_loop_ind config launch
          (λ slots pending s r. in_state r.issues key ≤ limit - (counted running + counted pending))
          running (λ slots pending s. omega arith) (λ slots pending s issue r h. h)
          (λ slots pending s issue rest f h. ground (
            arith,
            counted-count_up pending (normalize_state_key issue.state),
            Fires-room running pending s issue f,
          ))

  -- A round launches no more workers for issues of a state than its configured limit leaves room
  -- for beside those that are running for issues of that state.
  pub launch_available_workers-state_limit :
      (s : LifecycleState) (issues : List Issue) (key : Text) (limit : ℕ)
      → get config.agent.max_concurrent_agents_by_state key ≡ some limit
      → in_state (launch_available_workers config launch s issues).issues key
        ≤ limit - running_in_state s.running_entries key
  unfolding launch_available_workers get
  launch_available_workers-state_limit s issues key limit limited =
      let n = config.agent.max_concurrent_agents - length s.running_entries in
      let running = build_running_state_counts s.running_entries in
      omega (
        arith,
        state_loop key limit limited running n [] s issues,
        build_running_state_counts_lem s.running_entries key,
      )

get-count_states_none :
    (counts : Dict Text ℕ) (entries : List RunningEntry) (key : Text)
    → length (keep (λ entry. normalize_state_key entry.issue.state == key) entries) ≡ 0
    → get (count_states counts entries) key ≡ get counts key
unfolding count_states keep
get-count_states_none counts [] key h = refl
get-count_states_none counts (entry ∷ entries) key h =
    let k = normalize_state_key entry.issue.state in
    ground (
      arith,
      get-count_states_none (count_up counts k) entries key,
      get-put counts k key (or_else (get counts k) 0 + 1),
    )

-- Every issue that a worker runs for is claimed.
abbrev pub IsCovered : LifecycleState → Type 0
IsCovered s = (id : Text) → get s.running_entries id ≢ none → includes s.claimed_issue_ids id ≡ true

module _ (config : ServiceConfig) (launch : LifecycleState → Issue → LifecycleState × Bool)
    (key : Text) (limit : ℕ)
    (limited : get config.agent.max_concurrent_agents_by_state key ≡ some limit)
    (keeps : (s : LifecycleState) (issue : Issue)
      → (launch s issue).1 ≡ false
      → includes s.claimed_issue_ids issue.id ≡ true
      → IsCovered s
      → IsCovered (launch s issue).0)
    (tracks : (s : LifecycleState) (issue : Issue)
      → (launch s issue).1 ≡ false
      → get s.running_entries issue.id ≡ none
      → running_in_state (launch s issue).0.running_entries key
        ≡ (if normalize_state_key issue.state == key then 1 else 0)
          + running_in_state s.running_entries key) where
  IsCovered-checked :
      (s : LifecycleState) (issue : Issue)
      → IsCovered s
      → IsCovered (can_dispatch_issue config s issue).0
  IsCovered-checked s issue covered id h =
      ground (arith, can_dispatch_issue_lem config s issue, covered id)

  Fires-twice :
      (running pending : Dict Text ℕ) (s : LifecycleState) (issue : Issue)
      → get running key ≡ none
      → running_in_state s.running_entries key ≡ or_else (get pending key) 0
      → Fires config launch running pending s issue
      → normalize_state_key issue.state ≡ key
      → 2 * or_else (get pending key) 0 < limit
  unfolding has_available_state_slot
  Fires-twice running pending s issue absent same f e =
      ground (arith, f.free, can_dispatch_issue_lem config s issue)

  checked_count :
      (s : LifecycleState) (issue : Issue)
      → running_in_state (can_dispatch_issue config s issue).0.running_entries key
        ≡ running_in_state s.running_entries key
  checked_count s issue = ap (λ m. running_in_state m key) (can_dispatch_issue_lem config s issue).0

  IsCovered-fired :
      (running pending : Dict Text ℕ) (s : LifecycleState) (issue : Issue)
      → IsCovered s
      → Fires config launch running pending s issue
      → (fired config launch s issue).1 ≡ false
      → IsCovered (fired config launch s issue).0
  unfolding claim_issue_in_state
  IsCovered-fired running pending s issue covered f e =
      let s' = (can_dispatch_issue config s issue).0 in
      keeps (claim_issue_in_state s' issue.id) issue e
        (ground
          (arith, includes-add s'.claimed_issue_ids issue.id issue.id, ==_iff issue.id issue.id))
        (λ id h. ground (
          arith,
          includes-add s'.claimed_issue_ids issue.id id,
          can_dispatch_issue_lem config s issue,
          covered id,
        ))

  Fires-fresh :
      (running pending : Dict Text ℕ) (s : LifecycleState) (issue : Issue)
      → IsCovered s
      → Fires config launch running pending s issue
      → get s.running_entries issue.id ≡ none
  Fires-fresh running pending s issue covered f =
      let free =
        (is_dispatchable-IsDispatched config issue s.claimed_issue_ids
          ((can_dispatch_issue_lem config s issue).2 f.passed)).1 in
      elim (Option-cases (get s.running_entries issue.id)) [
        | inl e ↦ e
        | inr (entry, e) ↦ ground (arith, covered issue.id)
      ]

  running-fired :
      (s : LifecycleState) (issue : Issue)
      → (fired config launch s issue).1 ≡ false
      → get s.running_entries issue.id ≡ none
      → running_in_state (fired config launch s issue).0.running_entries key
        ≡ (if normalize_state_key issue.state == key then 1 else 0)
          + running_in_state s.running_entries key
  unfolding claim_issue_in_state
  running-fired s issue e fresh =
      let s' = (can_dispatch_issue config s issue).0 in
      omega (
        arith,
        checked_count s issue,
        tracks (claim_issue_in_state s' issue.id) issue e
            (ap (λ m. get m issue.id) (can_dispatch_issue_lem config s issue).0 ∙ fresh),
      )

  half_loop :
      (running : Dict Text ℕ) (absent : get running key ≡ none) (slots : ℕ) (pending : Dict Text ℕ)
      (s : LifecycleState) (issues : List Issue)
      → IsCovered s
      → running_in_state s.running_entries key ≡ or_else (get pending key) 0
      → 2 * in_state (launch_loop config launch slots running pending s issues).issues key
        ≤ limit + 1 - 2 * or_else (get pending key) 0
  half_loop running absent =
      launch_loop_ind config launch
        (λ slots pending s r.
          IsCovered s
          → running_in_state s.running_entries key ≡ or_else (get pending key) 0
          → 2 * in_state r.issues key ≤ limit + 1 - 2 * or_else (get pending key) 0)
        running (λ slots pending s covered same. omega arith)
        (λ slots pending s issue r h covered same.
          h (IsCovered-checked s issue covered) (checked_count s issue ∙ same))
        (λ slots pending s issue rest f h covered same. ground (
          arith,
          Fires-twice running pending s issue absent same f,
          IsCovered-fired running pending s issue covered f,
          running-fired s issue,
          Fires-fresh running pending s issue covered f,
          get-put pending (normalize_state_key issue.state) key
              (or_else (get pending (normalize_state_key issue.state)) 0 + 1),
        ))

  -- A state without workers at the start.
  pub half_round :
      (s : LifecycleState) (issues : List Issue)
      → IsCovered s
      → running_in_state s.running_entries key ≡ 0
      → 2 * in_state (launch_available_workers config launch s issues).issues key ≤ limit + 1
  unfolding launch_available_workers get build_running_state_counts running_in_state
  half_round s issues covered idle =
      let n = config.agent.max_concurrent_agents - length s.running_entries in
      let running = build_running_state_counts s.running_entries in
      omega (
        arith,
        half_loop running (get-count_states_none [] (values s.running_entries) key idle) n [] s
            issues covered idle,
      )
