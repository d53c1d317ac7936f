-- ===== src/Orchestrator/Launch.antt =====
-- src/orchestrator/worker-launcher.ts and `resolveModelSelection` of model-selection.ts: which issues
-- may be dispatched, the slots, and the loop that fills them. What the loop awaits, the launch of one
-- worker, is an argument of it: the state afterwards, and whether the launch threw.
pub mod Bounds
pub mod Claims
pub mod Slots
pub mod States
use risoluto.Prelude.{
  ℕ, zero, suc, ◌+◌, ◌-◌, ◌≡◌, Bool, true, false, not, ◌||◌, ◌&&◌, List, [], ◌∷◌, Option, none,
  some, Dict, get, put, delete, values, includes, length, keep, Text, text_eq, Text-discrete,
  ℕ_discrete, or_else, ltb, leb, Eq, if◌then◌else◌, ◌==◌,
}
use risoluto.Core.Types.{
  Issue, ServiceConfig, ModelSelection, SelectionSource, ReasoningEffort, override, default,
}
use risoluto.State.Policy.{is_active_state, is_todo_state, normalize_state_key}
use risoluto.Orchestrator.Dispatch.{is_blocked_by_non_terminal}
use risoluto.Orchestrator.Runtime.{RunningEntry}
use risoluto.Orchestrator.State.{LifecycleState, Fingerprint, claim_issue_in_state}

unfoldable pub build_issue_dispatch_fingerprint : Issue → Fingerprint
build_issue_dispatch_fingerprint issue = record {
  state = issue.state;
  updated_at = issue.updated_at;
  priority = issue.priority;
  labels = issue.labels;
  title = issue.title;
}

pub Fingerprint-discrete : Discrete Fingerprint
Fingerprint-discrete = hlevel (Text-discrete, ℕ_discrete)

instance abbrev pub fingerprint_eq : Eq Fingerprint
fingerprint_eq = record { dec_eq = Fingerprint-discrete }

-- `config.agent.autoClaim === false`
abbrev pub auto_claim_off : Option Bool → Bool
auto_claim_off none = false
auto_claim_off (some on) = not on

-- `canDispatchIssue` after the check of the suppressions.
unfoldable pub is_dispatchable : Issue → ServiceConfig → List Text → Bool
is_dispatchable issue config claimed_issue_ids =
    if not (is_active_state issue.state config)
    then false
    else if includes claimed_issue_ids issue.id
    then false
    else if is_todo_state issue.state (some config)
    then if auto_claim_off config.agent.auto_claim
      then false
      else not (is_blocked_by_non_terminal issue config)
    else true

abbrev pub is_suppressed : Option Fingerprint → Issue → Bool
is_suppressed none issue = false
is_suppressed (some fingerprint) issue = fingerprint == build_issue_dispatch_fingerprint issue

abbrev pub is_stale : Option Fingerprint → Issue → Bool
is_stale none issue = false
is_stale (some fingerprint) issue = not (fingerprint == build_issue_dispatch_fingerprint issue)

-- A stale suppression is pruned on the way, so the state changes.
unfoldable pub can_dispatch_issue : ServiceConfig → LifecycleState → Issue → LifecycleState × Bool
unfolding is_dispatchable
can_dispatch_issue config s issue =
    let suppression = get s.operator_abort_suppressions issue.id in
    if is_suppressed suppression issue then (s, false) else (
      if is_stale suppression issue
          then record s {
            operator_abort_suppressions = delete s.operator_abort_suppressions issue.id;
            dirty = true;
          }
          else s,
      is_dispatchable issue config s.claimed_issue_ids,
    )

-- `counts?.get(key)`
abbrev pub count_at : Option (Dict Text ℕ) → Text → Option ℕ
count_at none key = none
count_at (some counts) key = get counts key

-- The running entries whose issue is in the state.
unfoldable pub running_in_state : Dict Text RunningEntry → Text → ℕ
running_in_state entries key =
    length (keep (λ entry. normalize_state_key entry.issue.state == key) (values entries))

abbrev pub within : ℕ → Option ℕ → Bool
within count none = true
within count (some limit) = ltb count limit

unfoldable pub has_available_state_slot :
    Issue
    → ServiceConfig
    → Dict Text RunningEntry
    → Option (Dict Text ℕ)
    → Option (Dict Text ℕ)
    → Bool
unfolding running_in_state normalize_state_key
has_available_state_slot issue config running_entries pending_state_counts running_state_counts =
    let state_key = normalize_state_key issue.state in
    let running_count =
      or_else (count_at running_state_counts state_key)
        (running_in_state running_entries state_key) in
    let pending_count = or_else (count_at pending_state_counts state_key) 0 in
    within (running_count + pending_count)
      (get config.agent.max_concurrent_agents_by_state state_key)

abbrev pub count_up : Dict Text ℕ → Text → Dict Text ℕ
count_up counts key = put counts key (or_else (get counts key) 0 + 1)

unfoldable pub count_states : Dict Text ℕ → List RunningEntry → Dict Text ℕ
unfolding normalize_state_key
count_states counts [] = counts
count_states counts (entry ∷ entries) =
    count_states (count_up counts (normalize_state_key entry.issue.state)) entries

unfoldable pub build_running_state_counts : Dict Text RunningEntry → Dict Text ℕ
unfolding count_states
build_running_state_counts running_entries = count_states [] (values running_entries)

-- What the loop leaves: the state, the issues it launched, and whether a launch threw.
pub record Launched : Type 0 where
  pub state : LifecycleState
  pub issues : List Issue
  pub threw : Bool

-- The launch of one issue, then the rest of the loop unless it threw.
abbrev pub launched : Issue → LifecycleState × Bool → (LifecycleState → Launched) → Launched
launched issue (after, true) rest = record { state = after; issues = issue ∷ []; threw = true }
launched issue (after, false) rest = record {
  state = (rest after).state;
  issues = issue ∷ (rest after).issues;
  threw = (rest after).threw;
}

module _ (config : ServiceConfig) (launch : LifecycleState → Issue → LifecycleState × Bool) where
  -- The claim, then `await launchWorker`.
  abbrev pub attempt_launch : LifecycleState → Issue → LifecycleState × Bool
  attempt_launch s issue = launch (claim_issue_in_state s issue.id) issue

  -- The loop over the issues. `slots` is what is left of `availableSlots`, `running` the counts
  -- taken before it and `pending` those of the launches.
  unfoldable pub launch_loop :
      ℕ → Dict Text ℕ → Dict Text ℕ → LifecycleState → List Issue → Launched
  unfolding can_dispatch_issue has_available_state_slot
  launch_loop slots running pending s [] = record { state = s; issues = []; threw = false }
  launch_loop zero running pending s (issue ∷ issues) = record {
    state = s;
    issues = [];
    threw = false;
  }
  launch_loop (suc slots) running pending s (issue ∷ issues) =
      let (s', dispatchable) = can_dispatch_issue config s issue in
      let skipped = launch_loop (suc slots) running pending s' issues in
      if not dispatchable
      then skipped
      else if not
          (has_available_state_slot issue config s'.running_entries (some pending) (some running))
      then skipped
      else launched issue (attempt_launch s' issue) (λ after.
        launch_loop slots running (count_up pending (normalize_state_key issue.state)) after issues)

  unfoldable pub launch_available_workers : LifecycleState → List Issue → Launched
  unfolding launch_loop build_running_state_counts
  launch_available_workers s issues =
      let available_slots = config.agent.max_concurrent_agents - length s.running_entries in
      launch_loop available_slots (build_running_state_counts s.running_entries) [] s issues

unfoldable pub resolve_model_selection :
    Dict Text (Text × Option ReasoningEffort) → ServiceConfig → Text → ModelSelection
resolve_model_selection overrides config identifier = elim (get overrides identifier) [
  | some (model, effort) ↦ record { model = model; reasoning_effort = effort; source = override }
  | none ↦ record {
    model = config.codex.model;
    reasoning_effort = config.codex.reasoning_effort;
    source = default;
  }
]
