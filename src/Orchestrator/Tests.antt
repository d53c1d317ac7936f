-- ===== src/Orchestrator/Tests.antt =====
-- The theorems of src/orchestrator at concrete inputs.
mod Recoveries
mod Runs
mod Facades
mod Watches
use Prim.Native.Nat.{Ordering}
use mathlib.Core.List.{Perm}
use risoluto.Prelude.{
  String, ℕ, ◌+◌, ◌-◌, ◌*◌, ◌≤◌, max, true, false, not, ◌||◌, ◌≡◌, ◌≢◌, refl, List, [], ◌∷◌, Option,
  none, some, get, keep, length, includes, Distinct, All, text_eq, codes, if◌then◌else◌, ◌==◌,
  or_else, arith, Text-discrete,
}
use risoluto.Core.Types.{Issue, ServiceConfig, TokenUsageSnapshot, default}
use risoluto.Orchestrator.Runtime.{RunningEntry, running}
use risoluto.Orchestrator.Dispatch.{Host, sort_issues_for_dispatch}
use risoluto.Orchestrator.Dispatch.Order.{IsOrdered, is_level, sort_issues_for_dispatch_lem}
use risoluto.Orchestrator.State.{
  LifecycleState, create_lifecycle_state, claim_issue_in_state, release_issue_claim_in_state,
  absolute_total, delta, empty_usage,
}
use risoluto.Orchestrator.State.Events.{push_each, last_events, push_each-eq}
use risoluto.Orchestrator.State.Usage.{
  MovedBy, apply_events, apply_events-absolute, apply_events-delta, last_usage, seen_usage,
}
use risoluto.Orchestrator.Launch.{
  can_dispatch_issue, is_dispatchable, launch_available_workers, build_running_state_counts,
  running_in_state,
}
use risoluto.Orchestrator.Launch.Slots.{can_dispatch_issue_lem, build_running_state_counts_lem}
use risoluto.Orchestrator.Launch.Bounds.{
  IsDispatched, ids, in_state, launch_available_workers-IsDispatched,
}
use risoluto.Orchestrator.Launch.States.{launch_available_workers-state_limit}
use risoluto.Orchestrator.Worker.{LaunchServices, launch_worker}
use risoluto.Orchestrator.Worker.Laws.{launch_worker_lem}
use risoluto.Orchestrator.Worker.Rounds.{first_launch, claim_held_options, round_lem, round-half}

abbrev pub config : ServiceConfig
config = record {
  tracker = record {
    active_states = codes "Todo" ∷ codes "In Progress" ∷ [];
    terminal_states = codes "Done" ∷ [];
  };
  agent = record {
    max_concurrent_agents = 2;
    max_concurrent_agents_by_state = (codes "todo", 2) ∷ [];
    max_retry_backoff_ms = 300000;
    max_continuation_attempts = 5;
    auto_claim = none;
  };
  codex = record { model = codes "gpt-5.4"; reasoning_effort = none; stall_timeout_ms = 1000 };
  state_machine = none;
}

abbrev issue_of : String → Option ℕ → Issue
issue_of name priority = record {
  id = codes name;
  identifier = codes name;
  title = codes name;
  description = none;
  priority = priority;
  state = codes "Todo";
  branch_name = none;
  url = none;
  labels = [];
  blocked_by = [];
  created_at = none;
  updated_at = none;
}

abbrev pub first_issue : Issue
first_issue = issue_of "A-1" (some 2)

abbrev second_issue : Issue
second_issue = issue_of "A-2" (some 1)

abbrev two_issues : List Issue
two_issues = first_issue ∷ second_issue ∷ []

abbrev pub services : LaunchServices
services = record {
  prepare_workspace = λ issue.
      some (record { path = codes "/tmp/w"; workspace_key = issue.identifier; created_now = true });
  persist = λ entry. true;
  resolve_template = λ identifier. true;
  run_attempt = λ entry. true;
  now_ms = 1000;
  now_iso = codes "1970-01-01T00:00:01Z";
  random_uuid = codes "run";
  parse_date = λ date. none;
}

-- A host whose comparison finds all texts equal.
abbrev pub flat_host : Host
flat_host = record {
  parse_date = λ date. none;
  locale_compare = λ a b. Ordering.eq;
  locale_flip = λ a b. refl;
  locale_trans = λ a b c h k. k;
}

abbrev usage_of : ℕ → TokenUsageSnapshot
usage_of n = record { input_tokens = n; output_tokens = n; total_tokens = n + n }

sort_issues_for_dispatch_lem_example :
    Perm (sort_issues_for_dispatch flat_host two_issues) two_issues
    × IsOrdered flat_host (sort_issues_for_dispatch flat_host two_issues)
    × (keep (is_level flat_host first_issue) (sort_issues_for_dispatch flat_host two_issues)
        ≡ keep (is_level flat_host first_issue) two_issues)
sort_issues_for_dispatch_lem_example =
    sort_issues_for_dispatch_lem flat_host two_issues first_issue
      ((omega arith, tt), ((omega arith, tt), tt)) (omega arith, tt)

abbrev three : List ℕ
three = 1 ∷ 2 ∷ 3 ∷ []

push_each-eq_example :
    (push_each 2 [] three ≡ last_events 2 three) × (length (push_each 2 [] three) ≤ 2)
push_each-eq_example = push_each-eq 2 three

abbrev pub idle : LifecycleState
idle = create_lifecycle_state

abbrev pub entry : RunningEntry
entry = record {
  run_id = codes "run";
  issue = first_issue;
  workspace = record { path = codes "/tmp/w"; workspace_key = codes "A-1"; created_now = true };
  started_at_ms = 0;
  last_event_at_ms = 0;
  attempt = some 1;
  abort_reason = none;
  cleanup_on_exit = false;
  status = running;
  session_id = some (codes "session");
  token_usage = none;
  model_selection = record { model = codes "m"; reasoning_effort = none; source = default };
  last_agent_message_content = none;
  last_stop_signal = none;
}

apply_events-absolute_example :
    MovedBy idle.codex_totals
      (seen_usage idle entry)
      (apply_events absolute_total idle entry (usage_of 3 ∷ usage_of 5 ∷ [])).0.codex_totals
      (last_usage (usage_of 3) (usage_of 5 ∷ []))
    × ((apply_events absolute_total idle entry (usage_of 3 ∷ usage_of 5 ∷ [])).1.token_usage
        ≡ some (last_usage (usage_of 3) (usage_of 5 ∷ [])))
unfolding create_lifecycle_state get
apply_events-absolute_example =
    apply_events-absolute idle entry (codes "session") (usage_of 3) (usage_of 5 ∷ []) refl
      ((omega arith, omega arith, omega arith), ((omega arith, omega arith, omega arith), tt))

can_dispatch_issue_lem_example :
    let (s', passed) = can_dispatch_issue config idle first_issue in
    (s'.running_entries ≡ idle.running_entries)
    × (s'.claimed_issue_ids ≡ idle.claimed_issue_ids)
    × (passed ≡ true → is_dispatchable first_issue config idle.claimed_issue_ids ≡ true)
can_dispatch_issue_lem_example = can_dispatch_issue_lem config idle first_issue

build_running_state_counts_lem_example :
    or_else (get (build_running_state_counts ((codes "A-1", entry) ∷ [])) (codes "todo")) 0
    ≡ running_in_state ((codes "A-1", entry) ∷ []) (codes "todo")
build_running_state_counts_lem_example =
    build_running_state_counts_lem ((codes "A-1", entry) ∷ []) (codes "todo")

launch_available_workers-IsDispatched_example :
    let r = launch_available_workers config (first_launch config services) idle two_issues in
    (length r.issues ≤ 2 - length idle.running_entries) × All (IsDispatched config) r.issues
launch_available_workers-IsDispatched_example =
    launch_available_workers-IsDispatched config (first_launch config services) idle two_issues

launch_available_workers-state_limit_example :
    in_state
      (launch_available_workers config (first_launch config services) idle two_issues).issues
      (codes "todo")
    ≤ 2 - running_in_state idle.running_entries (codes "todo")
unfolding get Text-discrete
launch_available_workers-state_limit_example =
    launch_available_workers-state_limit config (first_launch config services) idle two_issues
      (codes "todo") 2 refl

launch_worker_lem_example :
    let (s', threw) = launch_worker config services idle first_issue (some 1) claim_held_options in
    (threw ≡ true
      → (get s'.running_entries (codes "A-1") ≡ none)
        × (includes s'.claimed_issue_ids (codes "A-1") ≡ false))
    × (threw ≡ false
        → (get s'.running_entries (codes "A-1") ≢ none)
          × (includes s'.claimed_issue_ids (codes "A-1")
              ≡ (not true || includes idle.claimed_issue_ids (codes "A-1"))))
    × ((codes "A-1" == codes "A-2") ≡ false
        → (get s'.running_entries (codes "A-2") ≡ get idle.running_entries (codes "A-2"))
          × (includes s'.claimed_issue_ids (codes "A-2")
              ≡ includes idle.claimed_issue_ids (codes "A-2")))
    × (length s'.running_entries ≤ length idle.running_entries + 1)
launch_worker_lem_example =
    launch_worker_lem config services first_issue (some 1) claim_held_options idle (codes "A-2")

round_lem_example :
    let r = launch_available_workers config (first_launch config services) idle two_issues in
    (length r.state.running_entries ≤ max 2 (length idle.running_entries))
    × All (λ (i : Issue). includes idle.claimed_issue_ids i.id ≡ false) r.issues
    × Distinct (ids r.issues)
round_lem_example = round_lem config services idle two_issues

round-half_example :
    2
      * in_state
          (launch_available_workers config (first_launch config services) idle two_issues).issues
          (codes "todo")
    ≤ 2 + 1
unfolding create_lifecycle_state get Text-discrete running_in_state keep
round-half_example =
    round-half config services idle two_issues (codes "todo") 2 refl (λ id h. absurd (h refl)) refl
