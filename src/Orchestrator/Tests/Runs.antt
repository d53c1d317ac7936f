-- ===== src/Orchestrator/Tests/Runs.antt =====
-- The theorems on the ends of workers, retries and whole runs at concrete inputs.
use risoluto.Orchestrator.Worker.{launch_worker}
use risoluto.Prelude.{
  ℕ_discrete, ℕ, keep, values, length, ◌+◌, ◌*◌, ◌≤◌, min, true, false, ◌≡◌, refl, [], ◌∷◌, none,
  some, get, put, includes, add, text_eq, codes, Text-discrete, any, fill, add_all, put, trim,
  to_lower_case,
}
use mathlib.Core.Bool.{false≢true}
use risoluto.State.Machine
use risoluto.State.Machine.{normalize_state, unique_from, unique_step, new_state_machine}
use risoluto.Orchestrator.Finalize.{finalize_stop_signal}
use risoluto.State.Policy.{is_active_state, is_terminal_state}
use risoluto.Orchestrator.Runtime.{RetryRuntimeEntry, RunOutcome, normal, done}
use risoluto.Orchestrator.State.{
  LifecycleState, create_lifecycle_state, set_completed_view_in_state, is_hard_failure,
}
use risoluto.Orchestrator.Launch.{launch_available_workers}
use risoluto.Orchestrator.Worker.Rounds.{first_launch}
use risoluto.Orchestrator.Outcome.{
  complete, project_outcome_issue_view, OutcomeServices, PreparedWorkerOutcome,
}
use risoluto.Orchestrator.Retry.{compute_backoff_for_attempt, revalidate}
use risoluto.Orchestrator.Retry.Due.{fetched, retry_launch, retry_answered}
use risoluto.Orchestrator.Invariant.Awaits.{retry_answered-unclaimed}
use risoluto.Orchestrator.Retry.Backoff.{compute_backoff_for_attempt_lem}
use risoluto.Orchestrator.Ended.{handle_prepared}
use risoluto.Orchestrator.Ended.Claims.{signal_of, handle_prepared-claim}
use risoluto.Orchestrator.Reconcile.{Identity}
use risoluto.Orchestrator.Invariant.{is_running, is_claimed, IsSound}
use risoluto.Orchestrator.Invariant.Steps.{
  Step, launched, Reachable, initial, stepped, Reachable-IsSound,
}
use risoluto.Orchestrator.Stall.{detect_and_kill_stalled_workers}
use risoluto.Orchestrator.Stall.Laws.{
  is_silent, aborted, after_scan, detect_and_kill_stalled_workers_lem,
}
use risoluto.Orchestrator.Tests.{config, first_issue, services, entry}

-- The first state, switched on, and a round of launches from it.
abbrev started : LifecycleState
started = record create_lifecycle_state { running = true }

abbrev after_round : LifecycleState
after_round =
    (launch_available_workers config (first_launch config services) started
      (first_issue ∷ [])).state

abbrev after_round-Reachable : Reachable after_round
after_round-Reachable =
    stepped started after_round
      (stepped create_lifecycle_state started initial (Step.started create_lifecycle_state))
      (launched config services started (first_issue ∷ []))

Reachable-IsSound_example : IsSound after_round
Reachable-IsSound_example = Reachable-IsSound after_round after_round-Reachable

abbrev outcome_services : OutcomeServices
outcome_services = record {
  fetch_issue = λ issue. some issue;
  update_attempt = λ run_id. true;
  preserved = λ issue. none;
  git_post_run = λ entry. none;
  completion_writeback = λ issue. none;
  detect_stop_signal = λ content. some done;
  now_ms = 2000;
  now_iso = codes "1970-01-01T00:00:02Z";
  to_iso = λ ms. codes "then";
}

-- A retry whose entry and claim went away before the answer came.
abbrev cancelled_retry : RetryRuntimeEntry
cancelled_retry = record {
  issue_id = codes "A-1";
  identifier = codes "A-1";
  attempt = 2;
  due_at_ms = 1000;
  error = none;
  thread_id = none;
  issue = first_issue;
  workspace_key = none;
}

retry_answered-unclaimed_example :
    let s' =
      retry_answered config outcome_services
        (retry_launch config services)
        started
        cancelled_retry
        first_issue
        2
        (codes "error")
        (fetched (some first_issue)) in
    (is_running s' (codes "A-1") ≡ true) × (is_claimed s' (codes "A-1") ≡ false)
unfolding revalidate get create_lifecycle_state includes is_terminal_state Machine.is_terminal_state
    any new_state_machine normalize_state to_lower_case trim ℕ_discrete Text-discrete
    is_active_state keep launch_worker
retry_answered-unclaimed_example =
    retry_answered-unclaimed config outcome_services services started cancelled_retry first_issue
      first_issue 2 (codes "error") refl refl refl refl refl

abbrev outcome : RunOutcome
outcome = record {
  kind = normal;
  error_code = none;
  error_message = none;
  codex_error_info = none;
  thread_id = none;
  turn_id = none;
  turn_count = 1;
}

abbrev prepared : PreparedWorkerOutcome
prepared = record {
  outcome = outcome;
  entry = entry;
  issue = first_issue;
  workspace = entry.workspace;
  attempt = some 1;
  latest_issue = first_issue;
  model_selection = entry.model_selection;
}

abbrev claimed_state : LifecycleState
claimed_state = record started { claimed_issue_ids = codes "A-1" ∷ [] }

handle_prepared-claim_example :
    (true ≡ true)
    × (is_terminal_state (codes "Todo") config ≡ false)
    × (is_active_state (codes "Todo") config ≡ true)
    × (signal_of config outcome_services (codes "exhausted") prepared ≡ some done)
unfolding handle_prepared is_terminal_state is_active_state finalize_stop_signal
    create_lifecycle_state get includes complete set_completed_view_in_state
    project_outcome_issue_view is_hard_failure Text-discrete normalize_state trim to_lower_case
    unique_from unique_step fill add add_all put Machine.is_terminal_state any new_state_machine
handle_prepared-claim_example =
    handle_prepared-claim config outcome_services (codes "exhausted") claimed_state prepared refl
      refl

compute_backoff_for_attempt_lem_example :
    (compute_backoff_for_attempt 2 300000 ≤ 300000)
    × (compute_backoff_for_attempt 2 300000 ≤ compute_backoff_for_attempt (2 + 1) 300000)
    × (compute_backoff_for_attempt 0 300000 ≡ min 10000 300000)
    × (2 * compute_backoff_for_attempt 2 300000 ≤ 300000
        → compute_backoff_for_attempt (2 + 1) 300000 ≡ 2 * compute_backoff_for_attempt 2 300000)
compute_backoff_for_attempt_lem_example = compute_backoff_for_attempt_lem 2 300000

-- Every issue is held by an object of its own.
abbrev distinct_objects : Identity
distinct_objects = record { same = λ a b. false; same_eq = λ a b h. absurd (false≢true h) }

abbrev silent : LifecycleState
silent = record started { running_entries = (codes "A-1", entry) ∷ [] }

detect_and_kill_stalled_workers_lem_example :
    let text = λ (ms : ℕ). codes "silent" in
    let (s', killed) = detect_and_kill_stalled_workers 5000 (codes "now") text config silent in
    let silent_now = is_silent 5000 (codes "now") text 1000 in
    (config.codex.stall_timeout_ms ≡ 0 → (s' ≡ silent) × (killed ≡ 0))
    × (1 ≤ 1000
        → (get s'.running_entries (codes "A-1")
            ≡ after_scan silent_now
                (aborted 5000 (codes "now") text)
                (get silent.running_entries (codes "A-1")))
          × (killed ≡ length (keep silent_now (values silent.running_entries)))
          × (length s'.stall_events ≤ 100))
detect_and_kill_stalled_workers_lem_example =
    detect_and_kill_stalled_workers_lem 5000 (codes "now") (λ ms. codes "silent") config silent
      (codes "A-1")
