-- ===== src/Automation/Runner.antt =====
-- src/automation/runner.ts: one run of an automation. `run` returns the
-- promises of its helpers without an await, so a helper that throws rejects `run` itself and the
-- `catch` around them is never entered; a rejection is a value here.
pub mod Laws
use risoluto.Prelude.{
  ℕ, Bool, true, false, not, ◌&&◌, ◌||◌, List, [], ◌∷◌, ◌++◌, Option, none, some, map, Dict, get,
  put, keep, length, Text, text_eq, nat_eq, codes, is_empty, ltb, or_else, if◌then◌else◌, ◌==◌,
}
use risoluto.Automation.Scheduler.{
  AutomationScheduler, ScheduledAutomationEntry, AutomationConfig, AutomationMode, implement,
  report, findings,
}
use risoluto.Automation.Runs.{
  or_fail, Outcome, AutomationRunTrigger, AutomationRunStatus, RunDetails, AutomationRunRecord,
  FinishAutomationRunInput, AutomationEvent, RunSeverity, CreatedIssue, RunNotification,
  RunnerState, Snapshot, RunnerServices, create_run, finished_with, row_finished, finish_run,
  notify, emit, announce, finished, finish, returned, rejected, by_schedule, by_hand, running,
  completed, failed, skipped, repo_url_required, counted, found, prompted, run_started, run_failed,
  run_completed, info, warning, critical,
}

-- `lines.join(separator)`
unfoldable pub joined : Text → List Text → Text
joined separator [] = []
joined separator (line ∷ []) = line
joined separator (line ∷ next ∷ lines) = line ++ (separator ++ joined separator (next ∷ lines))

-- `repoUrl` is truthy.
abbrev pub has_repo : Option Text → Bool
has_repo none = false
has_repo (some url) = not (is_empty url)

abbrev pub or_stop :
    {A B : Type 0}
    → RunnerState
    → Outcome A
    → (A → RunnerState × Outcome B)
    → RunnerState × Outcome B
or_stop s (returned a) next = next a
or_stop s (rejected e) next = (s, rejected e)

module _ (services : RunnerServices) where
  unfoldable pub build_report_output : AutomationConfig → Snapshot → Text
  build_report_output config snapshot = joined (codes "\n") (
      (codes "Automation " ++ (config.name ++ codes " ran in report mode."))
      ∷ (codes "Running: " ++ services.show snapshot.running_count)
      ∷ (codes "Retrying: " ++ services.show snapshot.retrying_count)
      ∷ (codes "Queued: " ++ services.show (length snapshot.queued))
      ∷ (codes "Completed: " ++ services.show (length snapshot.completed))
      ∷ ((if has_repo config.repo_url
            then (codes "Repo: " ++ or_else config.repo_url []) ∷ []
            else [])
          ++ (codes "Prompt: " ++ config.prompt) ∷ []))

  unfoldable pub build_findings : Snapshot → List Text
  build_findings snapshot =
      let stalled = keep (λ e. e == codes "worker_stalled") snapshot.recent_events in
      (if ltb 0 (length snapshot.retrying)
        then (codes "Retry queue contains "
            ++ (services.show (length snapshot.retrying)
                ++ (codes " issue(s): " ++ joined (codes ", ") snapshot.retrying)))
          ∷ []
        else [])
      ++ ((if ltb 0 (length snapshot.queued)
            then (codes "Dispatch queue contains "
                ++ (services.show (length snapshot.queued) ++ codes " issue(s)."))
              ∷ []
            else [])
          ++ (if ltb 0 (length stalled)
              then (codes "Recent worker stalls observed: "
                  ++ (services.show (length stalled) ++ codes "."))
                ∷ []
              else []))

  unfoldable pub build_implement_description : AutomationConfig → Snapshot → Text
  build_implement_description config snapshot = joined (codes "\n") (
      (codes "Automation: " ++ config.name)
      ∷ []
      ∷ config.prompt
      ∷ []
      ∷ build_report_output config snapshot
      ∷ [])

  abbrev pub completed_input : Text → RunDetails → Text → FinishAutomationRunInput
  completed_input output details at = record {
    status = completed;
    output = some output;
    details = some details;
    issue_id = none;
    issue_identifier = none;
    issue_url = none;
    error = none;
    finished_at = at;
  }

  abbrev pub completion :
      AutomationConfig → RunSeverity → Text → Option CreatedIssue → RunNotification
  completion config severity message created = record {
    is_failure = false;
    severity = severity;
    name = config.name;
    mode = config.mode;
    repo_url = config.repo_url;
    message = message;
    created = created;
  }

  -- The notification of a completion, then the end of the run.
  abbrev pub notified_end :
      AutomationRunRecord
      → FinishAutomationRunInput
      → RunNotification
      → RunnerState
      → RunnerState × Outcome AutomationRunRecord
  notified_end run input n s =
      or_fail services.notify_fails (notify n s) (finish services.finish_fails run input)

  unfoldable pub run_report :
      AutomationConfig
      → AutomationRunRecord
      → Text
      → RunnerState
      → RunnerState × Outcome AutomationRunRecord
  run_report config run at s = or_stop s services.get_snapshot (λ snapshot.
      let output = build_report_output config snapshot in
      let details =
        counted snapshot.running_count snapshot.retrying_count snapshot.running snapshot.retrying
          snapshot.queued snapshot.completed in
      notified_end run (completed_input output details at) (completion config info output none) s)

  unfoldable pub run_findings :
      AutomationConfig
      → AutomationRunRecord
      → Text
      → RunnerState
      → RunnerState × Outcome AutomationRunRecord
  run_findings config run at s = or_stop s services.get_snapshot (λ snapshot.
      let results = build_findings snapshot in
      let is_clean = length results == 0 in
      let output =
        if is_clean
        then codes "No active findings."
        else joined (codes "\n") (map (λ finding. codes "- " ++ finding) results) in
      notified_end run (completed_input output (found results) at)
        (completion config (if is_clean then info else warning) output none) s)

  -- The refresh of the created issue, its notification and the end of the run.
  abbrev pub created_end :
      AutomationConfig
      → AutomationRunRecord
      → Text
      → RunnerState
      → CreatedIssue
      → RunnerState × Outcome AutomationRunRecord
  created_end config run at s created =
      let output =
        codes "Created tracker issue "
        ++ (created.identifier ++ (codes " for automation " ++ (config.name ++ codes "."))) in
      notified_end run
        (record (completed_input output (prompted config.prompt) at) {
          issue_id = some created.issue_id;
          issue_identifier = some created.identifier;
          issue_url = created.url;
        })
        (completion config info output (some created))
        (record s {
          refreshed =
              s.refreshed
              ++ (created.issue_id, (created.identifier, codes "automation:" ++ config.name)) ∷ [];
        })

  abbrev pub implement_with :
      Option (Text → Text → Outcome CreatedIssue)
      → AutomationConfig
      → AutomationRunRecord
      → Text
      → RunnerState
      → RunnerState × Outcome AutomationRunRecord
  implement_with none config run at s =
      (s, rejected (codes "tracker is not available for implement automations"))
  implement_with (some create_issue) config run at s = or_stop s services.get_snapshot (λ snapshot.
      or_stop s
        (create_issue (codes "[Automation] " ++ config.name)
          (build_implement_description config snapshot))
        (created_end config run at s))

  unfoldable pub run_implement :
      AutomationConfig
      → AutomationRunRecord
      → Text
      → RunnerState
      → RunnerState × Outcome AutomationRunRecord
  run_implement config run at s = implement_with services.tracker config run at s

  abbrev pub run_mode :
      AutomationMode
      → AutomationConfig
      → AutomationRunRecord
      → Text
      → RunnerState
      → RunnerState × Outcome AutomationRunRecord
  run_mode implement config run at s = run_implement config run at s
  run_mode findings config run at s = run_findings config run at s
  run_mode report config run at s = run_report config run at s

  -- The modes that work in a repository.
  abbrev pub needs_repo : AutomationMode → Bool
  needs_repo implement = false
  needs_repo report = true
  needs_repo findings = true

  abbrev pub skipped_input : Text → FinishAutomationRunInput
  skipped_input at = record {
    status = skipped;
    output = none;
    details = some repo_url_required;
    issue_id = none;
    issue_identifier = none;
    issue_url = none;
    error = some (codes "repoUrl is required for report and findings automations");
    finished_at = at;
  }

  -- `started_at` and `finished_at` are the times of the two ends, `id` is that of the new run.
  unfoldable pub run :
      AutomationConfig
      → AutomationRunTrigger
      → Text
      → Text
      → Text
      → RunnerState
      → RunnerState × Outcome AutomationRunRecord
  run config trigger id started_at finished_at s = or_fail services.create_fails s (λ t.
      let (stored, record_of_run) = create_run config trigger id started_at t in
      let begun = emit (run_started id config.name config.mode trigger) stored in
      if needs_repo config.mode && not (has_repo config.repo_url)
      then finish services.finish_fails record_of_run (skipped_input finished_at) begun
      else run_mode config.mode config record_of_run finished_at begun)

  abbrev pub run_entry :
      Text
      → Text
      → Text
      → RunnerState
      → Option ScheduledAutomationEntry
      → RunnerState × Option (Outcome AutomationRunRecord)
  run_entry id started_at finished_at s none = (s, none)
  run_entry id started_at finished_at s (some entry) =
      let (after, answer) = run entry.config by_hand id started_at finished_at s in
      (after, some answer)

  -- `runNow` of the scheduler.
  unfoldable pub run_now :
      AutomationScheduler
      → Text
      → Text
      → Text
      → Text
      → RunnerState
      → RunnerState × Option (Outcome AutomationRunRecord)
  run_now scheduler name id started_at finished_at s =
      run_entry id started_at finished_at s (get scheduler.entries name)
