-- ===== src/Automation/Runner/Laws.antt =====
-- How a run of src/automation/runner.ts ends, and what the store then says of it.
use risoluto.Prelude.{
  false, List, [], ◌∷◌, keep, first_some, Bool, not, ◌&&◌, ◌≡◌, refl, ap, sym, ◌∙◌, ◌++◌, Option,
  none, some, Dict, get, put, get-put, Text, text_eq, nat_eq, codes, if◌then◌else◌, Bool-cases, inl,
  inr, arith,
}
use mathlib.Core.Path.{subst}
use risoluto.Automation.Scheduler.{AutomationConfig, AutomationMode, implement, report, findings}
use risoluto.Automation.Runs.{
  or_fail, notify, RunNotification, emit, run_started, row_finished, running, Outcome, returned,
  rejected, AutomationRunTrigger, AutomationRunStatus, completed, failed, skipped,
  AutomationRunRecord, FinishAutomationRunInput, RunnerState, Snapshot, CreatedIssue,
  RunnerServices, create_run, finished_with, finish_run, finished, finish, announce,
}
use risoluto.Automation.Runner.{
  notified_end, skipped_input, implement_with, has_repo, or_stop, build_implement_description,
  needs_repo, run_report, run_findings, run_implement, run_mode, created_end, run,
}

-- The record that a run starts with.
abbrev pub new_run : AutomationConfig → AutomationRunTrigger → Text → Text → AutomationRunRecord
new_run config trigger id started_at = record {
  id = id;
  automation_name = config.name;
  mode = config.mode;
  trigger = trigger;
  repo_url = config.repo_url;
  status = running;
  output = none;
  details = none;
  issue_id = none;
  issue_identifier = none;
  issue_url = none;
  error = none;
  started_at = started_at;
  finished_at = none;
}

-- The error of an outcome, or else what comes after it.
abbrev error_with : {A : Type 0} → (A → Option Text) → Outcome A → Option Text
error_with e (returned a) = e a
error_with e (rejected x) = some x

-- The error of the calls at the end of a completed run.
abbrev end_error : RunnerServices → Option Text
end_error services = first_some services.notify_fails services.finish_fails

abbrev error_of : {A : Type 0} → RunnerServices → Outcome A → Option Text
error_of services = error_with (λ a. end_error services)

-- The error of the tracker's `createIssue`.
abbrev create_error :
    RunnerServices
    → AutomationConfig
    → Option (Text → Text → Outcome CreatedIssue)
    → Outcome Snapshot
    → Option Text
create_error services config none snapshot =
    some (codes "tracker is not available for implement automations")
create_error services config (some create_issue) snapshot =
    error_with
      (λ found. error_of services (
        create_issue (codes "[Automation] " ++ config.name)
          (build_implement_description services config found)))
      snapshot

abbrev mode_error : AutomationMode → RunnerServices → AutomationConfig → Option Text
mode_error implement services config =
    create_error services config services.tracker services.get_snapshot
mode_error report services config = error_of services services.get_snapshot
mode_error findings services config = error_of services services.get_snapshot

abbrev pub is_skipped : RunnerServices → AutomationConfig → Bool
is_skipped services config = needs_repo services config.mode && not (has_repo config.repo_url)

-- What goes wrong in a run that was stored: for a skipped one, only its end.
abbrev pub run_error : RunnerServices → AutomationConfig → Option Text
run_error services config =
    if is_skipped services config
    then services.finish_fails
    else mode_error config.mode services config

abbrev pub failures : List RunNotification → List RunNotification
failures = keep (λ n. n.is_failure)

-- A run with no error is stored as it is returned, with the status `status`. A run with an error is
-- rejected with it, and is stored as it was begun, with no notification of a failure.
abbrev pub HasEnded :
    Option Text
    → AutomationRunStatus
    → AutomationRunRecord
    → RunnerState
    → RunnerState × Outcome AutomationRunRecord
    → Type 0
HasEnded none status new s (t, returned r) = (get t.runs new.id ≡ some r) × (r.status ≡ status)
HasEnded none status new s (t, rejected e) = ⊥
HasEnded (some error) status new s (t, returned r) = ⊥
HasEnded (some error) status new s (t, rejected e) =
    (e ≡ error) × ((get t.runs new.id ≡ some new) × (failures t.notified ≡ failures s.notified))

-- The same with the error of the store's `createRun`, which leaves everything as it was.
abbrev pub HasRun :
    Option Text
    → Option Text
    → AutomationRunStatus
    → AutomationRunRecord
    → RunnerState
    → RunnerState × Outcome AutomationRunRecord
    → Type 0
HasRun none error status new s end = HasEnded error status new s end
HasRun (some create_error) error status new s end = end ≡ (s, rejected create_error)

failures_more :
    (ns : List RunNotification) (n : RunNotification)
    → n.is_failure ≡ false
    → failures (ns ++ n ∷ []) ≡ failures ns
unfolding keep
failures_more [] n h = rw h refl
failures_more (m ∷ ns) n h = ground (arith, failures_more ns n h)

announce-runs :
    (status : AutomationRunStatus) (r : AutomationRunRecord) (s : RunnerState)
    → (announce status r s).runs ≡ s.runs
announce-runs running r s = refl
announce-runs completed r s = refl
announce-runs skipped r s = refl
announce-runs failed r s = refl

abbrev stored : Text → AutomationRunRecord → RunnerState → RunnerState
stored id r s = record s { runs = put s.runs id r }

finish_eq :
    (r : AutomationRunRecord) (input : FinishAutomationRunInput) (t : RunnerState)
    → get t.runs r.id ≡ some r
    → finish none r input t ≡ (
      announce input.status (finished_with input r) (stored r.id (finished_with input r) t),
      returned (finished_with input r),
    )
unfolding finish finish_run
finish_eq r input t h = ap (λ o. finished r (row_finished r.id input t o)) h

finish_end :
    (fails : Option Text) (r : AutomationRunRecord) (input : FinishAutomationRunInput)
    (s t : RunnerState)
    → get t.runs r.id ≡ some r
    → failures t.notified ≡ failures s.notified
    → HasEnded fails input.status r s (finish fails r input t)
unfolding finish
finish_end (some e) r input s t h same = (refl, (h, same))
finish_end none r input s t h same =
    let done = finished_with input r in
    subst (λ o. HasEnded none input.status r s o) (sym (finish_eq r input t h))
      (
        ap (λ (m : Dict Text AutomationRunRecord). get m r.id)
              (announce-runs input.status done (stored r.id done t))
            ∙ (get-put t.runs r.id r.id done ∙ ground arith),
        refl,
      )

-- The notification of a completion and the end of the run, each of which may fail.
notified_last :
    (notify_fails finish_fails : Option Text) (r : AutomationRunRecord)
    (input : FinishAutomationRunInput) (s t : RunnerState)
    → get t.runs r.id ≡ some r
    → failures t.notified ≡ failures s.notified
    → HasEnded
        (first_some notify_fails finish_fails)
        input.status
        r
        s
        (or_fail notify_fails t (finish finish_fails r input))
notified_last none finish_fails r input s t h same = finish_end finish_fails r input s t h same
notified_last (some e) finish_fails r input s t h same = (refl, (h, same))

-- A step that may fail, then the end of the run.
stop_end :
    {A : Type 0}
    → (o : Outcome A) (next : A → RunnerState × Outcome AutomationRunRecord) (e : A → Option Text)
      (r : AutomationRunRecord) (s t : RunnerState)
    → get t.runs r.id ≡ some r
    → failures t.notified ≡ failures s.notified
    → ((a : A) → HasEnded (e a) completed r s (next a))
    → HasEnded (error_with e o) completed r s (or_stop t o next)
stop_end (returned a) next e r s t h same ended = ended a
stop_end (rejected x) next e r s t h same ended = (refl, (h, same))

created_run :
    (create_fails error : Option Text) (status : AutomationRunStatus) (new : AutomationRunRecord)
    (s : RunnerState) (next : RunnerState → RunnerState × Outcome AutomationRunRecord)
    → HasEnded error status new s (next s)
    → HasRun create_fails error status new s (or_fail create_fails s next)
created_run none error status new s next ended = ended
created_run (some e) error status new s next ended = refl

module _ (services : RunnerServices) where
  completed_end :
      (r : AutomationRunRecord) (input : FinishAutomationRunInput) (n : RunNotification)
      (s t : RunnerState)
      → n.is_failure ≡ false
      → get t.runs r.id ≡ some r
      → failures t.notified ≡ failures s.notified
      → HasEnded (end_error services) input.status r s (notified_end services r input n t)
  completed_end r input n s t quiet h same =
      notified_last services.notify_fails services.finish_fails r input s (notify n t) h
        (failures_more t.notified n quiet ∙ same)

  implement_end :
      (tracker : Option (Text → Text → Outcome CreatedIssue)) (config : AutomationConfig)
      (r : AutomationRunRecord) (at : Text) (s t : RunnerState)
      → get t.runs r.id ≡ some r
      → failures t.notified ≡ failures s.notified
      → HasEnded
          (create_error services config tracker services.get_snapshot)
          completed
          r
          s
          (implement_with services tracker config r at t)
  implement_end none config r at s t h same = (refl, (h, same))
  implement_end (some create_issue) config r at s t h same =
      stop_end services.get_snapshot _ _ r s t h same (λ snapshot.
        stop_end
          (create_issue (codes "[Automation] " ++ config.name)
            (build_implement_description services config snapshot))
          (created_end services config r at t) (λ a. end_error services) r s t h same
          (λ a. completed_end r _ _ s _ refl h same))

  mode_end :
      (mode : AutomationMode) (config : AutomationConfig) (r : AutomationRunRecord) (at : Text)
      (s t : RunnerState)
      → get t.runs r.id ≡ some r
      → failures t.notified ≡ failures s.notified
      → HasEnded
          (mode_error mode services config)
          completed
          r
          s
          (run_mode services mode config r at t)
  unfolding run_report run_findings run_implement
  mode_end report config r at s t h same =
      stop_end services.get_snapshot _ (λ a. end_error services) r s t h same
        (λ a. completed_end r _ _ s _ refl h same)
  mode_end findings config r at s t h same =
      stop_end services.get_snapshot _ (λ a. end_error services) r s t h same
        (λ a. completed_end r _ _ s _ refl h same)
  mode_end implement config r at s t h same = implement_end services.tracker config r at s t h same

  -- Where nothing goes wrong, a run is returned as the store keeps it: skipped where it needs a
  -- repository and has none, otherwise completed. Where a call after the store's `createRun` throws,
  -- `run` throws its error, the store keeps the run as it was begun, still running, and no failure is
  -- notified. Where `createRun` throws, `run` throws its error and nothing else happens.
  pub run_lem :
      (config : AutomationConfig) (trigger : AutomationRunTrigger)
      (id started_at finished_at : Text) (s : RunnerState)
      → HasRun services.create_fails
          (run_error services config)
          (if is_skipped services config then skipped else completed)
          (new_run config trigger id started_at)
          s
          (run services config trigger id started_at finished_at s)
  unfolding run create_run
  run_lem config trigger id started_at finished_at s =
      let new = new_run config trigger id started_at in
      let begun = emit (run_started id config.name config.mode trigger) (stored id new s) in
      let here : get begun.runs id ≡ some new = get-put s.runs id id new ∙ ground arith in
      created_run services.create_fails _ _ new s _
        (elim (Bool-cases (is_skipped services config)) [
          | inl e ↦ rw e (
              finish_end services.finish_fails new (skipped_input services finished_at) s begun here
                refl)
          | inr e ↦ rw e (mode_end config.mode config new finished_at s begun here refl)
        ])
