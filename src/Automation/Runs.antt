-- ===== src/Automation/Runs.antt =====
-- The records of src/automation/types.ts, the store of the runs and the end of a run: `finish` of
-- src/automation/runner.ts. A rejected promise is a value.
use risoluto.Prelude.{
  ℕ, Bool, true, List, [], ◌∷◌, ◌++◌, Option, none, some, Dict, get, put, Text, text_eq, nat_eq,
  codes, or_else,
}
use risoluto.Automation.Scheduler.{AutomationConfig, AutomationMode}

pub data Outcome (A : Type 0) : Type 0 where
  returned : A → Outcome A
  rejected : Text → Outcome A

pub data AutomationRunTrigger : Type 0 where
  by_schedule : AutomationRunTrigger
  by_hand : AutomationRunTrigger

pub data AutomationRunStatus : Type 0 where
  running : AutomationRunStatus
  completed : AutomationRunStatus
  failed : AutomationRunStatus
  skipped : AutomationRunStatus

-- The records that `details` is filled with.
pub data RunDetails : Type 0 where
  repo_url_required : RunDetails
  counted : ℕ → ℕ → List Text → List Text → List Text → List Text → RunDetails
  found : List Text → RunDetails
  prompted : Text → RunDetails

pub record AutomationRunRecord : Type 0 where
  pub id : Text
  pub automation_name : Text
  pub mode : AutomationMode
  pub trigger : AutomationRunTrigger
  pub repo_url : Option Text
  pub status : AutomationRunStatus
  pub output : Option Text
  pub details : Option RunDetails
  pub issue_id : Option Text
  pub issue_identifier : Option Text
  pub issue_url : Option Text
  pub error : Option Text
  pub started_at : Text
  pub finished_at : Option Text

pub record FinishAutomationRunInput : Type 0 where
  pub status : AutomationRunStatus
  pub output : Option Text
  pub details : Option RunDetails
  pub issue_id : Option Text
  pub issue_identifier : Option Text
  pub issue_url : Option Text
  pub error : Option Text
  pub finished_at : Text

pub data AutomationEvent : Type 0 where
  run_started : Text → Text → AutomationMode → AutomationRunTrigger → AutomationEvent
  run_failed : Text → Text → AutomationMode → Text → AutomationEvent
  run_completed : Text → Text → AutomationMode → AutomationRunStatus → AutomationEvent

pub data RunSeverity : Type 0 where
  info : RunSeverity
  warning : RunSeverity
  critical : RunSeverity

pub record CreatedIssue : Type 0 where
  pub issue_id : Text
  pub identifier : Text
  pub url : Option Text

-- A call of the notification manager: whether the run failed, how severe, of which automation, the
-- message and the issue that was created.
pub record RunNotification : Type 0 where
  pub is_failure : Bool
  pub severity : RunSeverity
  pub name : Text
  pub mode : AutomationMode
  pub repo_url : Option Text
  pub message : Text
  pub created : Option CreatedIssue

-- The runs of the store, and what was sent to the bus, the manager and the orchestrator.
pub record RunnerState : Type 0 where
  pub runs : Dict Text AutomationRunRecord
  pub emitted : List AutomationEvent
  pub notified : List RunNotification
  pub refreshed : List (Text × (Text × Text))

-- The identifiers of the issues of `getSnapshot`, and the names of its events.
pub record Snapshot : Type 0 where
  pub running_count : ℕ
  pub retrying_count : ℕ
  pub running : List Text
  pub retrying : List Text
  pub queued : List Text
  pub completed : List Text
  pub recent_events : List Text

-- `show` is the text of a number. What ends in `_fails` is the error of a call that rejects: of the
-- store's `createRun` and `finishRun`, and of the manager's `notify` in `notify`.
pub record RunnerServices : Type 0 where
  pub create_fails : Option Text
  pub finish_fails : Option Text
  pub notify_fails : Option Text
  pub get_snapshot : Outcome Snapshot
  pub tracker : Option (Text → Text → Outcome CreatedIssue)
  pub show : ℕ → Text

unfoldable pub create_run :
    AutomationConfig
    → AutomationRunTrigger
    → Text
    → Text
    → RunnerState
    → RunnerState × AutomationRunRecord
create_run config trigger id started_at s =
    let run : AutomationRunRecord = record {
      id = id;
      automation_name = config.name;
      mode = config.mode;
      trigger = trigger;
      repo_url = config.repo_url;
      status = running;
      output = none;
      details = none;
      issue_id = none;
      issue_identifier = none;
      issue_url = none;
      error = none;
      started_at = started_at;
      finished_at = none;
    } in
    (record s { runs = put s.runs id run }, run)

abbrev pub finished_with : FinishAutomationRunInput → AutomationRunRecord → AutomationRunRecord
finished_with input run = record run {
  status = input.status;
  output = input.output;
  details = input.details;
  issue_id = input.issue_id;
  issue_identifier = input.issue_identifier;
  issue_url = input.issue_url;
  error = input.error;
  finished_at = some input.finished_at;
}

abbrev pub row_finished :
    Text
    → FinishAutomationRunInput
    → RunnerState
    → Option AutomationRunRecord
    → RunnerState × Option AutomationRunRecord
row_finished id input s none = (s, none)
row_finished id input s (some row) =
    (record s { runs = put s.runs id (finished_with input row) }, some (finished_with input row))

-- The update of the row with that id, which is then read.
unfoldable pub finish_run :
    Text → FinishAutomationRunInput → RunnerState → RunnerState × Option AutomationRunRecord
finish_run id input s = row_finished id input s (get s.runs id)

abbrev pub notify : RunNotification → RunnerState → RunnerState
notify n s = record s { notified = s.notified ++ n ∷ [] }

abbrev pub emit : AutomationEvent → RunnerState → RunnerState
emit e s = record s { emitted = s.emitted ++ e ∷ [] }

-- The end of a run that failed has no rejection here: `run` never finishes one as failed.
abbrev pub announce : AutomationRunStatus → AutomationRunRecord → RunnerState → RunnerState
announce running run s = s
announce completed run s = emit (run_completed run.id run.automation_name run.mode completed) s
announce skipped run s = emit (run_completed run.id run.automation_name run.mode skipped) s
announce failed run s =
    emit
      (run_failed run.id run.automation_name run.mode (or_else run.error (codes "unknown error")))
      (notify
        (record {
          is_failure = true;
          severity = critical;
          name = run.automation_name;
          mode = run.mode;
          repo_url = run.repo_url;
          message =
              or_else run.error (codes "Automation " ++ (run.automation_name ++ codes " failed"));
          created = none;
        })
        s)

abbrev pub finished :
    AutomationRunRecord
    → RunnerState × Option AutomationRunRecord
    → RunnerState × Outcome AutomationRunRecord
finished run (s, none) =
    (s, rejected (codes "automation run " ++ (run.id ++ codes " could not be finalized")))
finished run (s, some done) = (announce done.status done s, returned done)

-- What comes after a call, unless it rejects.
abbrev pub or_fail :
    {B : Type 0}
    → Option Text
    → RunnerState
    → (RunnerState → RunnerState × Outcome B)
    → RunnerState × Outcome B
or_fail none s next = next s
or_fail (some error) s next = (s, rejected error)

unfoldable pub finish :
    Option Text
    → AutomationRunRecord
    → FinishAutomationRunInput
    → RunnerState
    → RunnerState × Outcome AutomationRunRecord
finish finish_fails run input s =
    or_fail finish_fails s (λ t. finished run (finish_run run.id input t))
