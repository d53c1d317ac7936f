-- ===== src/Orchestrator/Recovery.antt =====
-- src/orchestrator/recovery.ts: what becomes of the attempts that a stopped process left running. The
-- containers, the file system, the store and the launch of a worker are outside: each call of them
-- that changes something is written down in order, and `fails` gives the error of one that throws. What
-- only asks is answered by an argument. A reason is a constructor.
pub mod Counts
pub mod Launches
pub mod Resume
use risoluto.Prelude.{
  ℕ, Bool, true, false, not, ◌&&◌, ◌||◌, List, [], ◌∷◌, ◌++◌, Option, none, some, map, Dict, get,
  put, put_all, values, any, add_all, is_empty, is_some, length, Text, text_eq, codes, or_else,
  if◌then◌else◌,
}
use risoluto.Core.Types.{Issue, ServiceConfig}
use risoluto.Orchestrator.Runtime.{AttemptRecord, AttemptStatus, running, paused, failed}
use risoluto.Orchestrator.Queue.{is_newer}
use risoluto.State.Policy.{is_active_state, is_terminal_state}

pub data RecoveryAction : Type 0 where
  resume : RecoveryAction
  cleanup : RecoveryAction
  escalate : RecoveryAction
  skip : RecoveryAction

pub data RecoveryReason : Type 0 where
  unavailable : RecoveryReason
  inactive : Text → RecoveryReason
  workspace_missing : RecoveryReason
  orphaned : RecoveryReason
  intact : RecoveryReason
  no_thread : RecoveryReason
  commit_error : Text → RecoveryReason

pub record RecoveryResult : Type 0 where
  pub attempt_id : Text
  pub workspace_exists : Bool
  pub worker_alive : Bool
  pub container_names : List Text
  pub action : RecoveryAction
  pub reason : RecoveryReason
  pub success : Bool
  pub auto_commit_sha : Option Text
  pub workspace_preserved : Bool
  pub error : Option Text

-- The report, without its times.
pub record RecoveryReport : Type 0 where
  pub dry_run : Bool
  pub total_scanned : ℕ
  pub resumed : List Text
  pub cleaned_up : List Text
  pub escalated : List Text
  pub skipped : List Text
  pub errors : List (Text × Text)
  pub results : List RecoveryResult

-- The calls that change something: containers, workspaces, workers and the store. The questions to the
-- tracker and about containers and directories, which a dry run asks too, are not among them: their
-- answers are arguments. An update and an event carry the status they set.
pub data RecoveryCall : Type 0 where
  container_removed : Text → RecoveryCall
  worker_launched : Issue → AttemptRecord → RecoveryCall
  workspace_removed : Text → RecoveryCall
  attempt_updated : Text → AttemptStatus → Text → RecoveryReason → RecoveryCall
  event_appended : Text → Text → AttemptStatus → RecoveryReason → RecoveryCall
  checkpoint_appended : Text → AttemptStatus → RecoveryCall

pub record WorkspaceRemoval : Type 0 where
  pub preserved : Bool
  pub auto_commit_sha : Option Text
  pub auto_commit_error : Option Text

-- `inspect` is the containers at a path or its error, `removal` the result of a removed workspace
-- where the manager gives one, `directory` whether a path is a directory.
pub record RecoveryServices : Type 0 where
  pub config : ServiceConfig
  pub inspect : Text → List (Text × Bool) × Option Text
  pub directory : Text → Bool
  pub removal : Text → Option WorkspaceRemoval
  pub fails : RecoveryCall → Option Text

abbrev pub is_running : AttemptStatus → Bool
is_running running = true
is_running _ = false

unfoldable pub latest_running :
    Dict Text AttemptRecord → List AttemptRecord → Dict Text AttemptRecord
latest_running latest [] = latest
latest_running latest (attempt ∷ attempts) =
    latest_running
      (if is_running attempt.status && is_newer attempt (get latest attempt.issue_id)
        then put latest attempt.issue_id attempt
        else latest)
      attempts

unfoldable pub latest_running_attempts : List AttemptRecord → List AttemptRecord
latest_running_attempts attempts = values (latest_running [] attempts)

abbrev pub is_given : Option Text → Bool
is_given none = false
is_given (some t) = not (is_empty t)

-- The calls so far, and the error that ended them.
abbrev pub Calls : Type 0
Calls = List RecoveryCall × Option Text

module _ (services : RecoveryServices) where
  abbrev pub workspace_exists : Option Text → Bool
  workspace_exists none = false
  workspace_exists (some path) = not (is_empty path) && services.directory path

  abbrev pub probe_containers : Option Text → List (Text × Bool) × Option Text
  probe_containers none = ([], none)
  probe_containers (some path) = if is_empty path then ([], none) else services.inspect path

  abbrev pub assess_found :
      AttemptRecord → Bool → Bool → Option Issue → RecoveryAction × RecoveryReason
  assess_found attempt exists alive none = (cleanup, unavailable)
  assess_found attempt exists alive (some issue) =
      if is_terminal_state issue.state services.config
        || not (is_active_state issue.state services.config)
      then (cleanup, inactive issue.state)
      else if not exists
      then (cleanup, workspace_missing)
      else if is_given attempt.thread_id
      then (resume, if alive then orphaned else intact)
      else (escalate, no_thread)

  unfoldable pub assess_attempt : AttemptRecord → Option Issue → RecoveryResult
  assess_attempt attempt issue =
      let probed = probe_containers attempt.workspace_path in
      let exists = workspace_exists attempt.workspace_path in
      let alive = any (λ c. c.1) probed.0 in
      let assessed = assess_found attempt exists alive issue in
      record {
        attempt_id = attempt.attempt_id;
        workspace_exists = exists;
        worker_alive = alive;
        container_names = map (λ c. c.0) probed.0;
        action = assessed.0;
        reason = assessed.1;
        success = true;
        auto_commit_sha = none;
        workspace_preserved = false;
        error = probed.1;
      }

  -- A call is made unless one before it threw.
  abbrev pub call : RecoveryCall → Calls → Calls
  call c (calls, some error) = (calls, some error)
  call c (calls, none) = (calls ++ c ∷ [], services.fails c)

  unfoldable pub cleanup_containers : List Text → Calls → Calls
  cleanup_containers [] calls = calls
  cleanup_containers (name ∷ names) calls =
      cleanup_containers names (call (container_removed name) calls)

  abbrev pub append_recovery_event : Text → Text → AttemptStatus → RecoveryReason → Calls → Calls
  append_recovery_event id event status reason calls =
      call (checkpoint_appended id status) (call (event_appended id event status reason) calls)

  unfoldable pub handle_resume : AttemptRecord → RecoveryResult → Issue → Calls → Calls
  handle_resume attempt result issue calls =
      append_recovery_event attempt.attempt_id (codes "attempt_recovery_resumed") running
        result.reason
        (call (worker_launched issue attempt) (cleanup_containers result.container_names calls))

  abbrev pub updated_with : Text → AttemptStatus → Text → Text → RecoveryReason → Calls → Calls
  updated_with id status code event reason calls =
      append_recovery_event id event status reason
        (call (attempt_updated id status code reason) calls)

  -- The result of a preserved workspace, where its record and its event are written.
  abbrev pub preserved_end :
      RecoveryResult → WorkspaceRemoval → Calls → Calls × (RecoveryResult × RecoveryAction)
  preserved_end result removal (calls, some error) = ((calls, some error), (result, escalate))
  preserved_end result removal (calls, none) = (
    (calls, none),
    (
      record result {
        success = false;
        workspace_preserved = true;
        error = some (
            or_else removal.auto_commit_error
              (codes "workspace preserved during recovery cleanup"));
      },
      escalate,
    ),
  )

  -- What the workspace manager answered: `none` where it gives no result.
  abbrev pub after_removal :
      AttemptRecord
      → RecoveryResult
      → Calls
      → Option WorkspaceRemoval
      → Calls × (RecoveryResult × RecoveryAction)
  after_removal attempt result (calls, some error) removal =
      ((calls, some error), (result, cleanup))
  after_removal attempt result (calls, none) none = (
    updated_with attempt.attempt_id failed (codes "recovery_cleanup")
        (codes "attempt_recovery_cleaned") result.reason (calls, none),
    (result, cleanup),
  )
  after_removal attempt result (calls, none) (some removal) =
      let committed : RecoveryResult = record result {
        auto_commit_sha = removal.auto_commit_sha;
      } in
      if removal.preserved
      then preserved_end committed removal (
          updated_with attempt.attempt_id failed (codes "recovery_cleanup_preserved")
            (codes "attempt_recovery_preserved")
            (elim removal.auto_commit_error [ none ↦ result.reason | some e ↦ commit_error e ])
            (calls, none))
      else (
        updated_with attempt.attempt_id failed (codes "recovery_cleanup")
            (codes "attempt_recovery_cleaned") result.reason (calls, none),
        (committed, cleanup),
      )

  unfoldable pub handle_cleanup :
      AttemptRecord → RecoveryResult → Calls → Calls × (RecoveryResult × RecoveryAction)
  handle_cleanup attempt result calls =
      after_removal attempt result
        (call (workspace_removed attempt.issue_identifier)
          (cleanup_containers result.container_names calls))
        (services.removal attempt.issue_identifier)

  unfoldable pub handle_escalation : AttemptRecord → RecoveryResult → Calls → Calls
  handle_escalation attempt result calls =
      updated_with attempt.attempt_id paused (codes "recovery_escalated")
        (codes "attempt_recovery_escalated") result.reason calls

  abbrev pub execute_assessment :
      RecoveryAction
      → Option Issue
      → AttemptRecord
      → RecoveryResult
      → Calls
      → Calls × (RecoveryResult × RecoveryAction)
  execute_assessment resume (some issue) attempt result calls =
      (handle_resume attempt result issue calls, (result, resume))
  execute_assessment resume none attempt result calls = (calls, (result, skip))
  execute_assessment cleanup issue attempt result calls = handle_cleanup attempt result calls
  execute_assessment escalate issue attempt result calls =
      (handle_escalation attempt result calls, (result, escalate))
  execute_assessment skip issue attempt result calls = (calls, (result, skip))

  abbrev pub record_report_outcome : RecoveryAction → Text → RecoveryReport → RecoveryReport
  record_report_outcome resume id report = record report { resumed = report.resumed ++ id ∷ [] }
  record_report_outcome cleanup id report = record report {
    cleaned_up = report.cleaned_up ++ id ∷ [];
  }
  record_report_outcome escalate id report = record report {
    escalated = report.escalated ++ id ∷ [];
  }
  record_report_outcome skip id report = record report { skipped = report.skipped ++ id ∷ [] }

  abbrev pub add_result : RecoveryResult → RecoveryReport → RecoveryReport
  add_result result report = record report { results = report.results ++ result ∷ [] }

  -- The end of an attempt, with the `catch`; the report goes on with the calls made so far.
  abbrev pub settled :
      Text
      → RecoveryReport
      → Calls × (RecoveryResult × RecoveryAction)
      → RecoveryReport × List RecoveryCall
  settled id report ((calls, none), (result, action)) =
      (add_result result (record_report_outcome action id report), calls)
  settled id report ((calls, some error), (result, action)) = (
    add_result (record result { success = false; error = some error })
        (record report { errors = report.errors ++ (id, error) ∷ [] }),
    calls,
  )

  unfoldable pub process_attempt :
      Dict Text Issue
      → AttemptRecord
      → RecoveryReport × List RecoveryCall
      → RecoveryReport × List RecoveryCall
  process_attempt issues attempt (report, calls) =
      let issue = get issues attempt.issue_id in
      let result = assess_attempt attempt issue in
      if report.dry_run
      then (
        add_result result (record_report_outcome result.action attempt.attempt_id report),
        calls,
      )
      else settled attempt.attempt_id report
          (execute_assessment result.action issue attempt result (calls, none))

  unfoldable pub process_all :
      Dict Text Issue
      → List AttemptRecord
      → RecoveryReport × List RecoveryCall
      → RecoveryReport × List RecoveryCall
  process_all issues [] report = report
  process_all issues (attempt ∷ attempts) report =
      process_all issues attempts (process_attempt issues attempt report)

  abbrev pub empty_report : Bool → ℕ → RecoveryReport
  empty_report dry_run total_scanned = record {
    dry_run = dry_run;
    total_scanned = total_scanned;
    resumed = [];
    cleaned_up = [];
    escalated = [];
    skipped = [];
    errors = [];
    results = [];
  }

  abbrev pub issues_by_id : List Issue → Dict Text Issue
  issues_by_id issues = put_all [] (map (λ issue. (issue.id, issue)) issues)

  -- `fetch_issues` is what the tracker answers to the ids: a request that fails rejects the whole.
  unfoldable pub run_startup_recovery :
      (List Text → List Issue) → Bool → List AttemptRecord → RecoveryReport × List RecoveryCall
  run_startup_recovery fetch_issues dry_run attempts =
      let scanned = latest_running_attempts attempts in
      process_all (issues_by_id (fetch_issues (add_all [] (map (λ a. a.issue_id) scanned)))) scanned
        (empty_report dry_run (length scanned), [])
