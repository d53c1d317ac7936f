-- ===== src/Orchestrator/Recovery/Launches.antt =====
-- The workers that src/orchestrator/recovery.ts launches again.
use risoluto.Prelude.{
  Bool, true, false, ◌≡◌, refl, List, [], ◌∷◌, ◌++◌, Option, none, some, map, Dict, get, add_all,
  All, Text, text_eq, Bool-cases, inl, inr, arith,
}
use risoluto.Core.Types.{Issue}
use risoluto.Orchestrator.Runtime.{AttemptRecord, AttemptStatus, running, paused, failed}
use risoluto.State.Policy.{is_active_state, is_terminal_state}
use risoluto.Orchestrator.Recovery.{
  RecoveryAction, resume, cleanup, escalate, skip, RecoveryReason, RecoveryResult, RecoveryReport,
  RecoveryCall, container_removed, worker_launched, workspace_removed, attempt_updated,
  event_appended, checkpoint_appended, WorkspaceRemoval, RecoveryServices, latest_running_attempts,
  is_given, Calls, workspace_exists, assess_attempt, call, cleanup_containers,
  append_recovery_event, updated_with, handle_resume, after_removal, preserved_end, handle_cleanup,
  handle_escalation, execute_assessment, settled, process_attempt, process_all, issues_by_id,
  run_startup_recovery,
}

append-All :
    {A : Type 0} → (P : A → Type 0) (xs : List A) (a : A) → All P xs → P a → All P (xs ++ a ∷ [])
append-All P [] a h p = (p, tt)
append-All P (x ∷ xs) a h p = (h.0, append-All P xs a h.1 p)

module _ (services : RecoveryServices) (issues : Dict Text Issue) where
  -- A launch is for an attempt whose issue the tracker gives, in a state that is active and not
  -- terminal, with its workspace there and a thread to go on with. Other calls are free.
  abbrev pub IsSafe : RecoveryCall → Type 0
  IsSafe (worker_launched issue attempt) =
      (get issues attempt.issue_id ≡ some issue)
      × ((is_terminal_state issue.state services.config ≡ false)
          × ((is_active_state issue.state services.config ≡ true)
              × ((workspace_exists services attempt.workspace_path ≡ true)
                  × (is_given attempt.thread_id ≡ true))))
  IsSafe (container_removed name) = Unit
  IsSafe (workspace_removed identifier) = Unit
  IsSafe (attempt_updated id status code reason) = Unit
  IsSafe (event_appended id event status reason) = Unit
  IsSafe (checkpoint_appended id status) = Unit

  AreSafe : Calls → Type 0
  AreSafe calls = All IsSafe calls.0

  call-AreSafe :
      (c : RecoveryCall) (calls : Calls)
      → IsSafe c
      → AreSafe calls
      → AreSafe (call services c calls)
  unfolding AreSafe
  call-AreSafe c (calls, some error) safe h = h
  call-AreSafe c (calls, none) safe h = append-All IsSafe calls c h safe

  containers-AreSafe :
      (names : List Text) (calls : Calls)
      → AreSafe calls
      → AreSafe (cleanup_containers services names calls)
  unfolding cleanup_containers
  containers-AreSafe [] calls h = h
  containers-AreSafe (name ∷ names) calls h =
      containers-AreSafe names (call services (container_removed name) calls)
        (call-AreSafe (container_removed name) calls tt h)

  event-AreSafe :
      (id event : Text) (status : AttemptStatus) (reason : RecoveryReason) (calls : Calls)
      → AreSafe calls
      → AreSafe (append_recovery_event services id event status reason calls)
  event-AreSafe id event status reason calls h =
      call-AreSafe (checkpoint_appended id status)
        (call services (event_appended id event status reason) calls) tt
        (call-AreSafe (event_appended id event status reason) calls tt h)

  updated-AreSafe :
      (id : Text) (status : AttemptStatus) (code event : Text) (reason : RecoveryReason)
      (calls : Calls)
      → AreSafe calls
      → AreSafe (updated_with services id status code event reason calls)
  updated-AreSafe id status code event reason calls h =
      event-AreSafe id event status reason
        (call services (attempt_updated id status code reason) calls)
        (call-AreSafe (attempt_updated id status code reason) calls tt h)

  preserved-AreSafe :
      (result : RecoveryResult) (removal : WorkspaceRemoval) (calls : Calls)
      → AreSafe calls
      → AreSafe (preserved_end services result removal calls).0
  preserved-AreSafe result removal (calls, some error) h = h
  preserved-AreSafe result removal (calls, none) h = h

  removal-AreSafe :
      (attempt : AttemptRecord) (result : RecoveryResult) (calls : Calls)
      (removal : Option WorkspaceRemoval)
      → AreSafe calls
      → AreSafe (after_removal services attempt result calls removal).0
  removal-AreSafe attempt result (calls, some error) removal h = h
  removal-AreSafe attempt result (calls, none) none h =
      updated-AreSafe attempt.attempt_id failed _ _ result.reason (calls, none) h
  removal-AreSafe attempt result (calls, none) (some removal) h =
      elim (Bool-cases removal.preserved) [
        | inl e ↦ rw e (
            preserved-AreSafe _ removal _
              (updated-AreSafe attempt.attempt_id failed _ _ _ (calls, none) h))
        | inr e ↦ rw e (updated-AreSafe attempt.attempt_id failed _ _ result.reason (calls, none) h)
      ]

  -- What was assessed as to be resumed may be resumed.
  assessed-IsSafe :
      (attempt : AttemptRecord) (issue : Issue)
      → get issues attempt.issue_id ≡ some issue
      → (assess_attempt services attempt (some issue)).action ≡ resume
      → IsSafe (worker_launched issue attempt)
  unfolding assess_attempt
  assessed-IsSafe attempt issue found h =
      (found, (ground arith, (ground arith, (ground arith, ground arith))))

  execute-AreSafe :
      (action : RecoveryAction) (issue : Option Issue) (attempt : AttemptRecord) (calls : Calls)
      → get issues attempt.issue_id ≡ issue
      → (assess_attempt services attempt issue).action ≡ action
      → AreSafe calls
      → AreSafe
          (execute_assessment services action issue attempt
            (assess_attempt services attempt issue)
            calls).0
  unfolding handle_resume handle_cleanup handle_escalation
  execute-AreSafe resume (some issue) attempt calls found h safe =
      let result = assess_attempt services attempt (some issue) in
      let cleared = cleanup_containers services result.container_names calls in
      event-AreSafe attempt.attempt_id _ running result.reason
        (call services (worker_launched issue attempt) cleared)
        (call-AreSafe (worker_launched issue attempt) cleared
          (assessed-IsSafe attempt issue found h)
          (containers-AreSafe result.container_names calls safe))
  execute-AreSafe resume none attempt calls found h safe = safe
  execute-AreSafe cleanup issue attempt calls found h safe =
      let result = assess_attempt services attempt issue in
      let cleared = cleanup_containers services result.container_names calls in
      removal-AreSafe attempt result
        (call services (workspace_removed attempt.issue_identifier) cleared)
        (services.removal attempt.issue_identifier)
        (call-AreSafe (workspace_removed attempt.issue_identifier) cleared tt
          (containers-AreSafe result.container_names calls safe))
  execute-AreSafe escalate issue attempt calls found h safe =
      updated-AreSafe attempt.attempt_id paused _ _ (assess_attempt services attempt issue).reason
        calls safe
  execute-AreSafe skip issue attempt calls found h safe = safe

  settled_calls :
      (id : Text) (report : RecoveryReport) (e : Calls × (RecoveryResult × RecoveryAction))
      → (settled services id report e).1 ≡ e.0.0
  settled_calls id report ((calls, none), (result, action)) = refl
  settled_calls id report ((calls, some error), (result, action)) = refl

  process_attempt-AreSafe :
      (attempt : AttemptRecord) (report : RecoveryReport) (calls : List RecoveryCall)
      → All IsSafe calls
      → All IsSafe (process_attempt services issues attempt (report, calls)).1
  unfolding process_attempt AreSafe
  process_attempt-AreSafe attempt report calls safe =
      let issue = get issues attempt.issue_id in
      let result = assess_attempt services attempt issue in
      let ended = execute_assessment services result.action issue attempt result (calls, none) in
      elim (Bool-cases report.dry_run) [
        | inl e ↦ rw e safe
        | inr e ↦
            rw (e, settled_calls attempt.attempt_id (record report { dry_run = false }) ended)
              (execute-AreSafe result.action issue attempt (calls, none) refl refl safe)
      ]

  pub process_all-AreSafe :
      (attempts : List AttemptRecord) (p : RecoveryReport × List RecoveryCall)
      → All IsSafe p.1
      → All IsSafe (process_all services issues attempts p).1
  unfolding process_all
  process_all-AreSafe [] p safe = safe
  process_all-AreSafe (attempt ∷ attempts) p safe =
      process_all-AreSafe attempts (process_attempt services issues attempt p)
        (process_attempt-AreSafe attempt p.0 p.1 safe)

module _ (services : RecoveryServices) where
  -- What the tracker answered for the attempts that a recovery scans.
  abbrev pub tracked : (List Text → List Issue) → List AttemptRecord → Dict Text Issue
  tracked fetch_issues attempts =
      issues_by_id services
        (fetch_issues (add_all [] (map (λ a. a.issue_id) (latest_running_attempts attempts))))

  -- A recovery launches a worker only for an attempt whose issue the tracker gives, in a state that
  -- is active and not terminal, with its workspace there and a thread to go on with.
  pub run_startup_recovery-IsSafe :
      (fetch_issues : List Text → List Issue) (dry_run : Bool) (attempts : List AttemptRecord)
      → All
          (IsSafe services (tracked fetch_issues attempts))
          (run_startup_recovery services fetch_issues dry_run attempts).1
  unfolding run_startup_recovery
  run_startup_recovery-IsSafe fetch_issues dry_run attempts =
      process_all-AreSafe services (tracked fetch_issues attempts)
        (latest_running_attempts attempts) _ tt
