-- ===== src/Orchestrator/Invariant/Settles.antt =====
-- The invariant under the promise of a worker.
use risoluto.Prelude.{
  ℕ, true, false, ◌≡◌, refl, Option, none, some, Text, text_eq, arith, ==_iff, get-delete,
  Bool-cases, Option-cases, inl, inr, or_else,
}
use risoluto.Core.Types.{Issue, ServiceConfig}
use risoluto.Orchestrator.Runtime.{RunningEntry, Workspace, RunOutcome}
use risoluto.Orchestrator.State.{LifecycleState, set_detail_view_in_state}
use risoluto.Orchestrator.Outcome.{OutcomeServices, PreparedWorkerOutcome, prepare_worker_outcome}
use risoluto.Orchestrator.Ended.{
  handle_worker_promise, handle_if_prepared, Settled, resolved, rejected,
}
use risoluto.Orchestrator.Invariant.{is_running, is_retrying, IsSound}
use risoluto.Orchestrator.Invariant.Ends.{
  IsIdle, handle_prepared-IsSound, handle_worker_failure-IsSound,
}

-- What was prepared is prepared for the issue with this id.
abbrev IsFor : Option PreparedWorkerOutcome → Text → Type 0
IsFor none id = Unit
IsFor (some p) id = p.latest_issue.id ≡ id

module _ (config : ServiceConfig) (services : OutcomeServices) (message : Text)
    (keeps_id : (issue latest : Issue)
      → services.fetch_issue issue ≡ some latest
      → latest.id ≡ issue.id) where
  latest_id : (issue : Issue) → (or_else (services.fetch_issue issue) issue).id ≡ issue.id
  latest_id issue = elim (Option-cases (services.fetch_issue issue)) [
    | inl e ↦ rw e refl
    | inr (latest, e) ↦ rw e (keeps_id issue latest e)
  ]

  -- The state after the preparation, and the issue of what was prepared.
  prepared_lem :
      (s : LifecycleState) (outcome : RunOutcome) (entry : RunningEntry) (issue : Issue)
      (workspace : Workspace) (attempt : Option ℕ)
      → is_retrying s issue.id ≡ false
      → IsSound s
      → let (s', prepared) =
          prepare_worker_outcome config services s outcome entry issue workspace attempt in
        IsSound s' × IsIdle s' issue.id × IsFor prepared issue.id
  unfolding prepare_worker_outcome set_detail_view_in_state
  prepared_lem s outcome entry issue workspace attempt free h =
      let removed = λ (id : Text). get-delete s.running_entries issue.id id in
      elim (Bool-cases (services.update_attempt entry.run_id)) [
        | inl e ↦ rw e (
          (λ id. ground (arith, h id, removed id)),
          ground (arith, removed issue.id, ==_iff issue.id issue.id, free),
          latest_id issue,
        )
        | inr e ↦ rw e (
          (λ id. ground (arith, h id, removed id)),
          ground (arith, removed issue.id, ==_iff issue.id issue.id, free),
          tt,
        )
      ]

  settle-IsSound :
      (r : LifecycleState × Option PreparedWorkerOutcome) (issue : Issue) (entry : RunningEntry)
      (error_text : Text)
      → IsSound r.0
      → IsIdle r.0 issue.id
      → IsFor r.1 issue.id
      → IsSound (handle_if_prepared config services message r issue entry error_text)
  settle-IsSound (s, none) issue entry error_text h idle k =
      handle_worker_failure-IsSound config services message s issue entry error_text idle.1
        (λ id e. h id)
  settle-IsSound (s, some p) issue entry error_text h idle k =
      handle_prepared-IsSound config services message s p (rw k idle) h

  -- A worker that is running ends.
  pub handle_worker_promise-IsSound :
      (s : LifecycleState) (settled : Settled) (issue : Issue) (workspace : Workspace)
      (entry : RunningEntry) (attempt : Option ℕ) (error_text : Text)
      → is_running s issue.id ≡ true
      → IsSound s
      → IsSound (
          handle_worker_promise config services message s settled issue workspace entry attempt
            error_text)
  unfolding handle_worker_promise
  handle_worker_promise-IsSound s (rejected error) issue workspace entry attempt error_text here h =
      handle_worker_failure-IsSound config services message s issue entry error
        ((h issue.id).0 here).1 (λ id e. h id)
  handle_worker_promise-IsSound s (resolved outcome) issue workspace entry attempt error_text here
        h =
      let (sound, idle, same) =
        prepared_lem s outcome entry issue workspace attempt ((h issue.id).0 here).1 h in
      settle-IsSound
        (prepare_worker_outcome config services s outcome entry issue workspace attempt) issue entry
        error_text sound idle same
