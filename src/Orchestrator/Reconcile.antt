-- ===== src/Orchestrator/Reconcile.antt =====
-- `planRunningEntryReconciliation` of src/orchestrator/core/lifecycle-state.ts and the reconciliation
-- of src/orchestrator/lifecycle.ts: running and retrying issues are compared with the tracker.
pub mod Laws
use risoluto.Prelude.{
  ℕ, Bool, true, false, not, ◌||◌, ◌&&◌, ◌≡◌, List, [], ◌∷◌, ◌++◌, Option, none, some, Dict, get,
  put, put_all, values, has, Text, text_eq, codes, first_some, if◌then◌else◌,
}
use risoluto.Core.Types.{Issue, ServiceConfig}
use risoluto.State.Policy.{is_active_state, is_terminal_state}
use risoluto.Orchestrator.Runtime.{RunningEntry, RetryRuntimeEntry, WorkerStatus, running, stopping}
use risoluto.Orchestrator.State.{LifecycleState}
use risoluto.Orchestrator.Retry.{cancel}

-- The host's `===` on the objects that hold issues: one object holds one issue.
pub record Identity : Type 0 where
  pub same : Issue → Issue → Bool
  pub same_eq : (a b : Issue) → same a b ≡ true → a ≡ b

pub data AbortReason : Type 0 where
  terminal inactive : AbortReason

pub record RunningEntryReconciliationPlan : Type 0 where
  pub issue_id : Text
  pub latest_issue : Option Issue
  pub issue_changed : Bool
  pub next_status : WorkerStatus
  pub abort_reason : Option AbortReason
  pub cleanup_on_exit : Bool

abbrev pub reason_text : AbortReason → Text
reason_text terminal = codes "terminal"
reason_text inactive = codes "inactive"

-- An abort of what is not aborted yet.
abbrev pub abort_once : Option Text → AbortReason → Option AbortReason
abort_once none reason = some reason
abort_once (some earlier) reason = none

module _ (identity : Identity) (config : ServiceConfig) where
  abbrev pub plan_with : RunningEntry → Option Issue → RunningEntryReconciliationPlan
  plan_with entry none = record {
    issue_id = entry.issue.id;
    latest_issue = none;
    issue_changed = false;
    next_status = entry.status;
    abort_reason = none;
    cleanup_on_exit = entry.cleanup_on_exit;
  }
  plan_with entry (some latest) =
      if is_terminal_state latest.state config
      then record {
        issue_id = entry.issue.id;
        latest_issue = some latest;
        issue_changed = not (identity.same entry.issue latest);
        next_status = stopping;
        abort_reason = abort_once entry.abort_reason terminal;
        cleanup_on_exit = true;
      }
      else if not (is_active_state latest.state config)
      then record {
        issue_id = entry.issue.id;
        latest_issue = some latest;
        issue_changed = not (identity.same entry.issue latest);
        next_status = stopping;
        abort_reason = abort_once entry.abort_reason inactive;
        cleanup_on_exit = entry.cleanup_on_exit;
      }
      else record {
        issue_id = entry.issue.id;
        latest_issue = some latest;
        issue_changed = not (identity.same entry.issue latest);
        next_status = entry.status;
        abort_reason = none;
        cleanup_on_exit = entry.cleanup_on_exit;
      }

  unfoldable pub plan_running_entry_reconciliation :
      List RunningEntry → Dict Text Issue → List RunningEntryReconciliationPlan
  plan_running_entry_reconciliation [] by_id = []
  plan_running_entry_reconciliation (entry ∷ entries) by_id =
      plan_with entry (get by_id entry.issue.id) ∷ plan_running_entry_reconciliation entries by_id

abbrev pub same_status : WorkerStatus → WorkerStatus → Bool
same_status running running = true
same_status stopping stopping = true
same_status _ _ = false

abbrev pub reason_of : Option AbortReason → Option Text
reason_of none = none
reason_of (some reason) = some (reason_text reason)

-- The entry after a plan for it, and whether it counts as changed.
abbrev pub planned : RunningEntry → Issue → RunningEntryReconciliationPlan → RunningEntry × Bool
planned entry latest plan = (
  record entry {
    issue = if plan.issue_changed then latest else entry.issue;
    cleanup_on_exit = plan.cleanup_on_exit || entry.cleanup_on_exit;
    abort_reason = first_some entry.abort_reason (reason_of plan.abort_reason);
    status = plan.next_status;
  },
  plan.issue_changed
      || (plan.cleanup_on_exit && not entry.cleanup_on_exit)
      || not (same_status entry.status plan.next_status),
)

-- The body of the loop in `reconcileRunning`.
abbrev pub apply_plan :
    Dict Text RunningEntry
    → RunningEntryReconciliationPlan
    → Option RunningEntry
    → Option Issue
    → Dict Text RunningEntry × Bool
apply_plan entries plan (some entry) (some latest) =
    let (entry', changed) = planned entry latest plan in (put entries plan.issue_id entry', changed)
apply_plan entries plan found latest = (entries, false)

unfoldable pub apply_plans :
    Dict Text RunningEntry → List RunningEntryReconciliationPlan → Dict Text RunningEntry × Bool
apply_plans entries [] = (entries, false)
apply_plans entries (plan ∷ plans) =
    let (entries', changed) =
      apply_plan entries plan (get entries plan.issue_id) plan.latest_issue in
    let (rest, later) = apply_plans entries' plans in (rest, changed || later)

-- What the tracker says of a retrying issue, whose entry is mutated in the map.
abbrev pub reconcile_retry :
    ServiceConfig → LifecycleState → RetryRuntimeEntry → Option Issue → LifecycleState
reconcile_retry config s entry none = cancel s entry.issue_id
reconcile_retry config s entry (some latest) =
    if is_terminal_state latest.state config || not (is_active_state latest.state config)
    then cancel s entry.issue_id
    else if has s.retry_entries entry.issue_id
    then record s {
      retry_entries = put s.retry_entries entry.issue_id (record entry { issue = latest });
    }
    else s

unfoldable pub reconcile_retries :
    ServiceConfig → Dict Text Issue → LifecycleState → List RetryRuntimeEntry → LifecycleState
reconcile_retries config by_id s [] = s
reconcile_retries config by_id s (entry ∷ entries) =
    reconcile_retries config by_id (reconcile_retry config s entry (get by_id entry.issue_id))
      entries

abbrev pub issue_entries : List Issue → List (Text × Issue)
issue_entries [] = []
issue_entries (issue ∷ issues) = (issue.id, issue) ∷ issue_entries issues

-- `issues` is what the tracker sends for the running and the retrying ids. With no such id nothing
-- is asked, and nothing changes.
unfoldable pub reconcile_running_and_retrying :
    Identity → ServiceConfig → LifecycleState → List Issue → LifecycleState × Bool
unfolding apply_plans reconcile_retries plan_running_entry_reconciliation
reconcile_running_and_retrying identity config s issues =
    let by_id = put_all [] (issue_entries issues) in
    let plans =
      plan_running_entry_reconciliation identity config (values s.running_entries) by_id in
    let (entries, changed) = apply_plans s.running_entries plans in
    let s' = record s { running_entries = entries } in
    (reconcile_retries config by_id s' (values s'.retry_entries), changed)
