-- ===== src/Orchestrator/Invariant/Polls.antt =====
-- The invariant under the reconciliation, the scans, the events of agents, the refreshes of the queue
-- and the seeding.
use risoluto.Prelude.{
  ℕ, ◌≡◌, refl, ◌∙◌, List, [], ◌∷◌, Option, none, some, Dict, get, put_all, values,
  includes-add_all, Text, text_eq, arith, ==_iff, get-put, has,
}
use risoluto.Core.Types.{Issue, ServiceConfig}
use risoluto.Orchestrator.Runtime.{RunningEntry, RetryRuntimeEntry, AttemptRecord}
use risoluto.Orchestrator.State.{LifecycleState}
use risoluto.Orchestrator.Worker.{AgentEvent, on_agent_event, hear_event}
use risoluto.Orchestrator.Worker.Events.{on_agent_event-IsSameWork}
use risoluto.Orchestrator.Reconcile.{
  Identity, RunningEntryReconciliationPlan, planned, apply_plan, apply_plans, reconcile_retry,
  reconcile_retries, reconcile_running_and_retrying, plan_running_entry_reconciliation,
  issue_entries,
}
use risoluto.Orchestrator.Dispatch.{Host}
use risoluto.Orchestrator.Queue.{
  refresh_queue_views, seed_completed_claims, seed_completed_claims_from_attempts,
}
use risoluto.Orchestrator.Queue.Laws.{refresh_queue_views_lem}
use risoluto.Orchestrator.Stall.{detect, detect_and_kill_stalled_workers}
use risoluto.Orchestrator.Stall.Laws.{detect_lem, push_all_lem}
use risoluto.Orchestrator.Invariant.{IsSound, cancel-IsSound}

apply_plan_keys :
    (entries : Dict Text RunningEntry) (plan : RunningEntryReconciliationPlan)
    (found : Option RunningEntry) (latest : Option Issue) (id : Text)
    → get entries plan.issue_id ≡ found
    → has (apply_plan entries plan found latest).0 id ≡ has entries id
apply_plan_keys entries plan none latest id e = refl
apply_plan_keys entries plan (some entry) none id e = refl
apply_plan_keys entries plan (some entry) (some latest) id e =
    ground (
      arith,
      get-put entries plan.issue_id id (planned entry latest plan).0,
      ==_iff plan.issue_id id,
    )

apply_plans_keys :
    (entries : Dict Text RunningEntry) (plans : List RunningEntryReconciliationPlan) (id : Text)
    → has (apply_plans entries plans).0 id ≡ has entries id
unfolding apply_plans
apply_plans_keys entries [] id = refl
apply_plans_keys entries (plan ∷ plans) id =
    let found = get entries plan.issue_id in
    apply_plans_keys (apply_plan entries plan found plan.latest_issue).0 plans id
    ∙ apply_plan_keys entries plan found plan.latest_issue id refl

reconcile_retry-IsSound :
    (config : ServiceConfig) (s : LifecycleState) (entry : RetryRuntimeEntry)
    (latest : Option Issue)
    → IsSound s
    → IsSound (reconcile_retry config s entry latest)
reconcile_retry-IsSound config s entry none h = cancel-IsSound s entry.issue_id h
reconcile_retry-IsSound config s entry (some latest) h = λ id. ground (
  arith,
  h id,
  cancel-IsSound s entry.issue_id h id,
  get-put s.retry_entries entry.issue_id id (record entry { issue = latest }),
  ==_iff entry.issue_id id,
)

reconcile_retries-IsSound :
    (config : ServiceConfig) (by_id : Dict Text Issue) (s : LifecycleState)
    (entries : List RetryRuntimeEntry)
    → IsSound s
    → IsSound (reconcile_retries config by_id s entries)
unfolding reconcile_retries
reconcile_retries-IsSound config by_id s [] h = h
reconcile_retries-IsSound config by_id s (entry ∷ entries) h =
    let latest = get by_id entry.issue_id in
    reconcile_retries-IsSound config by_id (reconcile_retry config s entry latest) entries
      (reconcile_retry-IsSound config s entry latest h)

pub reconcile-IsSound :
    (identity : Identity) (config : ServiceConfig) (s : LifecycleState) (issues : List Issue)
    → IsSound s
    → IsSound (reconcile_running_and_retrying identity config s issues).0
unfolding reconcile_running_and_retrying
reconcile-IsSound identity config s issues h =
    let by_id = put_all [] (issue_entries issues) in
    let plans =
      plan_running_entry_reconciliation identity config (values s.running_entries) by_id in
    let s' = record s { running_entries = (apply_plans s.running_entries plans).0 } in
    reconcile_retries-IsSound config by_id s' (values s.retry_entries)
      (λ id. ground (arith, h id, apply_plans_keys s.running_entries plans id))

pub detect-IsSound :
    (now_ms : ℕ) (now_iso : Text) (message : ℕ → Text) (config : ServiceConfig) (s : LifecycleState)
    → IsSound s
    → IsSound (detect_and_kill_stalled_workers now_ms now_iso message config s).0
unfolding detect_and_kill_stalled_workers
detect-IsSound now_ms now_iso message config s h id =
    let timeout_ms = config.codex.stall_timeout_ms in
    let found = detect now_ms now_iso message timeout_ms s.running_entries in
    ground (
      arith,
      h id,
      detect_lem now_ms now_iso message timeout_ms s.running_entries id,
      push_all_lem now_ms now_iso message (record s { running_entries = found.entries })
          found.pushed,
    )

pub hear-IsSound :
    (now_ms : ℕ) (s : LifecycleState) (id : Text) (entry : RunningEntry) (event : AgentEvent)
    → get s.running_entries id ≡ some entry
    → IsSound s
    → IsSound (hear_event now_ms s id entry event)
unfolding hear_event
hear-IsSound now_ms s id entry event here h j =
    let (s', entry') = on_agent_event now_ms s entry event in
    ground (
      arith,
      h j,
      on_agent_event-IsSameWork now_ms s entry event,
      get-put s'.running_entries id j entry',
      ==_iff id j,
    )

pub refresh-IsSound :
    (config : ServiceConfig) (now : Text) (metadata : Issue → Text) (host : Host)
    (s : LifecycleState) (issues : List Issue)
    → IsSound s
    → IsSound (refresh_queue_views config now metadata host s issues)
refresh-IsSound config now metadata host s issues h id =
    ground (arith, h id, (refresh_queue_views_lem config now metadata host s issues).3)

pub seed-IsSound :
    (s : LifecycleState) (attempts : List AttemptRecord)
    → IsSound s
    → IsSound (seed_completed_claims s attempts)
unfolding seed_completed_claims
seed-IsSound s attempts h id =
    let claimed = (seed_completed_claims_from_attempts attempts).0 in
    ground (arith, h id, includes-add_all s.claimed_issue_ids claimed id)
