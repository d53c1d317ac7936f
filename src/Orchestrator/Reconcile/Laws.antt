-- ===== src/Orchestrator/Reconcile/Laws.antt =====
-- What the reconciliation makes of the running entries.
use risoluto.Prelude.{true, not, ◌≡◌, Option, none, some, text_eq, arith, if◌then◌else◌, first_some}
use risoluto.Core.Types.{Issue, ServiceConfig}
use risoluto.State.Policy.{is_active_state, is_terminal_state}
use risoluto.Orchestrator.Runtime.{RunningEntry, stopping}
use risoluto.Orchestrator.Reconcile.{
  Identity, plan_with, planned, AbortReason, terminal, inactive, reason_text,
}

-- What the tracker's answer makes of an entry, said directly.
abbrev pub stopped_for : AbortReason → Issue → RunningEntry → RunningEntry
stopped_for reason latest entry = record entry {
  issue = latest;
  status = stopping;
  abort_reason = first_some entry.abort_reason (some (reason_text reason));
}

abbrev pub brought_up : ServiceConfig → RunningEntry → Option Issue → RunningEntry
brought_up config entry none = entry
brought_up config entry (some latest) =
    if is_terminal_state latest.state config
    then record (stopped_for terminal latest entry) { cleanup_on_exit = true }
    else if not (is_active_state latest.state config)
    then stopped_for inactive latest entry
    else record entry { issue = latest }

module _ (identity : Identity) (config : ServiceConfig) where
  planned-issue :
      (entry : RunningEntry) (latest : Issue)
      → (if not (identity.same entry.issue latest) then latest else entry.issue) ≡ latest
  planned-issue entry latest = ground (arith, identity.same_eq entry.issue latest)

  -- A plan, applied to its entry, brings the entry up to the tracker's issue: a terminal issue stops
  -- the worker and marks its workspace for cleanup, an inactive one stops it, and an earlier reason
  -- of an abort is kept.
  pub planned-plan_with :
      (entry : RunningEntry) (latest : Issue)
      → (planned entry latest (plan_with identity config entry (some latest))).0
        ≡ brought_up config entry (some latest)
  planned-plan_with entry latest = ground (arith, planned-issue entry latest)
