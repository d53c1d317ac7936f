-- ===== src/Orchestrator/Worker/Laws.antt =====
-- What a launch leaves.
use risoluto.Prelude.{
  ℕ, ◌+◌, ◌≤◌, Bool, true, false, not, ◌||◌, ◌&&◌, ◌≡◌, ◌≢◌, Option, none, some, get, length, Text,
  text_eq, if◌then◌else◌, ◌==◌, ==_iff, arith, includes, get-put, get-delete, includes-add,
  includes-remove, length-put, length-delete-le,
}
use risoluto.Core.Types.{Issue, ServiceConfig}
use risoluto.Orchestrator.Runtime.{Workspace}
use risoluto.Orchestrator.State.{
  LifecycleState, set_queued_views_in_state, claim_issue_in_state, release_issue_claim_in_state,
}
use risoluto.Orchestrator.Worker.{
  LaunchServices, LaunchWorkerOptions, register_entry, undo_launch, start_worker, launch_worker,
  launch_entry,
}

-- What a failed launch undoes.
undo_launch_lem :
    (s : LifecycleState) (issue : Issue) (id : Text)
    → let s' = undo_launch s issue in
      (get s'.running_entries id ≡ (if issue.id == id then none else get s.running_entries id))
      × (includes s'.claimed_issue_ids id
          ≡ (if issue.id == id then false else includes s.claimed_issue_ids id))
      × (length s'.running_entries ≤ length s.running_entries)
unfolding undo_launch release_issue_claim_in_state
undo_launch_lem s issue id = ground (
  arith,
  get-delete s.running_entries issue.id id,
  includes-remove s.claimed_issue_ids issue.id id,
  length-delete-le s.running_entries issue.id,
  ==_iff issue.id id,
)

-- The claim that a launch starts from.
abbrev claimed_first : LifecycleState → Issue → Bool → LifecycleState
claimed_first s issue held = if held then s else claim_issue_in_state s issue.id

claimed_first_lem :
    (s : LifecycleState) (issue : Issue) (held : Bool) (id : Text)
    → let s' = claimed_first s issue held in
      (s'.running_entries ≡ s.running_entries)
      × (includes s'.claimed_issue_ids id
          ≡ ((not held && issue.id == id) || includes s.claimed_issue_ids id))
unfolding claim_issue_in_state
claimed_first_lem s issue held id = ground (arith, includes-add s.claimed_issue_ids issue.id id)

module _ (config : ServiceConfig) (services : LaunchServices) (issue : Issue) (attempt : Option ℕ)
    (options : LaunchWorkerOptions) where
  -- The body touches no entry but the issue's, and no claim.
  start_worker_lem :
      (s : LifecycleState) (workspace : Option Workspace) (id : Text)
      → let (s', threw) = start_worker config services s issue attempt options workspace in
        (threw ≡ false → get s'.running_entries issue.id ≢ none)
        × ((issue.id == id) ≡ false → get s'.running_entries id ≡ get s.running_entries id)
        × (s'.claimed_issue_ids ≡ s.claimed_issue_ids)
        × (length s'.running_entries ≤ length s.running_entries + 1)
  unfolding start_worker register_entry set_queued_views_in_state
  start_worker_lem s none id = ground arith
  start_worker_lem s (some w) id =
      let entry = launch_entry config services s issue attempt options w in
      ground (
        arith,
        get-put s.running_entries issue.id id entry,
        get-put s.running_entries issue.id issue.id entry,
        ==_iff issue.id issue.id,
        length-put s.running_entries issue.id entry,
      )

  -- A launch that throws leaves neither an entry nor a claim of the issue; one that succeeds leaves
  -- an entry, and the claim where it was taken or held. Other issues keep entry and claim, and the
  -- entries grow by one at most.
  pub launch_worker_lem :
      (s : LifecycleState) (id : Text)
      → let (s', threw) = launch_worker config services s issue attempt options in
        (threw ≡ true
          → (get s'.running_entries issue.id ≡ none)
            × (includes s'.claimed_issue_ids issue.id ≡ false))
        × (threw ≡ false
            → (get s'.running_entries issue.id ≢ none)
              × (includes s'.claimed_issue_ids issue.id
                  ≡ (not options.claim_held || includes s.claimed_issue_ids issue.id)))
        × ((issue.id == id) ≡ false
            → (get s'.running_entries id ≡ get s.running_entries id)
              × (includes s'.claimed_issue_ids id ≡ includes s.claimed_issue_ids id))
        × (length s'.running_entries ≤ length s.running_entries + 1)
  unfolding launch_worker
  launch_worker_lem s id =
      let first = claimed_first s issue options.claim_held in
      let workspace = services.prepare_workspace issue in
      let s' = (start_worker config services first issue attempt options workspace).0 in
      ground (
        arith,
        claimed_first_lem s issue options.claim_held issue.id,
        claimed_first_lem s issue options.claim_held id,
        start_worker_lem first workspace id,
        undo_launch_lem s' issue id,
        undo_launch_lem s' issue issue.id,
        ==_iff issue.id issue.id,
      )
