-- ===== src/Orchestrator/Invariant/Retries.antt =====
-- The invariant under the timer of a retry.
use risoluto.Prelude.{
  ℕ, Bool, true, false, ◌≡◌, refl, Option, none, some, delete, Text, text_eq, arith, ==_iff,
  get-delete,
}
use risoluto.Core.Types.{Issue, ServiceConfig}
use risoluto.Orchestrator.Runtime.{RetryRuntimeEntry}
use risoluto.Orchestrator.State.{
  LifecycleState, set_detail_view_in_state, set_completed_view_in_state, push_event,
  push_recent_event_in_state, mark_dirty,
}
use risoluto.Orchestrator.Worker.{LaunchServices}
use risoluto.Orchestrator.Outcome.{OutcomeServices}
use risoluto.Orchestrator.Retry.{revalidate}
use risoluto.Orchestrator.Retry.Due.{
  Fetched, fetched, rejected, launch_retry, retry_launch, revalidate_entry, retry_answered,
  handle_retry_launch_failure,
}
use risoluto.Orchestrator.Invariant.{
  is_running, is_retrying, is_claimed, IsSound, queue_retry-IsSound, cancel-IsSound,
}
use risoluto.Orchestrator.Invariant.Launches.{launch_worker-IsSound}

-- The answer of the tracker is for the id that was asked.
abbrev pub IsAnswer : Fetched → Text → Type 0
IsAnswer (fetched (some latest)) id = latest.id ≡ id
IsAnswer _ id = Unit

module _ (config : ServiceConfig) (services : OutcomeServices)
    (launch_services : LaunchServices) where
  handle_retry_launch_failure-IsSound :
      (s : LifecycleState) (issue : Issue) (attempt : ℕ) (error_text : Text)
      → IsSound s
      → IsSound (handle_retry_launch_failure config services s issue attempt error_text)
  unfolding handle_retry_launch_failure push_event push_recent_event_in_state
      set_detail_view_in_state set_completed_view_in_state
  handle_retry_launch_failure-IsSound s issue attempt error_text h =
      cancel-IsSound (mark_dirty (record s { running_entries = delete s.running_entries issue.id }))
        issue.id (λ id. ground (arith, h id, get-delete s.running_entries issue.id id))

  -- What the checks leave: a sound state, and, where a worker is to be launched, an issue that is
  -- claimed and does not wait.
  revalidate_lem :
      (s : LifecycleState) (entry : RetryRuntimeEntry) (issue_id : Text) (attempt : ℕ)
      (latest : Option Issue)
      → is_retrying s issue_id ≡ true
      → IsAnswer (fetched latest) issue_id
      → IsSound s
      → let (s', go) = revalidate config services s entry issue_id attempt latest in
        IsSound s'
        × (go ≡ true → (is_retrying s' issue_id ≡ false) × (is_claimed s' issue_id ≡ true))
  unfolding revalidate
  revalidate_lem s entry issue_id attempt none waits same h =
      (cancel-IsSound s issue_id h, λ e. ground arith)
  revalidate_lem s entry issue_id attempt (some latest) waits same h =
      let removed = λ (id : Text). get-delete s.retry_entries issue_id id in
      let free : is_running s latest.id ≡ false = rw same (ground (arith, h issue_id)) in
      (
        λ id. ground (
          arith,
          h id,
          removed id,
          cancel-IsSound s issue_id h id,
          queue_retry-IsSound services.now_ms s latest attempt 1000 entry.error entry.thread_id free
              h id,
        ),
        λ go. ground (arith, h issue_id, removed issue_id, ==_iff issue_id issue_id),
      )

  launch_retry-IsSound :
      (r : LifecycleState × Bool) (entry : RetryRuntimeEntry) (issue_id : Text) (attempt : ℕ)
      (latest : Option Issue)
      → IsAnswer (fetched latest) issue_id
      → IsSound r.0
      → (r.1 ≡ true → (is_retrying r.0 issue_id ≡ false) × (is_claimed r.0 issue_id ≡ true))
      → IsSound
          (launch_retry config services
            (retry_launch config launch_services)
            r
            entry
            attempt
            latest).0
  launch_retry-IsSound (s, false) entry issue_id attempt none same h k = h
  launch_retry-IsSound (s, true) entry issue_id attempt none same h k = h
  launch_retry-IsSound (s, false) entry issue_id attempt (some latest) same h k = h
  launch_retry-IsSound (s, true) entry issue_id attempt (some latest) same h k =
      launch_worker-IsSound config launch_services s latest (some attempt) _ (rw same (k refl).0)
        (rw same (k refl).1) h

  revalidate_entry-IsSound :
      (s : LifecycleState) (entry : RetryRuntimeEntry) (issue_id : Text) (attempt : ℕ)
      (answer : Fetched)
      → is_retrying s issue_id ≡ true
      → IsAnswer answer issue_id
      → IsSound s
      → IsSound
          (revalidate_entry config services
            (retry_launch config launch_services)
            s
            entry
            issue_id
            attempt
            answer).0
  revalidate_entry-IsSound s entry issue_id attempt rejected waits same h = h
  revalidate_entry-IsSound s entry issue_id attempt (fetched latest) waits same h =
      let (sound, ready) = revalidate_lem s entry issue_id attempt latest waits same h in
      launch_retry-IsSound (revalidate config services s entry issue_id attempt latest) entry
        issue_id attempt latest same sound ready

  -- The tracker answers for a retry that still waits.
  pub retry_answered-IsSound :
      (s : LifecycleState) (entry : RetryRuntimeEntry) (issue : Issue) (attempt : ℕ)
      (error_text : Text) (answer : Fetched)
      → is_retrying s issue.id ≡ true
      → IsAnswer answer issue.id
      → IsSound s
      → IsSound (
          retry_answered config services
            (retry_launch config launch_services)
            s
            entry
            issue
            attempt
            error_text
            answer)
  unfolding retry_answered
  retry_answered-IsSound s entry issue attempt error_text answer waits same h id =
      let sound = revalidate_entry-IsSound s entry issue.id attempt answer waits same h in
      let s' =
        (revalidate_entry config services (retry_launch config launch_services) s entry issue.id
          attempt answer).0 in
      ground
        (arith, sound id, handle_retry_launch_failure-IsSound s' issue attempt error_text sound id)
