-- ===== src/Orchestrator/Invariant/Awaits.antt =====
-- What the timer of a retry does where the retry was cancelled during its await.
use risoluto.Prelude.{
  ℕ, Bool, Option, none, ap, ◌∙◌, sym, if◌then◌else◌, true, false, ◌≡◌, refl, some, includes, Text,
  text_eq, arith,
}
use mathlib.Core.Bool.{false≢true}
use mathlib.Core.Path.{subst}
use risoluto.Core.Types.{Issue, ServiceConfig}
use risoluto.Orchestrator.Runtime.{RetryRuntimeEntry}
use risoluto.Orchestrator.State.{LifecycleState}
use risoluto.Orchestrator.Worker.{LaunchServices}
use risoluto.Orchestrator.Worker.Laws.{launch_worker_lem}
use risoluto.Orchestrator.Outcome.{OutcomeServices}
use risoluto.Orchestrator.Retry.{revalidate}
use risoluto.Orchestrator.Retry.Due.{
  fetched, launch_retry, retry_launch, retry_answered, handle_retry_launch_failure,
}
use risoluto.Orchestrator.Invariant.{is_running, is_retrying, is_claimed}

module _ (config : ServiceConfig) (services : OutcomeServices)
    (launch_services : LaunchServices) where
  revalidate-claims :
      (s : LifecycleState) (retry_entry : RetryRuntimeEntry) (issue_id : Text) (attempt : ℕ)
      (latest : Issue)
      → let (s', go) = revalidate config services s retry_entry issue_id attempt (some latest) in
        go ≡ true → s'.claimed_issue_ids ≡ s.claimed_issue_ids
  unfolding revalidate
  revalidate-claims s retry_entry issue_id attempt latest = ground arith

  retry_launch-unclaimed :
      (s : LifecycleState) (latest : Issue) (attempt : ℕ) (thread_id : Option Text)
      → is_claimed s latest.id ≡ false
      → let (s', threw) = retry_launch config launch_services s latest attempt thread_id in
        threw ≡ false → (is_running s' latest.id ≡ true) × (is_claimed s' latest.id ≡ false)
  retry_launch-unclaimed s latest attempt thread_id free launched =
      let law =
        (launch_worker_lem config launch_services latest (some attempt)
            (record {
              claim_held = true;
              previous_thread_id = thread_id;
              model_selection_override = none;
              recovered_attempt = none;
            })
            s latest.id).1
          launched in
      (ground (arith, law.0), law.1 ∙ free)

  launch_retry-go :
      (r : LifecycleState × Bool) (retry_entry : RetryRuntimeEntry) (attempt : ℕ) (latest : Issue)
      → r.1 ≡ true
      → launch_retry config services
          (retry_launch config launch_services)
          r
          retry_entry
          attempt
          (some latest)
        ≡ retry_launch config launch_services r.0 latest attempt retry_entry.thread_id
  launch_retry-go (s, true) retry_entry attempt latest go = refl
  launch_retry-go (s, false) retry_entry attempt latest go = absurd (false≢true go)

  succeeded :
      (failure : LifecycleState → LifecycleState) (r p : LifecycleState × Bool)
      → r ≡ p
      → p.1 ≡ false
      → (if r.1 then failure r.0 else r.0) ≡ p.0
  succeeded failure r p same launched = rw same (rw launched refl)

  -- A retry that was cancelled, and whose issue was released, while its timer awaited the tracker is
  -- launched all the same where the answer passes the checks and the launch does not throw: a worker
  -- then runs for an issue that is not claimed.
  pub retry_answered-unclaimed :
      (s : LifecycleState) (retry_entry : RetryRuntimeEntry) (issue latest : Issue) (attempt : ℕ)
      (error_text : Text)
      → is_retrying s issue.id ≡ false
      → is_claimed s issue.id ≡ false
      → latest.id ≡ issue.id
      → let (checked, go) =
          revalidate config services s retry_entry issue.id attempt (some latest) in
        go ≡ true
        → (retry_launch config launch_services checked latest attempt retry_entry.thread_id).1
          ≡ false
        → let s' =
            retry_answered config services
              (retry_launch config launch_services)
              s
              retry_entry
              issue
              attempt
              error_text
              (fetched (some latest)) in
          (is_running s' issue.id ≡ true) × (is_claimed s' issue.id ≡ false)
  unfolding retry_answered
  retry_answered-unclaimed s retry_entry issue latest attempt error_text idle free same go
        launched =
      let r = revalidate config services s retry_entry issue.id attempt (some latest) in
      let p = retry_launch config launch_services r.0 latest attempt retry_entry.thread_id in
      let ended : retry_answered config services (retry_launch config launch_services) s retry_entry
            issue attempt error_text (fetched (some latest))
          ≡ p.0 =
        succeeded (λ s'. handle_retry_launch_failure config services s' issue attempt error_text) _
          p (launch_retry-go r retry_entry attempt latest go) launched in
      let kept = revalidate-claims s retry_entry issue.id attempt latest go in
      subst
        (λ (s' : LifecycleState).
          (is_running s' issue.id ≡ true) × (is_claimed s' issue.id ≡ false))
        (sym ended)
        (subst (λ id. (is_running p.0 id ≡ true) × (is_claimed p.0 id ≡ false)) same
          (retry_launch-unclaimed r.0 latest attempt retry_entry.thread_id
            (ap (λ ids. includes ids latest.id) kept
              ∙ (ap (λ id. includes s.claimed_issue_ids id) same ∙ free))
            launched))
