-- ===== src/Orchestrator/Recovery/Counts.antt =====
-- The report of src/orchestrator/recovery.ts: what it lists.
use risoluto.Prelude.{
  ℕ, ◌+◌, Bool, true, false, not, ◌||◌, ◌≡◌, refl, ap, sym, ◌∙◌, List, [], ◌∷◌, ◌++◌, Option, none,
  some, map, Dict, get, add_all, length, append_assoc, append_nil, Text, text_eq, if◌then◌else◌,
  Bool-cases, inl, inr, arith, ◌==◌,
}
use mathlib.Core.Path.{subst}
use risoluto.Core.Types.{Issue}
use risoluto.Orchestrator.Runtime.{AttemptRecord}
use risoluto.Orchestrator.Recovery.{
  RecoveryAction, resume, cleanup, escalate, skip, RecoveryResult, RecoveryReport, RecoveryCall,
  RecoveryServices, latest_running_attempts, Calls, assess_attempt, after_removal, preserved_end,
  WorkspaceRemoval, handle_cleanup, execute_assessment, record_report_outcome, add_result, settled,
  process_attempt, process_all, empty_report, issues_by_id, run_startup_recovery,
}

-- How often an id is in a list.
abbrev pub count : Text → List Text → ℕ
count k [] = 0
count k (x ∷ xs) = (if x == k then 1 else 0) + count k xs

count-append :
    (k : Text) (xs : List Text) (x : Text)
    → count k (xs ++ x ∷ []) ≡ count k xs + (if x == k then 1 else 0)
count-append k [] x = omega arith
count-append k (y ∷ xs) x = omega (arith, count-append k xs x)

abbrev pub is_none : List RecoveryCall → Bool
is_none [] = true
is_none (c ∷ calls) = false

quiet :
    (dry_run : Bool) (calls : List RecoveryCall)
    → (dry_run ≡ true → calls ≡ [])
    → (not dry_run || is_none calls) ≡ true
quiet true calls h = ap is_none (h refl)
quiet false calls h = refl

module _ (services : RecoveryServices) where
  -- How often an id is among the failed attempts, and how often it is in the lists of the report.
  abbrev pub failed_count : Text → List (Text × Text) → ℕ
  failed_count k [] = 0
  failed_count k (e ∷ errors) = (if e.0 == k then 1 else 0) + failed_count k errors

  abbrev pub listed : Text → RecoveryReport → ℕ
  listed k r =
      count k r.resumed
      + count k r.cleaned_up
      + count k r.escalated
      + count k r.skipped
      + failed_count k r.errors

  failed_count-append :
      (k : Text) (errors : List (Text × Text)) (e : Text × Text)
      → failed_count k (errors ++ e ∷ []) ≡ failed_count k errors + (if e.0 == k then 1 else 0)
  failed_count-append k [] e = omega arith
  failed_count-append k (f ∷ errors) e = omega (arith, failed_count-append k errors e)

  abbrev pub result_ids : List RecoveryResult → List Text
  result_ids [] = []
  result_ids (r ∷ rs) = r.attempt_id ∷ result_ids rs

  result_ids-append :
      (rs : List RecoveryResult) (r : RecoveryResult)
      → result_ids (rs ++ r ∷ []) ≡ result_ids rs ++ r.attempt_id ∷ []
  result_ids-append [] r = refl
  result_ids-append (q ∷ rs) r = ap (λ l. q.attempt_id ∷ l) (result_ids-append rs r)

  -- One attempt more, with the id `id`.
  abbrev Grown : Text → RecoveryReport → RecoveryReport → Type 0
  Grown id r t =
      ((k : Text) → listed k t ≡ listed k r + (if id == k then 1 else 0))
      × ((result_ids t.results ≡ result_ids r.results ++ id ∷ [])
          × ((t.total_scanned ≡ r.total_scanned) × (t.dry_run ≡ r.dry_run)))

  recorded :
      (action : RecoveryAction) (id : Text) (result : RecoveryResult) (r : RecoveryReport)
      → result.attempt_id ≡ id
      → Grown id r (add_result services result (record_report_outcome services action id r))
  recorded resume id result r same = (
    λ k. omega (arith, count-append k r.resumed id),
    (
      result_ids-append r.results result ∙ ap (λ i. result_ids r.results ++ i ∷ []) same,
      (refl, refl),
    ),
  )
  recorded cleanup id result r same = (
    λ k. omega (arith, count-append k r.cleaned_up id),
    (
      result_ids-append r.results result ∙ ap (λ i. result_ids r.results ++ i ∷ []) same,
      (refl, refl),
    ),
  )
  recorded escalate id result r same = (
    λ k. omega (arith, count-append k r.escalated id),
    (
      result_ids-append r.results result ∙ ap (λ i. result_ids r.results ++ i ∷ []) same,
      (refl, refl),
    ),
  )
  recorded skip id result r same = (
    λ k. omega (arith, count-append k r.skipped id),
    (
      result_ids-append r.results result ∙ ap (λ i. result_ids r.results ++ i ∷ []) same,
      (refl, refl),
    ),
  )

  settled-Grown :
      (id : Text) (r : RecoveryReport) (e : Calls × (RecoveryResult × RecoveryAction))
      → e.1.0.attempt_id ≡ id
      → Grown id r (settled services id r e).0
  settled-Grown id r ((calls, none), (result, action)) same = recorded action id result r same
  settled-Grown id r ((calls, some error), (result, action)) same = (
    λ k. omega (arith, failed_count-append k r.errors (id, error)),
    (
      result_ids-append r.results (record result { success = false; error = some error })
          ∙ ap (λ i. result_ids r.results ++ i ∷ []) same,
      (refl, refl),
    ),
  )

  preserved_id :
      (result : RecoveryResult) (removal : WorkspaceRemoval) (calls : Calls)
      → (preserved_end services result removal calls).1.0.attempt_id ≡ result.attempt_id
  preserved_id result removal (calls, some error) = refl
  preserved_id result removal (calls, none) = refl

  removal_id :
      (attempt : _) (result : RecoveryResult) (calls : Calls) (removal : _)
      → (after_removal services attempt result calls removal).1.0.attempt_id ≡ result.attempt_id
  removal_id attempt result (calls, some error) removal = refl
  removal_id attempt result (calls, none) none = refl
  removal_id attempt result (calls, none) (some removal) = elim (Bool-cases removal.preserved) [
    | inl e ↦ rw e (preserved_id _ removal _)
    | inr e ↦ rw e refl
  ]

  executed_id :
      (action : RecoveryAction) (issue : Option Issue) (attempt : AttemptRecord)
      (result : RecoveryResult) (calls : Calls)
      → (execute_assessment services action issue attempt result calls).1.0.attempt_id
        ≡ result.attempt_id
  unfolding handle_cleanup
  executed_id resume (some issue) attempt result calls = refl
  executed_id resume none attempt result calls = refl
  executed_id cleanup issue attempt result calls = removal_id attempt result _ _
  executed_id escalate issue attempt result calls = refl
  executed_id skip issue attempt result calls = refl

  assessed_id :
      (attempt : AttemptRecord) (issue : Option Issue)
      → (assess_attempt services attempt issue).attempt_id ≡ attempt.attempt_id
  unfolding assess_attempt
  assessed_id attempt issue = refl

  -- The two branches of an attempt.
  branch-Grown :
      (b : Bool) (id : Text) (r dry settled_report : RecoveryReport)
      (calls others : List RecoveryCall)
      → Grown id r dry
      → Grown id r settled_report
      → (t : RecoveryReport × List RecoveryCall)
      → t ≡ (if b then (dry, calls) else (settled_report, others))
      → Grown id r t.0
  branch-Grown true id r dry settled_report calls others g h t e =
      subst (λ (t : RecoveryReport × List RecoveryCall). Grown id r t.0) (sym e) g
  branch-Grown false id r dry settled_report calls others g h t e =
      subst (λ (t : RecoveryReport × List RecoveryCall). Grown id r t.0) (sym e) h

  process-Grown :
      (issues : Dict Text Issue) (attempt : AttemptRecord) (r : RecoveryReport)
      (calls : List RecoveryCall)
      → Grown attempt.attempt_id r (process_attempt services issues attempt (r, calls)).0
  unfolding process_attempt
  process-Grown issues attempt r calls =
      let issue = get issues attempt.issue_id in
      let result = assess_attempt services attempt issue in
      let same = assessed_id attempt issue in
      let ended = execute_assessment services result.action issue attempt result (calls, none) in
      branch-Grown r.dry_run attempt.attempt_id r _ _ calls _
        (recorded result.action attempt.attempt_id result r same)
        (settled-Grown attempt.attempt_id r ended
          (executed_id result.action issue attempt result (calls, none) ∙ same))
        _ refl

  pub ids : List AttemptRecord → List Text
  ids [] = []
  ids (a ∷ attempts) = a.attempt_id ∷ ids attempts

  process_dry :
      (issues : Dict Text Issue) (attempt : AttemptRecord) (p : RecoveryReport × List RecoveryCall)
      → p.0.dry_run ≡ true
      → (process_attempt services issues attempt p).1 ≡ p.1
  unfolding process_attempt
  process_dry issues attempt p dry = rw dry refl

  all_counted :
      (issues : Dict Text Issue) (attempts : List AttemptRecord)
      (p : RecoveryReport × List RecoveryCall)
      → let t = process_all services issues attempts p in
        ((k : Text) → listed k t.0 ≡ listed k p.0 + count k (ids attempts))
        × ((result_ids t.0.results ≡ result_ids p.0.results ++ ids attempts)
            × ((t.0.total_scanned ≡ p.0.total_scanned) × (p.0.dry_run ≡ true → t.1 ≡ p.1)))
  unfolding process_all ids
  all_counted issues [] p =
      (λ k. omega arith, (sym (append_nil (result_ids p.0.results)), (refl, λ dry. refl)))
  all_counted issues (a ∷ attempts) p =
      let grown = process-Grown issues a p.0 p.1 in
      let rest = all_counted issues attempts (process_attempt services issues a p) in
      (
        λ k. omega (arith, rest.0 k, grown.0 k),
        (
          rest.1.0
              ∙ (ap (λ l. l ++ ids attempts) grown.1.0
                  ∙ append_assoc (result_ids p.0.results) (a.attempt_id ∷ []) (ids attempts)),
          (
            rest.1.1.0 ∙ grown.1.1.0,
            λ dry. rest.1.1.1 (grown.1.1.1 ∙ dry) ∙ process_dry issues a p dry,
          ),
        ),
      )

  -- The report of a recovery has a result for each attempt it scanned, in their order, and an id is in
  -- its lists - resumed, cleaned up, escalated, skipped or failed, taken together - exactly as often
  -- as it was scanned. A dry run makes none of the calls that change something: it removes no container
  -- and no workspace, launches no worker and writes nothing to the store.
  pub run_startup_recovery_lem :
      (fetch_issues : List Text → List Issue) (dry_run : Bool) (attempts : List AttemptRecord)
      → let t = run_startup_recovery services fetch_issues dry_run attempts in
        ((k : Text) → listed k t.0 ≡ count k (ids (latest_running_attempts attempts)))
        × ((t.0.total_scanned ≡ length (latest_running_attempts attempts))
            × ((result_ids t.0.results ≡ ids (latest_running_attempts attempts))
                × ((not dry_run || is_none t.1) ≡ true)))
  unfolding run_startup_recovery
  run_startup_recovery_lem fetch_issues dry_run attempts =
      let scanned = latest_running_attempts attempts in
      let counted =
        all_counted
          (issues_by_id services (fetch_issues (add_all [] (map (λ a. a.issue_id) scanned))))
          scanned (empty_report services dry_run (length scanned), []) in
      (
        λ k. omega (arith, counted.0 k),
        (counted.1.1.0, (counted.1.0, quiet dry_run _ counted.1.1.1)),
      )
