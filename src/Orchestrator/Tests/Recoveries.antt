-- ===== src/Orchestrator/Tests/Recoveries.antt =====
-- A recovery of two attempts: the first can be resumed, the second has no workspace.
use risoluto.Prelude.{
  true, false, not, ◌||◌, ◌≡◌, List, [], ◌∷◌, none, some, All, Text, text_eq, codes, length,
}
use risoluto.Core.Types.{Issue, default}
use risoluto.Orchestrator.Runtime.{AttemptRecord, running}
use risoluto.Orchestrator.Recovery.{RecoveryServices, latest_running_attempts, run_startup_recovery}
use risoluto.Orchestrator.Recovery.Counts.{
  count, listed, result_ids, ids, is_none, run_startup_recovery_lem,
}
use risoluto.Orchestrator.Recovery.Launches.{IsSafe, tracked, run_startup_recovery-IsSafe}
use risoluto.Orchestrator.Tests.{config, first_issue}

abbrev attempt : AttemptRecord
attempt = record {
  attempt_id = codes "1";
  issue_id = codes "A-1";
  issue_identifier = codes "A-1";
  title = codes "A-1";
  workspace_key = none;
  workspace_path = some (codes "/w/1");
  status = running;
  attempt_number = some 1;
  started_at = codes "2026-01-01";
  ended_at = none;
  model = codes "m";
  reasoning_effort = none;
  model_source = default;
  thread_id = some (codes "t");
  turn_id = none;
  turn_count = 1;
  error_code = none;
  error_message = none;
  token_usage = none;
  pull_request_url = none;
  stop_signal = none;
  summary = none;
}

abbrev attempts : List AttemptRecord
attempts =
    attempt
    ∷ record attempt {
      attempt_id = codes "2";
      issue_id = codes "A-2";
      issue_identifier = codes "A-2";
      workspace_path = none;
    }
    ∷ []

abbrev calm : RecoveryServices
calm = record {
  config = config;
  inspect = λ path. ((codes "c", true) ∷ [], none);
  directory = λ path. true;
  removal = λ identifier. none;
  fails = λ call. none;
}

abbrev known : List Text → List Issue
known ids = first_issue ∷ record first_issue { id = codes "A-2"; identifier = codes "A-2" } ∷ []

run_startup_recovery-IsSafe_example :
    All
      (IsSafe calm (tracked calm known attempts))
      (run_startup_recovery calm known false attempts).1
run_startup_recovery-IsSafe_example = run_startup_recovery-IsSafe calm known false attempts

run_startup_recovery_lem_example :
    ((k : Text)
      → listed calm k (run_startup_recovery calm known false attempts).0
        ≡ count k (ids calm (latest_running_attempts attempts)))
    × (((run_startup_recovery calm known false attempts).0.total_scanned
          ≡ length (latest_running_attempts attempts))
        × ((result_ids calm (run_startup_recovery calm known false attempts).0.results
              ≡ ids calm (latest_running_attempts attempts))
            × ((not false || is_none (run_startup_recovery calm known false attempts).1) ≡ true)))
run_startup_recovery_lem_example = run_startup_recovery_lem calm known false attempts
