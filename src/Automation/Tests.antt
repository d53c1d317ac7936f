-- ===== src/Automation/Tests.antt =====
-- A scheduler with two automations, and a run that has no tracker.
use risoluto.Prelude.{
  ℕ, ◌+◌, Bool, true, false, ◌≡◌, refl, ap, List, [], ◌∷◌, Option, none, some, get, last_match,
  Text, text_eq, nat_eq, codes, head-eq, tail-eq, arith, if◌then◌else◌, ◌↔◌,
}
use risoluto.Automation.Scheduler.{
  AutomationConfig, AutomationMode, implement, report, findings, new_scheduler,
}
use risoluto.Automation.Scheduler.Laws.{running}
use risoluto.Automation.Scheduler.Syncs.{IsFaithful}
use risoluto.Automation.Scheduler.Configs.{named}
use risoluto.Automation.Scheduler.Runs.{
  Change, started, changed, stopped, in_force, unstarted, run_changes, cron_config, wanted,
  run_changes_lem,
}
use risoluto.Automation.Runs.{
  rejected, by_schedule, completed, skipped, RunnerState, RunnerServices,
}
use risoluto.Automation.Runner.{run}
use risoluto.Automation.Runner.Laws.{new_run, is_skipped, run_error, HasRun, run_lem}

abbrev nightly : AutomationConfig
nightly = record {
  name = codes "nightly";
  schedule = codes "0 3 * * *";
  mode = implement;
  prompt = codes "p";
  enabled = true;
  repo_url = none;
}

abbrev weekly : AutomationConfig
weekly = record nightly { name = codes "weekly"; enabled = false }

abbrev any_expression : Text → Bool
any_expression t = true

-- Each text is ended by a 0, and its units are counted up by one.
abbrev ended : Text → Text → Text
ended [] rest = 0 ∷ rest
ended (c ∷ cs) rest = (c + 1) ∷ ended cs rest

abbrev mode_unit : AutomationMode → ℕ
mode_unit implement = 0
mode_unit report = 1
mode_unit findings = 2

abbrev flag : Bool → ℕ
flag true = 1
flag false = 0

abbrev repo_text : Option Text → Text
repo_text none = 0 ∷ []
repo_text (some url) = 1 ∷ url

abbrev written : AutomationConfig → Text
written c =
    mode_unit c.mode
    ∷ flag c.enabled
    ∷ ended c.name (ended c.schedule (ended c.prompt (repo_text c.repo_url)))

ended_eq : (s t a b : Text) → ended s a ≡ ended t b → (s ≡ t) × (a ≡ b)
ended_eq [] [] a b h = (refl, tail-eq h)
ended_eq [] (d ∷ t) a b h = absurd (omega (arith, head-eq h))
ended_eq (c ∷ s) [] a b h = absurd (omega (arith, head-eq h))
ended_eq (c ∷ s) (d ∷ t) a b h =
    let rest = ended_eq s t a b (tail-eq h) in
    let same : c ≡ d = omega (arith, head-eq h) in (cc (same, rest.0), rest.1)

mode_unit_eq : (m n : AutomationMode) → mode_unit m ≡ mode_unit n → m ≡ n
mode_unit_eq implement implement h = refl
mode_unit_eq report report h = refl
mode_unit_eq findings findings h = refl
mode_unit_eq implement report h = absurd (omega (arith, h))
mode_unit_eq implement findings h = absurd (omega (arith, h))
mode_unit_eq report implement h = absurd (omega (arith, h))
mode_unit_eq report findings h = absurd (omega (arith, h))
mode_unit_eq findings implement h = absurd (omega (arith, h))
mode_unit_eq findings report h = absurd (omega (arith, h))

flag_eq : (a b : Bool) → flag a ≡ flag b → a ≡ b
flag_eq true true h = refl
flag_eq false false h = refl
flag_eq true false h = absurd (omega (arith, h))
flag_eq false true h = absurd (omega (arith, h))

repo_text_eq : (a b : Option Text) → repo_text a ≡ repo_text b → a ≡ b
repo_text_eq none none h = refl
repo_text_eq (some u) (some v) h = ap some (tail-eq h)
repo_text_eq none (some v) h = absurd (omega (arith, head-eq h))
repo_text_eq (some u) none h = absurd (omega (arith, head-eq h))

abbrev config : Text → Text → AutomationMode → Text → Bool → Option Text → AutomationConfig
config name schedule mode prompt enabled repo_url = record {
  name = name;
  schedule = schedule;
  mode = mode;
  prompt = prompt;
  enabled = enabled;
  repo_url = repo_url;
}

written-IsFaithful : IsFaithful any_expression written
written-IsFaithful c d h =
    let mode = mode_unit_eq c.mode d.mode (head-eq h) in
    let enabled = flag_eq c.enabled d.enabled (head-eq (tail-eq h)) in
    let name = ended_eq c.name d.name _ _ (tail-eq (tail-eq h)) in
    let schedule = ended_eq c.schedule d.schedule _ _ name.1 in
    let prompt = ended_eq c.prompt d.prompt _ _ schedule.1 in
    let repo = repo_text_eq c.repo_url d.repo_url prompt.1 in
    let fields : config c.name c.schedule c.mode c.prompt c.enabled c.repo_url
        ≡ config d.name d.schedule d.mode d.prompt d.enabled d.repo_url =
      rw (name.0, schedule.0, mode, prompt.0, enabled, repo) refl in
    fields

-- The scheduler is started twice and stopped; the listener that is left is told of the week's automation.
abbrev changes : List Change
changes =
    started (nightly ∷ weekly ∷ [])
    ∷ started (nightly ∷ [])
    ∷ stopped
    ∷ changed (record weekly { enabled = true } ∷ [])
    ∷ []

run_changes_lem_example :
    (cron_config
        (running (run_changes any_expression written new_scheduler changes) (codes "weekly"))
      ≡ wanted any_expression written
          (last_match (named (in_force unstarted changes).1) (codes "weekly")))
    × ((get (run_changes any_expression written new_scheduler changes).live 1 ≡ some weekly) ↔ (
        running (run_changes any_expression written new_scheduler changes) weekly.name
        ≡ some (1, weekly)))
run_changes_lem_example =
    run_changes_lem any_expression written changes (codes "weekly") 1 weekly written-IsFaithful

abbrev no_tracker : RunnerServices
no_tracker = record {
  create_fails = none;
  finish_fails = none;
  notify_fails = none;
  get_snapshot = rejected (codes "down");
  tracker = none;
  show = λ n. n ∷ [];
}

abbrev idle : RunnerState
idle = record { runs = []; emitted = []; notified = []; refreshed = [] }

run_lem_example :
    HasRun none
      (run_error no_tracker nightly)
      (if is_skipped no_tracker nightly then skipped else completed)
      (new_run nightly by_schedule (codes "r1") (codes "s"))
      idle
      (run no_tracker nightly by_schedule (codes "r1") (codes "s") (codes "f") idle)
run_lem_example = run_lem no_tracker nightly by_schedule (codes "r1") (codes "s") (codes "f") idle
