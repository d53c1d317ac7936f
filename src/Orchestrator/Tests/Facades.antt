-- ===== src/Orchestrator/Tests/Facades.antt =====
-- The timer of the poll and the commands at concrete inputs.
use risoluto.Prelude.{
  put, true, ◌≡◌, refl, [], ◌∷◌, some, get, put_all, Text, text_eq, codes, Text-discrete,
  if◌then◌else◌, ◌==◌,
}
use risoluto.Orchestrator.Runtime.{stopping}
use risoluto.Orchestrator.State.{create_lifecycle_state}
use risoluto.Orchestrator.Facade.{
  Orchestrator, new_orchestrator, start_begin, start_end, schedule_tick, fire,
}
use risoluto.Orchestrator.Facade.Polling.{
  Polling, Polled, created, turned, start_called, recovered, fired, IsPolling, Polled-IsPolling,
}
use risoluto.Orchestrator.Facade.Commands.{
  build_running_entry_index, is_stopping, aborted, handle_abort_issue_command,
}
use risoluto.Orchestrator.Facade.Commands.Laws.{handle_abort_issue_command_lem}
use risoluto.Orchestrator.Tests.{entry}

abbrev awaiting : Polling
awaiting = record { orchestrator = start_begin new_orchestrator; starting = 1 }

abbrev polling : Polling
polling = record { orchestrator = start_end awaiting.orchestrator; starting = 0 }

abbrev in_tick : Polling
in_tick = record { orchestrator = fire polling.orchestrator (some 0); starting = 0 }

abbrev in_tick-Polled : Polled in_tick
unfolding create_lifecycle_state start_begin start_end schedule_tick fire
in_tick-Polled =
    turned polling in_tick
      (turned awaiting polling
        (turned (record { orchestrator = new_orchestrator; starting = 0 }) awaiting created
          (start_called (record { orchestrator = new_orchestrator; starting = 0 })))
        (recovered awaiting 0 refl))
      (fired polling)

Polled-IsPolling_example : IsPolling in_tick
Polled-IsPolling_example = Polled-IsPolling in_tick in_tick-Polled

abbrev one_runs : Orchestrator
one_runs = record new_orchestrator {
  state = record create_lifecycle_state {
    running = true;
    running_entries = (codes "a", entry) ∷ [];
  };
}

indexed_entry :
    get (build_running_entry_index one_runs.state.running_entries) entry.issue.identifier
    ≡ some (codes "a", entry)
unfolding build_running_entry_index get put_all Text-discrete put
indexed_entry = refl

handle_abort_issue_command_lem_example :
    let (o', answer) = handle_abort_issue_command (codes "now") one_runs entry.issue.identifier in
    (answer ≡ aborted (is_stopping entry))
    × (o'.refresh_queued ≡ true)
    × ((j : Text)
        → get o'.state.running_entries j ≡ (
            if is_stopping entry
            then get one_runs.state.running_entries j
            else if codes "a" == j
            then some
                (record entry { status = stopping; abort_reason = some (codes "operator_abort") })
            else get one_runs.state.running_entries j))
handle_abort_issue_command_lem_example =
    handle_abort_issue_command_lem (codes "now") one_runs entry.issue.identifier (codes "a") entry
      indexed_entry
