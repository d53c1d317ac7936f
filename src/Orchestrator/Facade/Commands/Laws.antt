-- ===== src/Orchestrator/Facade/Commands/Laws.antt =====
-- The commands of src/orchestrator/orchestrator.ts: what they leave of the state.
use risoluto.Prelude.{
  true, ◌≡◌, refl, [], ◌∷◌, Option, none, some, map, Dict, get, put, has, last_match, get-put,
  get-put_all, Text, text_eq, codes, if◌then◌else◌, ◌==◌, ==_iff, arith,
}
use risoluto.Core.Types.{ServiceConfig, ModelSelection}
use risoluto.Orchestrator.Runtime.{stopping, RunningEntry, RecentEvent}
use risoluto.Orchestrator.Launch.{resolve_model_selection}
use risoluto.Orchestrator.State.{LifecycleState, mark_dirty, push_event}
use risoluto.Orchestrator.Facade.{Orchestrator, schedule_tick, handle_refresh_command}
use risoluto.Orchestrator.Facade.Commands.{
  indexed, build_running_entry_index, IssueLocation, running, retry, completed, detail,
  resolve_issue, is_stopping, stop_worker, stop_running, entry_event, Command, aborted, abort_found,
  handle_abort_issue_command, selection_applied, update_model_selection, execute_command, refresh,
  abort_issue, update_issue_model_selection, set_issue_template_override,
  clear_issue_template_override,
}
use risoluto.Orchestrator.Invariant.{is_running, is_retrying, is_claimed, IsSound}

refresh_state : (o : Orchestrator) → (handle_refresh_command o).0.state ≡ o.state
unfolding handle_refresh_command schedule_tick
refresh_state o = ground arith

push_same :
    (s : LifecycleState) (event : RecentEvent)
    → ((push_event s event).running_entries ≡ s.running_entries)
      × ((push_event s event).retry_entries ≡ s.retry_entries)
      × ((push_event s event).claimed_issue_ids ≡ s.claimed_issue_ids)
unfolding push_event
push_same s event = ground arith

last_match-has :
    (m : Dict Text RunningEntry) (identifier id : Text) (entry : RunningEntry)
    → last_match (map indexed m) identifier ≡ some (id, entry)
    → has m id ≡ true
unfolding last_match get
last_match-has [] identifier id entry h = ground arith
last_match-has ((i, e) ∷ m) identifier id entry h =
    ground (arith, last_match-has m identifier id entry, ==_iff i id)

index-has :
    (m : Dict Text RunningEntry) (identifier id : Text) (entry : RunningEntry)
    → get (build_running_entry_index m) identifier ≡ some (id, entry)
    → has m id ≡ true
unfolding build_running_entry_index get
index-has m identifier id entry h =
    ground (arith, last_match-has m identifier id entry, get-put_all [] (map indexed m) identifier)

-- The issues that run, wait and are claimed are the same in both states.
abbrev IsSameWork : LifecycleState → LifecycleState → Type 0
IsSameWork s s' =
    (id : Text)
    → (is_running s' id ≡ is_running s id)
      × (is_retrying s' id ≡ is_retrying s id)
      × (is_claimed s' id ≡ is_claimed s id)

stop_running-IsSameWork :
    (s : LifecycleState) (id : Text) (entry : RunningEntry) (reason : Text) (event : RecentEvent)
    → has s.running_entries id ≡ true
    → IsSameWork s (stop_running s id entry reason event)
unfolding stop_running push_event
stop_running-IsSameWork s id entry reason event here j =
    ground (arith, get-put s.running_entries id j (stop_worker reason entry), ==_iff id j)

abort_found-IsSameWork :
    (now : Text) (o : Orchestrator) (identifier : Text) (found : Option (Text × RunningEntry))
    → ((id : Text) (entry : RunningEntry)
        → found ≡ some (id, entry)
        → has o.state.running_entries id ≡ true)
    → IsSameWork o.state (abort_found now o identifier found).0.state
unfolding handle_refresh_command schedule_tick
abort_found-IsSameWork now o identifier none here j = ground arith
abort_found-IsSameWork now o identifier (some (id, entry)) here j = ground (
  arith,
  stop_running-IsSameWork o.state id entry (codes "operator_abort")
      (entry_event now entry (codes "worker_abort_requested")
        (codes "operator requested worker abort"))
      (here id entry refl) j,
)

selection_applied-IsSameWork :
    (now : Text) (o : Orchestrator) (selection : ModelSelection) (message : Text)
    (where_it_is : Option IssueLocation)
    → IsSameWork o.state (selection_applied now o selection message where_it_is).0.state
unfolding handle_refresh_command schedule_tick push_event
selection_applied-IsSameWork now o selection message none j = ground arith
selection_applied-IsSameWork now o selection message (some (running id entry)) j = ground arith
selection_applied-IsSameWork now o selection message (some (retry entry)) j = ground arith
selection_applied-IsSameWork now o selection message (some (completed view)) j = ground arith
selection_applied-IsSameWork now o selection message (some (detail view)) j = ground arith

execute_command-IsSameWork :
    (now : Text) (config : ServiceConfig) (message : ModelSelection → Text) (o : Orchestrator)
    (command : Command)
    → IsSameWork o.state (execute_command now config message o command).0.state
unfolding execute_command update_model_selection handle_abort_issue_command
execute_command-IsSameWork now config message o refresh j = ground (arith, refresh_state o)
execute_command-IsSameWork now config message o (abort_issue identifier) j =
    abort_found-IsSameWork now o identifier
      (get (build_running_entry_index o.state.running_entries) identifier)
      (λ id entry e. index-has o.state.running_entries identifier id entry e) j
execute_command-IsSameWork now config message o
      (update_issue_model_selection identifier model effort) j =
    let s : LifecycleState = mark_dirty (record o.state {
      issue_model_overrides = put o.state.issue_model_overrides identifier (model, effort);
    }) in
    let selection = resolve_model_selection s.issue_model_overrides config identifier in
    ground (
      arith,
      selection_applied-IsSameWork now (record o { state = s }) selection (message selection)
          (resolve_issue s.running_entries s.retry_entries [] [] identifier) j,
    )
execute_command-IsSameWork now config message o (set_issue_template_override identifier id) j =
    ground arith
execute_command-IsSameWork now config message o (clear_issue_template_override identifier) j =
    ground arith

-- A command leaves the invariant of the state as it is.
pub execute_command-IsSound :
    (now : Text) (config : ServiceConfig) (message : ModelSelection → Text) (o : Orchestrator)
    (command : Command)
    → IsSound o.state
    → IsSound (execute_command now config message o command).0.state
execute_command-IsSound now config message o command h j =
    ground (arith, h j, execute_command-IsSameWork now config message o command j)

-- An abort of an issue whose worker runs answers whether the worker was stopping already. If not, the
-- worker is stopping now, with the reason of the operator, and no other entry has changed. Either way
-- a refresh is queued.
pub handle_abort_issue_command_lem :
    (now : Text) (o : Orchestrator) (identifier id : Text) (entry : RunningEntry)
    → get (build_running_entry_index o.state.running_entries) identifier ≡ some (id, entry)
    → let (o', answer) = handle_abort_issue_command now o identifier in
      (answer ≡ aborted (is_stopping entry))
      × (o'.refresh_queued ≡ true)
      × ((j : Text)
          → get o'.state.running_entries j ≡ (
              if is_stopping entry
              then get o.state.running_entries j
              else if id == j
              then some
                  (record entry { status = stopping; abort_reason = some (codes "operator_abort") })
              else get o.state.running_entries j))
unfolding handle_abort_issue_command handle_refresh_command schedule_tick stop_running push_event
handle_abort_issue_command_lem now o identifier id entry h = rw h (
  ground arith,
  ground arith,
  λ j.
      ground
        (arith, get-put o.state.running_entries id j (stop_worker (codes "operator_abort") entry)),
)
