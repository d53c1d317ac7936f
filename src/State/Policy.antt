-- ===== src/State/Policy.antt =====
-- src/state/policy.ts: what a state means under a service configuration, which either has stages
-- with kinds or two lists of the tracker's states. Configurations are not mutated, so the caches
-- of the source return what is computed here.
pub mod Columns
pub mod Laws
use risoluto.Prelude.{
  Bool, true, false, ◌||◌, List, [], ◌∷◌, ◌++◌, Option, none, some, includes, add, Text, text_eq,
  codes, is_empty, if◌then◌else◌, ◌==◌,
}
use risoluto.Core.Types.{
  StateStageKind, backlog, todo, active, gate, terminal, StateStageConfig, StateMachineConfig,
  ServiceConfig,
}
use risoluto.State.Machine.{
  StateMachine, StateMachineConfigInput, StageInput, staged, normalize_state, unique_from,
  new_state_machine,
}
use risoluto.State.Machine

-- The same loop as that of `uniqueStates`.
unfoldable pub normalize_state_list : List Text → List Text
unfolding unique_from
normalize_state_list states = unique_from [] states

abbrev pub is_terminal_kind : StateStageKind → Bool
is_terminal_kind terminal = true
is_terminal_kind _ = false

abbrev pub is_gate_kind : StateStageKind → Bool
is_gate_kind gate = true
is_gate_kind _ = false

abbrev pub is_todo_kind : StateStageKind → Bool
is_todo_kind todo = true
is_todo_kind _ = false

abbrev pub is_active_or_todo_kind : StateStageKind → Bool
is_active_or_todo_kind active = true
is_active_or_todo_kind todo = true
is_active_or_todo_kind _ = false

abbrev pub stage_inputs : List StateStageConfig → List StageInput
stage_inputs [] = []
stage_inputs (s ∷ stages) = staged s.name (some (is_terminal_kind s.kind)) ∷ stage_inputs stages

-- `getStateMachine` on the field `stateMachine`.
abbrev pub machine_input : ServiceConfig → Option StateMachineConfig → StateMachineConfigInput
machine_input config none = record {
  stages = none;
  transitions = none;
  active_states = some config.tracker.active_states;
  terminal_states = some config.tracker.terminal_states;
}
machine_input config (some sm) = record {
  stages = some (stage_inputs sm.stages);
  transitions = some sm.transitions;
  active_states = some config.tracker.active_states;
  terminal_states = some config.tracker.terminal_states;
}

unfoldable pub get_state_machine : ServiceConfig → StateMachine
get_state_machine config = new_state_machine (machine_input config config.state_machine)

unfoldable pub is_terminal_state : Text → ServiceConfig → Bool
unfolding get_state_machine
is_terminal_state state config = Machine.is_terminal_state (get_state_machine config) state

-- The loop of `getStageSets` that fills the set of the kinds with `wanted`.
unfoldable pub stage_set_from :
    (StateStageKind → Bool) → List Text → List StateStageConfig → List Text
stage_set_from wanted set [] = set
stage_set_from wanted set (s ∷ stages) =
    stage_set_from wanted (if wanted s.kind then add set (normalize_state s.name) else set) stages

unfoldable pub is_active_in : ServiceConfig → Option StateMachineConfig → Text → Bool
unfolding normalize_state_list stage_set_from
is_active_in config none state =
    includes (normalize_state_list config.tracker.active_states) (normalize_state state)
is_active_in config (some sm) state =
    includes (stage_set_from is_active_or_todo_kind [] sm.stages) (normalize_state state)

unfoldable pub is_active_state : Text → ServiceConfig → Bool
unfolding is_active_in
is_active_state state config = is_active_in config config.state_machine state

unfoldable pub is_gate_in : Option StateMachineConfig → Text → Bool
unfolding stage_set_from
is_gate_in none state = false
is_gate_in (some sm) state =
    includes (stage_set_from is_gate_kind [] sm.stages) (normalize_state state)

unfoldable pub is_gate_state : Text → ServiceConfig → Bool
unfolding is_gate_in
is_gate_state state config = is_gate_in config.state_machine state

unfoldable pub is_todo_in : Option StateMachineConfig → Text → Bool
unfolding stage_set_from
is_todo_in none state = normalize_state state == codes "todo"
is_todo_in (some sm) state =
    includes (stage_set_from is_todo_kind [] sm.stages) (normalize_state state)

unfoldable pub is_todo_state : Text → Option ServiceConfig → Bool
unfolding is_todo_in
is_todo_state state none = is_todo_in none state
is_todo_state state (some config) = is_todo_in config.state_machine state

unfoldable pub normalize_state_key : Text → Text
normalize_state_key state = normalize_state state

pub record WorkflowStageDefinition : Type 0 where
  pub key : Text
  pub label : Text
  pub kind : StateStageKind
  pub terminal : Bool

abbrev pub definition_keys : List WorkflowStageDefinition → List Text
definition_keys [] = []
definition_keys (s ∷ stages) = s.key ∷ definition_keys stages

-- `seen` holds the keys of `stages`.
unfoldable pub append_stage :
    List WorkflowStageDefinition → WorkflowStageDefinition → List WorkflowStageDefinition
append_stage stages stage =
    if is_empty stage.key || includes (definition_keys stages) stage.key
    then stages
    else stages ++ stage ∷ []

unfoldable pub append_stages :
    List WorkflowStageDefinition → List WorkflowStageDefinition → List WorkflowStageDefinition
unfolding append_stage
append_stages stages [] = stages
append_stages stages (stage ∷ more) = append_stages (append_stage stages stage) more

abbrev pub stage_definitions : List StateStageConfig → List WorkflowStageDefinition
stage_definitions [] = []
stage_definitions (s ∷ stages) =
    record {
      key = normalize_state s.name;
      label = s.name;
      kind = s.kind;
      terminal = is_terminal_kind s.kind;
    }
    ∷ stage_definitions stages

abbrev pub active_kind : Text → StateStageKind
active_kind key =
    if key == codes "backlog" then backlog else if key == codes "todo" then todo else active

abbrev pub active_definitions : List Text → List WorkflowStageDefinition
active_definitions [] = []
active_definitions (state ∷ states) =
    record {
      key = normalize_state state;
      label = state;
      kind = active_kind (normalize_state state);
      terminal = false;
    }
    ∷ active_definitions states

abbrev pub terminal_definitions : List Text → List WorkflowStageDefinition
terminal_definitions [] = []
terminal_definitions (label ∷ labels) =
    record { key = normalize_state label; label = label; kind = terminal; terminal = true }
    ∷ terminal_definitions labels

abbrev pub has_stages : Option StateMachineConfig → List StateStageConfig
has_stages none = []
has_stages (some sm) = sm.stages

unfoldable pub list_from : ServiceConfig → List StateStageConfig → List WorkflowStageDefinition
unfolding append_stages
list_from config (s ∷ stages) = append_stages [] (stage_definitions (s ∷ stages))
list_from config [] =
    append_stages (append_stages [] (active_definitions config.tracker.active_states))
      (terminal_definitions config.tracker.terminal_states)

unfoldable pub list_workflow_stages : ServiceConfig → List WorkflowStageDefinition
unfolding list_from
list_workflow_stages config = list_from config (has_stages config.state_machine)
