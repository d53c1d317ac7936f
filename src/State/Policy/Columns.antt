-- ===== src/State/Policy/Columns.antt =====
-- The columns of `listWorkflowStages`.
use risoluto.Prelude.{
  not, ◌&&◌, ◌||◌, ◌≡◌, refl, List, [], ◌∷◌, ◌++◌, none, includes, any, Distinct, Text, text_eq,
  is_empty, arith,
}
use risoluto.Core.Types.{StateStageConfig, ServiceConfig}
use risoluto.State.Machine.{
  StateMachineStage, normalize_state, unique_states, default_stages, to_stage_record,
  new_state_machine, dedupe_stages, stage_of, to_stages,
}
use risoluto.State.Machine
use risoluto.State.Machine.Stages.{names_key, unique_step-Distinct, includes-unique_step}
use risoluto.State.Policy.{
  is_terminal_state, is_active_state, WorkflowStageDefinition, definition_keys, append_stage,
  append_stages, stage_definitions, active_definitions, terminal_definitions, has_stages, list_from,
  list_workflow_stages,
}
use risoluto.State.Policy.Laws.{tracker_states_lem}

keys-append :
    (stages : List WorkflowStageDefinition) (s : WorkflowStageDefinition)
    → definition_keys (stages ++ s ∷ []) ≡ definition_keys stages ++ s.key ∷ []
keys-append [] s = refl
keys-append (x ∷ stages) s = ground (arith, keys-append stages s)

append_stage-keys :
    (stages : List WorkflowStageDefinition) (s : WorkflowStageDefinition)
    → definition_keys (append_stage stages s) ≡ Machine.unique_step (definition_keys stages) s.key
unfolding append_stage Machine.unique_step
append_stage-keys stages s = ground (arith, keys-append stages s)

append_stages-Distinct :
    (stages more : List WorkflowStageDefinition)
    → Distinct (definition_keys stages)
    → Distinct (definition_keys (append_stages stages more))
unfolding append_stages
append_stages-Distinct stages [] h = h
append_stages-Distinct stages (s ∷ more) h =
    append_stages-Distinct (append_stage stages s) more
      (rw (append_stage-keys stages s) (unique_step-Distinct (definition_keys stages) s.key h))

includes-append_stages :
    (stages more : List WorkflowStageDefinition) (key : Text)
    → includes (definition_keys (append_stages stages more)) key ≡ (
        includes (definition_keys stages) key
        || (not (is_empty key) && includes (definition_keys more) key))
unfolding append_stages includes
includes-append_stages stages [] key = ground arith
includes-append_stages stages (s ∷ more) key =
    rw
      (
        includes-append_stages (append_stage stages s) more key,
        append_stage-keys stages s,
        includes-unique_step (definition_keys stages) s.key key,
      )
      (ground arith)

from_stages :
    (config : ServiceConfig) (stages : List StateStageConfig)
    → Distinct (definition_keys (list_from config stages))
unfolding list_from
from_stages config [] =
    append_stages-Distinct (append_stages [] (active_definitions config.tracker.active_states))
      (terminal_definitions config.tracker.terminal_states)
      (append_stages-Distinct [] (active_definitions config.tracker.active_states) tt)
from_stages config (s ∷ stages) = append_stages-Distinct [] (stage_definitions (s ∷ stages)) tt

active_keys :
    (states : List Text) (key : Text)
    → includes (definition_keys (active_definitions states)) key ≡ names_key states key
unfolding includes any
active_keys [] key = refl
active_keys (s ∷ states) key = ground (arith, active_keys states key)

terminal_keys :
    (states : List Text) (key : Text)
    → includes (definition_keys (terminal_definitions states)) key ≡ names_key states key
unfolding includes any
terminal_keys [] key = refl
terminal_keys (s ∷ states) key = ground (arith, terminal_keys states key)

-- The columns have distinct keys, however the states are configured.
pub list_workflow_stages-Distinct :
    (config : ServiceConfig) → Distinct (definition_keys (list_workflow_stages config))
unfolding list_workflow_stages
list_workflow_stages-Distinct config = from_stages config (has_stages config.state_machine)

-- Under the tracker's two lists, there is a column for a state exactly when it is active or
-- terminal.
pub list_workflow_stages-covers :
    (state : Text) (config : ServiceConfig)
    → config.state_machine ≡ none
    → includes (definition_keys (list_workflow_stages config)) (normalize_state state)
      ≡ (is_active_state state config || is_terminal_state state config)
unfolding list_workflow_stages list_from includes
list_workflow_stages-covers state config h =
    let a = active_definitions config.tracker.active_states in
    let t = terminal_definitions config.tracker.terminal_states in
    let key = normalize_state state in
    rw h (
      ground (
        arith,
        includes-append_stages (append_stages [] a) t key,
        includes-append_stages [] a key,
        active_keys config.tracker.active_states key,
        terminal_keys config.tracker.terminal_states key,
        tracker_states_lem state config h,
      ))
