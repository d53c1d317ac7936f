-- ===== src/State/Tests.antt =====
-- Tests of src/state at concrete configurations, and its theorems at such inputs.
use risoluto.Prelude.{
  true, false, not, ◌&&◌, ◌||◌, ◌≡◌, refl, inl, [], ◌∷◌, none, some, includes, text_eq,
  Text-discrete, codes, is_empty, if◌then◌else◌, ◌==◌, any, get, fill, add_all, to_lower_case, trim,
  put, add, put_all,
}
use risoluto.Core.Types.{StateMachineConfig, ServiceConfig, todo, active, terminal}
use risoluto.State.Machine.{
  unique_from, StateMachineConfigInput, staged, named, refused, normalize_state, new_state_machine,
  is_known_state, is_terminal_state, can_transition, assert_transition, default_state_machine,
}
use risoluto.State.Machine.Transitions.{is_listed, can_transition-explicit, can_transition-default}
use risoluto.State.Policy.{
  is_active_state, is_gate_state, is_todo_state, definition_keys, list_workflow_stages,
  is_active_or_todo_kind, is_gate_kind, is_todo_kind,
}
use risoluto.State.Policy
use risoluto.State.Policy.Laws.{staged_states_lem, has_stage, last_is_terminal}

abbrev review_machine : StateMachineConfigInput
review_machine = record {
  stages = some (
      named (codes "Todo")
      ∷ staged (codes " Review ") none
      ∷ staged (codes "Done") (some true)
      ∷ []);
  transitions = some ((codes "TODO", codes "review" ∷ codes "Nowhere" ∷ []) ∷ []);
  active_states = none;
  terminal_states = none;
}

abbrev free_machine : StateMachineConfigInput
free_machine = record {
  stages = none;
  transitions = none;
  active_states = some (codes "Todo" ∷ codes "In Progress" ∷ []);
  terminal_states = some (codes "Done" ∷ []);
}

-- Everything that a test computes with.
state : Unit {0}
unfolding new_state_machine is_known_state is_terminal_state can_transition assert_transition
    default_state_machine Text-discrete get fill add_all normalize_state to_lower_case trim put add
    includes put_all any unique_from
state = tt

transitions_test :
    let m = new_state_machine review_machine in
    (can_transition m (codes "todo") (codes "REVIEW") ≡ true)
    × (can_transition m (codes "review") (codes "done") ≡ false)
    × (assert_transition m (codes "todo") (codes "Nowhere")
        ≡ refused (codes "unknown target state: Nowhere"))
    × (assert_transition m (codes "Review") (codes "done")
        ≡ refused (codes "invalid transition: review -> done"))
unfolding state
transitions_test = (refl, refl, refl, refl)

default_test :
    (can_transition default_state_machine (codes "Backlog") (codes "Done") ≡ true)
    × (can_transition default_state_machine (codes "Done") (codes "Todo") ≡ false)
unfolding state
default_test = (refl, refl)

can_transition-explicit_example :
    let m = new_state_machine review_machine in
    can_transition m (codes "Todo") (codes "Review") ≡ (
      is_known_state m (codes "Todo")
      && (normalize_state (codes "Todo") == normalize_state (codes "Review")
          || (is_known_state m (codes "Review")
              && is_listed
                  ((codes "TODO", codes "review" ∷ codes "Nowhere" ∷ []) ∷ [])
                  (codes "Todo")
                  (codes "Review"))))
can_transition-explicit_example =
    can_transition-explicit review_machine (codes "TODO", codes "review" ∷ codes "Nowhere" ∷ []) []
      (codes "Todo") (codes "Review") refl

can_transition-default_example :
    let m = new_state_machine free_machine in
    can_transition m (codes "Done") (codes "Todo") ≡ (
      is_known_state m (codes "Done")
      && (if is_terminal_state m (codes "Done")
          then normalize_state (codes "Done") == normalize_state (codes "Todo")
          else is_known_state m (codes "Todo")))
can_transition-default_example =
    can_transition-default free_machine (codes "Done") (codes "Todo") (inl refl)

abbrev tracker_config : ServiceConfig
tracker_config = record {
  tracker = record {
    active_states = codes "Todo" ∷ codes "In Progress" ∷ [];
    terminal_states = codes "Done" ∷ codes "Canceled" ∷ [];
  };
  agent = record {
    max_concurrent_agents = 2;
    max_concurrent_agents_by_state = [];
    max_retry_backoff_ms = 300000;
    max_continuation_attempts = 5;
    auto_claim = some true;
  };
  codex = record { model = codes "gpt-5.4"; reasoning_effort = none; stall_timeout_ms = 1000 };
  state_machine = none;
}

abbrev staged_machine : StateMachineConfig
staged_machine = record {
  stages =
      record { name = codes "Ready"; kind = todo }
      ∷ record { name = codes "Doing"; kind = active }
      ∷ record { name = codes "Shipped"; kind = terminal }
      ∷ [];
  transitions = [];
}

abbrev staged_config : ServiceConfig
staged_config = record tracker_config { state_machine = some staged_machine }

staged_states_lem_example :
    (Policy.is_terminal_state (codes "SHIPPED") staged_config ≡ (
      not (is_empty (normalize_state (codes "SHIPPED")))
      && last_is_terminal staged_machine.stages (codes "SHIPPED")))
    × (is_active_state (codes "SHIPPED") staged_config
        ≡ has_stage is_active_or_todo_kind staged_machine.stages (codes "SHIPPED"))
    × (is_gate_state (codes "SHIPPED") staged_config
        ≡ has_stage is_gate_kind staged_machine.stages (codes "SHIPPED"))
    × (is_todo_state (codes "SHIPPED") (some staged_config)
        ≡ has_stage is_todo_kind staged_machine.stages (codes "SHIPPED"))
staged_states_lem_example =
    staged_states_lem (codes "SHIPPED") staged_config staged_machine
      (record { name = codes "Ready"; kind = todo })
      (record { name = codes "Doing"; kind = active }
        ∷ record { name = codes "Shipped"; kind = terminal }
        ∷ [])
      refl refl
