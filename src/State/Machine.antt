-- ===== src/State/Machine.antt =====
-- src/state/machine.ts and src/state/defaults.ts: the workflow state machine.
pub mod Stages
pub mod Transitions
use risoluto.Prelude.{
  Bool, false, not, ◌&&◌, ◌||◌, List, [], ◌∷◌, ◌++◌, Option, none, some, Dict, get, put, put_all,
  fill, includes, add, add_all, any, Text, text_eq, codes, is_empty, trim, to_lower_case, or_else,
  if◌then◌else◌, ◌==◌,
}

abbrev pub default_active_states : List Text
default_active_states = codes "Backlog" ∷ codes "Todo" ∷ codes "In Progress" ∷ []

abbrev pub default_terminal_states : List Text
default_terminal_states = codes "Done" ∷ codes "Canceled" ∷ []

pub record StateMachineStage : Type 0 where
  pub key : Text
  pub terminal : Bool

-- `string | { key: string; terminal?: boolean }`
pub data StageInput : Type 0 where
  named : Text → StageInput
  staged : Text → Option Bool → StageInput

pub record StateMachineConfigInput : Type 0 where
  pub stages : Option (List StageInput)
  pub transitions : Option (Dict Text (List Text))
  pub active_states : Option (List Text)
  pub terminal_states : Option (List Text)

unfoldable pub normalize_state : Text → Text
normalize_state value = to_lower_case (trim value)

-- One round of the loop of `uniqueStates`; `seen` holds what `normalized` holds.
unfoldable pub unique_step : List Text → Text → List Text
unique_step normalized next =
    if is_empty next || includes normalized next then normalized else normalized ++ next ∷ []

unfoldable pub unique_from : List Text → List Text → List Text
unique_from normalized [] = normalized
unique_from normalized (state ∷ states) =
    unique_from (unique_step normalized (normalize_state state)) states

unfoldable pub unique_states : List Text → List Text
unfolding unique_from unique_step
unique_states states = unique_from [] states

-- The key of a stage, and whether it is terminal, `null` where the entry is skipped.
unfoldable pub stage_of : List Text → StageInput → Text × Bool
stage_of terminal_states (named entry) =
    let key = normalize_state entry in (key, includes terminal_states key)
stage_of terminal_states (staged key terminal) = (normalize_state key, or_else terminal false)

-- The loop over the configured stages; the map's values are the stages, its keys their keys.
unfoldable pub dedupe_stages : List Text → Dict Text Bool → List StageInput → Dict Text Bool
unfolding stage_of
dedupe_stages terminal_states deduped [] = deduped
dedupe_stages terminal_states deduped (entry ∷ entries) =
    let (key, terminal) = stage_of terminal_states entry in
    dedupe_stages terminal_states (if is_empty key then deduped else put deduped key terminal)
      entries

abbrev pub to_stages : Dict Text Bool → List StateMachineStage
to_stages [] = []
to_stages ((key, terminal) ∷ m) = record { key = key; terminal = terminal } ∷ to_stages m

abbrev pub stage_keys : List StateMachineStage → List Text
stage_keys [] = []
stage_keys (s ∷ stages) = s.key ∷ stage_keys stages

abbrev pub default_stages : List Text → List Text → List StateMachineStage
default_stages terminal_states [] = []
default_stages terminal_states (key ∷ all) =
    record { key = key; terminal = includes terminal_states key }
    ∷ default_stages terminal_states all

unfoldable pub to_stage_record :
    Option (List StageInput) → List Text → List Text → List StateMachineStage
unfolding dedupe_stages unique_states
to_stage_record (some (entry ∷ input)) active_states terminal_states =
    to_stages (dedupe_stages terminal_states [] (entry ∷ input))
to_stage_record _ active_states terminal_states =
    default_stages terminal_states (unique_states (active_states ++ terminal_states))

-- `new Map(Object.entries(explicit).map(([from, targets]) => [normalizeState(from), targets]))`
unfoldable pub normalize_entries : Dict Text (List Text) → List (Text × List Text)
normalize_entries [] = []
normalize_entries ((from, targets) ∷ entries) =
    (normalize_state from, targets) ∷ normalize_entries entries

unfoldable pub add_targets : List Text → List Text → List Text → List Text
add_targets known allowed [] = allowed
add_targets known allowed (raw ∷ targets) =
    let target = normalize_state raw in
    add_targets known (if includes known target then add allowed target else allowed) targets

unfoldable pub explicit_allowed : List Text → Dict Text (List Text) → Text → List Text
unfolding add_targets
explicit_allowed known normalized from =
    add_targets known (add [] from) (or_else (get normalized from) [])

unfoldable pub build_explicit_transitions :
    List Text → Dict Text (List Text) → Dict Text (List Text)
unfolding explicit_allowed normalize_entries
build_explicit_transitions known explicit =
    fill (explicit_allowed known (put_all [] (normalize_entries explicit))) [] known

abbrev pub terminal_entries : List StateMachineStage → List (Text × Bool)
terminal_entries [] = []
terminal_entries (s ∷ stages) = (s.key, s.terminal) ∷ terminal_entries stages

unfoldable pub default_allowed : List StateMachineStage → Text → List Text
default_allowed stages from =
    if or_else (get (put_all [] (terminal_entries stages)) from) false
    then add [] from
    else add_all [] (stage_keys stages)

unfoldable pub build_default_transitions : List StateMachineStage → Dict Text (List Text)
unfolding default_allowed
build_default_transitions stages = fill (default_allowed stages) [] (stage_keys stages)

unfoldable pub build_transition_map :
    List StateMachineStage → Option (Dict Text (List Text)) → Dict Text (List Text)
unfolding build_explicit_transitions build_default_transitions
build_transition_map stages (some (entry ∷ explicit)) =
    build_explicit_transitions (add_all [] (stage_keys stages)) (entry ∷ explicit)
build_transition_map stages _ = build_default_transitions stages

pub record StateMachine : Type 0 where
  pub stages : List StateMachineStage
  pub stage_set : List Text
  pub transition_map : Dict Text (List Text)

unfoldable pub new_state_machine : StateMachineConfigInput → StateMachine
unfolding to_stage_record build_transition_map unique_states
new_state_machine config =
    let active_states = unique_states (or_else config.active_states default_active_states) in
    let terminal_states = unique_states (or_else config.terminal_states default_terminal_states) in
    let stages = to_stage_record config.stages active_states terminal_states in
    record {
      stages = stages;
      stage_set = add_all [] (stage_keys stages);
      transition_map = build_transition_map stages config.transitions;
    }

unfoldable pub is_known_state : StateMachine → Text → Bool
is_known_state m state = includes m.stage_set (normalize_state state)

unfoldable pub is_terminal_state : StateMachine → Text → Bool
is_terminal_state m state =
    let normalized = normalize_state state in any (λ s. s.key == normalized && s.terminal) m.stages

-- `allowed?.has(to) ?? false`
abbrev pub allows : Option (List Text) → Text → Bool
allows none to = false
allows (some allowed) to = includes allowed to

unfoldable pub can_transition : StateMachine → Text → Text → Bool
can_transition m from to = allows (get m.transition_map (normalize_state from)) (normalize_state to)

pub data TransitionCheck : Type 0 where
  ok : TransitionCheck
  refused : Text → TransitionCheck

unfoldable pub assert_transition : StateMachine → Text → Text → TransitionCheck
unfolding is_known_state can_transition
assert_transition m from to =
    if not (is_known_state m from)
    then refused (codes "unknown source state: " ++ from)
    else if not (is_known_state m to)
    then refused (codes "unknown target state: " ++ to)
    else if not (can_transition m from to)
    then refused (
        codes "invalid transition: "
        ++ (normalize_state from ++ (codes " -> " ++ normalize_state to)))
    else ok

unfoldable pub default_state_machine : StateMachine
unfolding new_state_machine
default_state_machine =
    new_state_machine
      (record { stages = none; transitions = none; active_states = none; terminal_states = none })
