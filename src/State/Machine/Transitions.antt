-- ===== src/State/Machine/Transitions.antt =====
-- Which moves a state machine allows, against a description that does not build the map.
use risoluto.Prelude.{
  Bool, true, ◌&&◌, ◌||◌, ◌≡◌, ◌↔◌, ◌⊎◌, inl, inr, refl, List, [], ◌∷◌, Option, none, some, Dict,
  get, includes, any, Distinct, Text, text_eq, if◌then◌else◌, ◌==◌, arith, or_else, add, add_all,
  get-fill, includes-add, includes-add_all, put_all, get-put_all, last_match,
}
use risoluto.State.Machine.{
  StateMachineStage, StateMachineConfigInput, StateMachine, ok, normalize_state, unique_states,
  stage_keys, default_active_states, default_terminal_states, to_stage_record, normalize_entries,
  add_targets, explicit_allowed, build_explicit_transitions, default_allowed,
  build_default_transitions, build_transition_map, new_state_machine, is_known_state,
  is_terminal_state, allows, can_transition, assert_transition,
}
use risoluto.State.Machine.Stages.{
  normalize_state_idem, get-terminal_entries, stage_keys-to_stage_record-Distinct,
}

-- The targets that the last entry for a state lists, if one does.
abbrev pub listed_targets : Dict Text (List Text) → Text → List Text
listed_targets explicit from =
    or_else (last_match (normalize_entries explicit) (normalize_state from)) []

-- The target is among them, up to case and surrounding space.
abbrev pub is_listed : Dict Text (List Text) → Text → Text → Bool
is_listed explicit from to =
    any (λ raw. normalize_state raw == normalize_state to) (listed_targets explicit from)

includes-add_targets :
    (known allowed targets : List Text) (to : Text)
    → includes (add_targets known allowed targets) to ≡ (
        includes allowed to
        || (includes known to && any (λ raw. normalize_state raw == to) targets))
unfolding add_targets any
includes-add_targets known allowed [] to = ground arith
includes-add_targets known allowed (raw ∷ targets) to = ground (
  arith,
  includes-add_targets known
      (if includes known (normalize_state raw) then add allowed (normalize_state raw) else allowed)
      targets to,
  includes-add allowed (normalize_state raw) to,
)

includes-explicit_allowed :
    (known : List Text) (explicit : Dict Text (List Text)) (from to : Text)
    → includes
        (explicit_allowed known (put_all [] (normalize_entries explicit)) (normalize_state from))
        (normalize_state to)
      ≡ (normalize_state from == normalize_state to
          || (includes known (normalize_state to) && is_listed explicit from to))
unfolding explicit_allowed includes get
includes-explicit_allowed known explicit from to =
    rw (get-put_all [] (normalize_entries explicit) (normalize_state from)) (
      ground (
        arith,
        includes-add_targets known (add [] (normalize_state from)) (listed_targets explicit from)
            (normalize_state to),
        includes-add [] (normalize_state from) (normalize_state to),
      ))

abbrev stages_of : StateMachineConfigInput → List StateMachineStage
stages_of config =
    to_stage_record config.stages
      (unique_states (or_else config.active_states default_active_states))
      (unique_states (or_else config.terminal_states default_terminal_states))

allows-build_explicit_transitions :
    (known : List Text) (explicit : Dict Text (List Text)) (from to : Text)
    → allows
        (get (build_explicit_transitions known explicit) (normalize_state from))
        (normalize_state to)
      ≡ (includes known (normalize_state from)
          && (normalize_state from == normalize_state to
              || (includes known (normalize_state to) && is_listed explicit from to)))
unfolding build_explicit_transitions get
allows-build_explicit_transitions known explicit from to = ground (
  arith,
  get-fill (explicit_allowed known (put_all [] (normalize_entries explicit))) [] known
      (normalize_state from),
  includes-explicit_allowed known explicit from to,
)

includes-default_allowed :
    (stages : List StateMachineStage) (from to : Text)
    → Distinct (stage_keys stages)
    → includes (default_allowed stages from) to ≡ (
        if any (λ s. s.key == from && s.terminal) stages
        then from == to
        else includes (stage_keys stages) to)
unfolding default_allowed includes
includes-default_allowed stages from to h = ground (
  arith,
  get-terminal_entries stages from h,
  includes-add [] from to,
  includes-add_all [] (stage_keys stages) to,
)

allows-build_default_transitions :
    (stages : List StateMachineStage) (from to : Text)
    → Distinct (stage_keys stages)
    → allows (get (build_default_transitions stages) from) to ≡ (
        includes (stage_keys stages) from
        && (if any (λ s. s.key == from && s.terminal) stages
            then from == to
            else includes (stage_keys stages) to))
unfolding build_default_transitions get
allows-build_default_transitions stages from to h = ground (
  arith,
  get-fill (default_allowed stages) [] (stage_keys stages) from,
  includes-default_allowed stages from to h,
)

-- With transitions configured, a move is allowed exactly when it starts at a known state and either
-- stays there or goes to a known state that the configuration lists for it.
pub can_transition-explicit :
    (config : StateMachineConfigInput) (entry : Text × List Text) (rest : Dict Text (List Text))
    (from to : Text)
    → config.transitions ≡ some (entry ∷ rest)
    → let m = new_state_machine config in
      can_transition m from to ≡ (
        is_known_state m from
        && (normalize_state from == normalize_state to
            || (is_known_state m to && is_listed (entry ∷ rest) from to)))
unfolding new_state_machine build_transition_map can_transition is_known_state
can_transition-explicit config entry rest from to h =
    let known = add_all [] (stage_keys (stages_of config)) in
    rw (h, build_transition_map) (allows-build_explicit_transitions known (entry ∷ rest) from to)

abbrev NoTransitions : Option (Dict Text (List Text)) → Type 0
NoTransitions o = (o ≡ none) ⊎ (o ≡ some [])

default_map :
    (stages : List StateMachineStage) (o : Option (Dict Text (List Text)))
    → NoTransitions o
    → build_transition_map stages o ≡ build_default_transitions stages
unfolding build_transition_map
default_map stages none h = refl
default_map stages (some []) h = refl
default_map stages (some (e ∷ es)) h = ground arith

-- Without configured transitions, a terminal state is left for no other, and any other known state
-- for every known one.
pub can_transition-default :
    (config : StateMachineConfigInput) (from to : Text)
    → NoTransitions config.transitions
    → let m = new_state_machine config in
      can_transition m from to ≡ (
        is_known_state m from
        && (if is_terminal_state m from
            then normalize_state from == normalize_state to
            else is_known_state m to))
unfolding new_state_machine can_transition is_known_state is_terminal_state includes
can_transition-default config from to h =
    let stages = stages_of config in
    rw (default_map stages config.transitions h) (
      ground (
        arith,
        allows-build_default_transitions stages (normalize_state from) (normalize_state to) (
            stage_keys-to_stage_record-Distinct config.stages
              (unique_states (or_else config.active_states default_active_states))
              (unique_states (or_else config.terminal_states default_terminal_states))),
        includes-add_all [] (stage_keys stages) (normalize_state from),
        includes-add_all [] (stage_keys stages) (normalize_state to),
      ))

Transitions-cases :
    (o : Option (Dict Text (List Text)))
    → NoTransitions o
      ⊎ ((entry : Text × List Text) × (rest : Dict Text (List Text)) × (o ≡ some (entry ∷ rest)))
Transitions-cases none = inl (inl refl)
Transitions-cases (some []) = inl (inr refl)
Transitions-cases (some (entry ∷ rest)) = inr (entry, rest, refl)

-- Every allowed move is between known states.
pub can_transition-is_known :
    (config : StateMachineConfigInput) (from to : Text)
    → let m = new_state_machine config in
      can_transition m from to ≡ true
      → (is_known_state m from ≡ true) × (is_known_state m to ≡ true)
unfolding is_known_state
can_transition-is_known config from to h = elim (Transitions-cases config.transitions) [
  | inl free ↦ ground (arith, can_transition-default config from to free)
  | inr (entry, rest, e) ↦ ground (arith, can_transition-explicit config entry rest from to e)
]

-- A known state can always be kept.
pub can_transition_self :
    (config : StateMachineConfigInput) (state : Text)
    → let m = new_state_machine config in
      is_known_state m state ≡ true → can_transition m state state ≡ true
can_transition_self config state h = elim (Transitions-cases config.transitions) [
  | inl free ↦ ground (arith, can_transition-default config state state free)
  | inr (entry, rest, e) ↦ ground (arith, can_transition-explicit config entry rest state state e)
]

-- `assertTransition` accepts exactly the moves that `canTransition` allows.
pub assert_transition-ok_iff :
    (config : StateMachineConfigInput) (from to : Text)
    → let m = new_state_machine config in
      (assert_transition m from to ≡ ok) ↔ (can_transition m from to ≡ true)
unfolding assert_transition
assert_transition-ok_iff config from to = ground (arith, can_transition-is_known config from to)

-- States are compared up to surrounding space and letter case.
pub can_transition-normalize_state :
    (m : StateMachine) (from to : Text)
    → (can_transition m (normalize_state from) (normalize_state to) ≡ can_transition m from to)
      × (is_known_state m (normalize_state from) ≡ is_known_state m from)
      × (is_terminal_state m (normalize_state from) ≡ is_terminal_state m from)
unfolding can_transition is_known_state is_terminal_state
can_transition-normalize_state m from to = (
  rw (normalize_state_idem from, normalize_state_idem to),
  rw (normalize_state_idem from),
  rw (normalize_state_idem from),
)
