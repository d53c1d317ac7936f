-- ===== src/State/Policy/Laws.antt =====
-- What the predicates of src/state/policy.ts answer, in terms of the configured names alone.
use risoluto.Prelude.{
  Bool, true, false, not, ◌&&◌, ◌||◌, ◌≡◌, refl, List, [], ◌∷◌, ◌++◌, none, some, Dict, get, put,
  keys, includes, add, any, Distinct, Text, text_eq, is_empty, if◌then◌else◌, ◌==◌, arith, or_else,
  last_match, first_some, includes-add, get-put, get-none_of_includes,
}
use risoluto.Core.Types.{StateStageKind, StateStageConfig, StateMachineConfig, ServiceConfig}
use risoluto.State.Machine.{
  StateMachineStage, normalize_state, unique_states, default_stages, to_stage_record,
  new_state_machine, dedupe_stages, stage_of, to_stages,
}
use risoluto.State.Machine
use risoluto.State.Machine.Stages.{
  names_key, normalize_state_idem, keys-dedupe_stages-Distinct, unique_states_lem,
}
use risoluto.State.Policy.{
  is_terminal_kind, is_todo_kind, is_gate_kind, is_active_or_todo_kind, stage_inputs,
  is_terminal_state, stage_set_from, is_active_state, is_todo_state, is_gate_state,
}

-- A state is named by a list if its normal form is not empty and that of an entry.
abbrev pub is_named : List Text → Text → Bool
is_named states state =
    not (is_empty (normalize_state state)) && names_key states (normalize_state state)

any-default_stages :
    (t all : List Text) (key : Text)
    → any (λ s. s.key == key && s.terminal) (default_stages t all)
      ≡ (includes all key && includes t key)
unfolding any includes
any-default_stages t [] key = refl
any-default_stages t (k ∷ all) key = ground (arith, any-default_stages t all key)

names_key-append :
    (xs ys : List Text) (key : Text)
    → names_key (xs ++ ys) key ≡ (names_key xs key || names_key ys key)
unfolding any
names_key-append [] ys key = refl
names_key-append (x ∷ xs) ys key = ground (arith, names_key-append xs ys key)

names_key_of_includes :
    (xs : List Text) (s : Text)
    → includes xs (normalize_state s) ≡ true
    → names_key xs (normalize_state s) ≡ true
unfolding any includes
names_key_of_includes [] s h = h
names_key_of_includes (x ∷ xs) s h =
    ground (arith, names_key_of_includes xs s, normalize_state_idem s)

-- Under the tracker's two lists, a state is terminal, or active, exactly when the list of terminal,
-- or of active, states names it, and no state is a gate.
pub tracker_states_lem :
    (state : Text) (config : ServiceConfig)
    → config.state_machine ≡ none
    → (is_terminal_state state config ≡ is_named config.tracker.terminal_states state)
      × (is_active_state state config ≡ is_named config.tracker.active_states state)
      × (is_gate_state state config ≡ false)
unfolding is_terminal_state Machine.is_terminal_state new_state_machine is_active_state
    unique_states is_gate_state
tracker_states_lem state config h =
    let key = normalize_state state in
    let a = unique_states config.tracker.active_states in
    let t = unique_states config.tracker.terminal_states in
    (
      rw h (
          ground (
            arith,
            any-default_stages t (unique_states (a ++ t)) key,
            (unique_states_lem config.tracker.terminal_states).1 key,
            (unique_states_lem (a ++ t)).1 key,
            names_key-append a t key,
            names_key_of_includes t state,
          )),
      rw h ((unique_states_lem config.tracker.active_states).1 key),
      rw h,
    )

includes-stage_set_from :
    (wanted : StateStageKind → Bool) (set : List Text) (stages : List StateStageConfig) (key : Text)
    → includes (stage_set_from wanted set stages) key
      ≡ (includes set key || any (λ s. wanted s.kind && normalize_state s.name == key) stages)
unfolding stage_set_from any
includes-stage_set_from wanted set [] key = ground arith
includes-stage_set_from wanted set (s ∷ stages) key = ground (
  arith,
  includes-stage_set_from wanted (if wanted s.kind then add set (normalize_state s.name) else set)
      stages key,
  includes-add set (normalize_state s.name) key,
)

-- Some configured stage of a wanted kind has the state's name.
abbrev pub has_stage : (StateStageKind → Bool) → List StateStageConfig → Text → Bool
has_stage wanted stages state =
    any (λ s. wanted s.kind && normalize_state s.name == normalize_state state) stages

abbrev kind_entries : List StateStageConfig → List (Text × Bool)
kind_entries [] = []
kind_entries (s ∷ stages) = (normalize_state s.name, is_terminal_kind s.kind) ∷ kind_entries stages

-- Whether the last stage of the state's name is terminal.
abbrev pub last_is_terminal : List StateStageConfig → Text → Bool
last_is_terminal stages state =
    or_else (last_match (kind_entries stages) (normalize_state state)) false

get-dedupe_stages :
    (t : List Text) (m : Dict Text Bool) (stages : List StateStageConfig) (key : Text)
    → get (dedupe_stages t m (stage_inputs stages)) key ≡ (
        if is_empty key
        then get m key
        else first_some (last_match (kind_entries stages) key) (get m key))
unfolding dedupe_stages last_match
get-dedupe_stages t m [] key = ground arith
get-dedupe_stages t m (s ∷ stages) key =
    let name = normalize_state s.name in
    ground (
      arith,
      get-dedupe_stages t (if is_empty name then m else put m name (is_terminal_kind s.kind)) stages
          key,
      get-put m name key (is_terminal_kind s.kind),
    )

any-to_stages :
    (m : Dict Text Bool) (key : Text)
    → Distinct (keys m)
    → any (λ s. s.key == key && s.terminal) (to_stages m) ≡ or_else (get m key) false
unfolding any get
any-to_stages [] key h = refl
any-to_stages ((k, b) ∷ m) key h =
    ground (arith, any-to_stages m key h.1, get-none_of_includes m key)

terminal_of_stages :
    (a t : List Text) (s : StateStageConfig) (rest : List StateStageConfig) (state : Text)
    → any
        (λ x. x.key == normalize_state state && x.terminal)
        (to_stage_record (some (stage_inputs (s ∷ rest))) a t)
      ≡ (not (is_empty (normalize_state state)) && last_is_terminal (s ∷ rest) state)
unfolding to_stage_record get
terminal_of_stages a t s rest state =
    let m = dedupe_stages t [] (stage_inputs (s ∷ rest)) in
    ground (
      arith,
      any-to_stages m (normalize_state state)
          (keys-dedupe_stages-Distinct t [] (stage_inputs (s ∷ rest)) tt),
      get-dedupe_stages t [] (s ∷ rest) (normalize_state state),
    )

-- Under configured stages, a state is terminal exactly when it is not empty and the last stage of
-- its name is terminal; it is active, a gate or a to-do exactly when some stage of its name has a
-- kind for that.
pub staged_states_lem :
    (state : Text) (config : ServiceConfig) (sm : StateMachineConfig) (s : StateStageConfig)
    (rest : List StateStageConfig)
    → config.state_machine ≡ some sm
    → sm.stages ≡ s ∷ rest
    → (is_terminal_state state config
        ≡ (not (is_empty (normalize_state state)) && last_is_terminal sm.stages state))
      × (is_active_state state config ≡ has_stage is_active_or_todo_kind sm.stages state)
      × (is_gate_state state config ≡ has_stage is_gate_kind sm.stages state)
      × (is_todo_state state (some config) ≡ has_stage is_todo_kind sm.stages state)
unfolding is_terminal_state Machine.is_terminal_state new_state_machine is_active_state
    is_gate_state is_todo_state includes
staged_states_lem state config sm s rest h e =
    let key = normalize_state state in
    (
      rw (h, e)
          (terminal_of_stages (unique_states config.tracker.active_states)
            (unique_states config.tracker.terminal_states) s rest state),
      rw h (includes-stage_set_from is_active_or_todo_kind [] sm.stages key),
      rw h (includes-stage_set_from is_gate_kind [] sm.stages key),
      rw h (includes-stage_set_from is_todo_kind [] sm.stages key),
    )

has_stage_mono :
    (p q : StateStageKind → Bool) (stages : List StateStageConfig) (state : Text)
    → ((k : StateStageKind) → p k ≡ true → q k ≡ true)
    → has_stage p stages state ≡ true
    → has_stage q stages state ≡ true
unfolding any
has_stage_mono p q [] state imp h = h
has_stage_mono p q (s ∷ stages) state imp h =
    ground (arith, has_stage_mono p q stages state imp, imp s.kind)

-- A to-do of configured stages is active.
pub is_todo_state-is_active :
    (state : Text) (config : ServiceConfig) (sm : StateMachineConfig)
    → config.state_machine ≡ some sm
    → is_todo_state state (some config) ≡ true
    → is_active_state state config ≡ true
unfolding is_todo_state is_active_state includes
is_todo_state-is_active state config sm h t =
    let key = normalize_state state in
    rw (h, includes-stage_set_from is_active_or_todo_kind [] sm.stages key)
      (has_stage_mono is_todo_kind is_active_or_todo_kind sm.stages state (λ k e. ground arith)
        (ground (arith, includes-stage_set_from is_todo_kind [] sm.stages key)))
