-- ===== src/State/Machine/Stages.antt =====
-- The stages of a state machine: which states are known, and that no key is there twice.
use risoluto.Prelude.{
  ℕ, Text-discrete, Bool, false, not, ◌&&◌, ◌||◌, ◌≡◌, refl, List, [], ◌∷◌, ◌++◌, Option, none,
  some, Dict, get, put, keys, includes, any, Distinct, Text, text_eq, is_empty, if◌then◌else◌, ◌==◌,
  arith, or_else, append-Distinct, includes-append, keys-put-Distinct, put_all, get-put_all,
  last_match,
}
use risoluto.Prelude.Strings.Trim.{trim-to_lower_case, trim_idem, to_lower_case_idem}
use risoluto.State.Machine.{
  StateMachineStage, StageInput, normalize_state, unique_step, unique_from, unique_states, stage_of,
  dedupe_stages, to_stages, stage_keys, default_stages, to_stage_record, terminal_entries,
}

pub normalize_state_idem : (s : Text) → normalize_state (normalize_state s) ≡ normalize_state s
unfolding normalize_state
normalize_state_idem s = simp (trim-to_lower_case, trim_idem, to_lower_case_idem)

-- Some state of the list has this key.
abbrev pub names_key : List Text → Text → Bool
names_key states key = any (λ s. normalize_state s == key) states

pub unique_step-Distinct :
    (acc : List Text) (s : Text) → Distinct acc → Distinct (unique_step acc s)
unfolding unique_step
unique_step-Distinct acc s h = ground (arith, append-Distinct acc s h)

unique_from-Distinct : (acc states : List Text) → Distinct acc → Distinct (unique_from acc states)
unfolding unique_from
unique_from-Distinct acc [] h = h
unique_from-Distinct acc (s ∷ states) h =
    unique_from-Distinct (unique_step acc (normalize_state s)) states
      (unique_step-Distinct acc (normalize_state s) h)

nil==cons : (key : Text) → not (is_empty key) && [] == key ≡ false
unfolding Text-discrete
nil==cons [] = refl
nil==cons (c ∷ s) = refl

cons==nil : (c : ℕ) (s key : Text) → (c ∷ s) == key ≡ (not (is_empty key) && (c ∷ s) == key)
unfolding Text-discrete
cons==nil c s [] = refl
cons==nil c s (d ∷ t) = refl

pub includes-unique_step :
    (acc : List Text) (s key : Text)
    → includes (unique_step acc s) key ≡ (includes acc key || (not (is_empty key) && s == key))
unfolding unique_step includes
includes-unique_step acc [] key = ground (arith, nil==cons key)
includes-unique_step acc (c ∷ s) key =
    ground (arith, includes-append acc ((c ∷ s) ∷ []) key, cons==nil c s key)

includes-unique_from :
    (acc states : List Text) (key : Text)
    → includes (unique_from acc states) key
      ≡ (includes acc key || (not (is_empty key) && names_key states key))
unfolding unique_from any
includes-unique_from acc [] key = ground arith
includes-unique_from acc (s ∷ states) key = ground (
  arith,
  includes-unique_from (unique_step acc (normalize_state s)) states key,
  includes-unique_step acc (normalize_state s) key,
)

-- `uniqueStates` lists exactly the non-empty normalized states, each once.
pub unique_states_lem :
    (states : List Text)
    → Distinct (unique_states states)
      × ((key : Text)
          → includes (unique_states states) key ≡ (not (is_empty key) && names_key states key))
unfolding unique_states includes
unique_states_lem states = (unique_from-Distinct [] states tt, includes-unique_from [] states)

pub keys-dedupe_stages-Distinct :
    (terminal_states : List Text) (m : Dict Text Bool) (input : List StageInput)
    → Distinct (keys m)
    → Distinct (keys (dedupe_stages terminal_states m input))
unfolding dedupe_stages
keys-dedupe_stages-Distinct t m [] h = h
keys-dedupe_stages-Distinct t m (entry ∷ input) h =
    let (key, terminal) = stage_of t entry in
    keys-dedupe_stages-Distinct t (if is_empty key then m else put m key terminal) input
      (ground (arith, keys-put-Distinct m key terminal h))

stage_keys-to_stages : (m : Dict Text Bool) → stage_keys (to_stages m) ≡ keys m
stage_keys-to_stages [] = refl
stage_keys-to_stages ((k, t) ∷ m) = ground (arith, stage_keys-to_stages m)

stage_keys-default_stages : (t all : List Text) → stage_keys (default_stages t all) ≡ all
stage_keys-default_stages t [] = refl
stage_keys-default_stages t (k ∷ all) = ground (arith, stage_keys-default_stages t all)

-- The keys of the stages are distinct, whichever way the stages are configured.
pub stage_keys-to_stage_record-Distinct :
    (input : Option (List StageInput)) (active terminal : List Text)
    → Distinct (stage_keys (to_stage_record input active terminal))
unfolding to_stage_record
stage_keys-to_stage_record-Distinct (some (entry ∷ input)) active terminal =
    rw (stage_keys-to_stages (dedupe_stages terminal [] (entry ∷ input)))
      (keys-dedupe_stages-Distinct terminal [] (entry ∷ input) tt)
stage_keys-to_stage_record-Distinct (some []) active terminal =
    rw (stage_keys-default_stages terminal (unique_states (active ++ terminal)))
      (unique_states_lem (active ++ terminal)).0
stage_keys-to_stage_record-Distinct none active terminal =
    rw (stage_keys-default_stages terminal (unique_states (active ++ terminal)))
      (unique_states_lem (active ++ terminal)).0

last_match-none :
    (stages : List StateMachineStage) (key : Text)
    → includes (stage_keys stages) key ≡ false
    → (last_match (terminal_entries stages) key ≡ none)
      × (any (λ s. s.key == key && s.terminal) stages ≡ false)
unfolding last_match includes any
last_match-none [] key h = (refl, refl)
last_match-none (s ∷ stages) key h = ground (arith, last_match-none stages key)

last_match-terminal :
    (stages : List StateMachineStage) (key : Text)
    → Distinct (stage_keys stages)
    → or_else (last_match (terminal_entries stages) key) false
      ≡ any (λ s. s.key == key && s.terminal) stages
unfolding last_match any
last_match-terminal [] key h = refl
last_match-terminal (s ∷ stages) key h =
    ground (arith, last_match-terminal stages key h.1, last_match-none stages key)

-- The map from keys to `terminal` agrees with the search of `isTerminalState`.
pub get-terminal_entries :
    (stages : List StateMachineStage) (key : Text)
    → Distinct (stage_keys stages)
    → or_else (get (put_all [] (terminal_entries stages)) key) false
      ≡ any (λ s. s.key == key && s.terminal) stages
unfolding get
get-terminal_entries stages key h =
    ground (arith, get-put_all [] (terminal_entries stages) key, last_match-terminal stages key h)
