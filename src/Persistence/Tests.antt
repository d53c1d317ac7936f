-- ===== src/Persistence/Tests.antt =====
-- The mappers and the store of attempts on tables that are lists.
use risoluto.Prelude.{
  ℕ, ◌+◌, Bool, false, ◌≡◌, ◌≢◌, refl, List, [], ◌∷◌, ◌++◌, Option, none, some, Text, text_eq,
  Text-discrete, nat_eq, Eq, codes, if◌then◌else◌, ◌==◌, ==_iff, Bool-cases, inl, inr, sym,
  first_some, keep, length, arith,
}
use risoluto.Core.Types.{default}
use risoluto.Orchestrator.Runtime.{AttemptRecord, AttemptStatus, running}
use risoluto.Persistence.Mappers.{
  AttemptRow, row_to_attempt_record, attempt_record_to_row, AttemptEvent, row_to_attempt_event,
  attempt_event_to_row, Checkpoint, CheckpointRow, CheckpointTrigger, attempt_created,
  to_attempt_checkpoint_record, from_attempt_checkpoint_record,
}
use risoluto.Persistence.Mappers.Laws.{mappers_roundtrip}
use risoluto.Persistence.AttemptStore.{
  AttemptTable, CheckpointTable, last_of, get_attempt, create_attempt, update_attempt,
  append_checkpoint,
}
use risoluto.Persistence.AttemptStore.Laws.{attempt_store_lem}
use risoluto.Persistence.AttemptStore.History.{IsHistory, append_checkpoint-IsHistory}

abbrev attempt : AttemptRecord
attempt = record {
  attempt_id = codes "a1";
  issue_id = codes "i1";
  issue_identifier = codes "ENG-1";
  title = codes "t";
  workspace_key = none;
  workspace_path = none;
  status = running;
  attempt_number = some 1;
  started_at = codes "s";
  ended_at = none;
  model = codes "gpt-5.4";
  reasoning_effort = none;
  model_source = default;
  thread_id = none;
  turn_id = none;
  turn_count = 0;
  error_code = none;
  error_message = none;
  token_usage = some (record { input_tokens = 1; output_tokens = 2; total_tokens = 3 });
  pull_request_url = none;
  stop_signal = none;
  summary = none;
}

-- Metadata that is one number, written as that code unit.
abbrev write : ℕ → Text
write m = m ∷ []

abbrev read : Text → ℕ
read [] = 0
read (c ∷ cs) = c

abbrev event : AttemptEvent ℕ
event = record {
  attempt_id = codes "a1";
  at = codes "s";
  issue_id = none;
  issue_identifier = none;
  session_id = none;
  event = codes "e";
  message = codes "m";
  content = none;
  usage = none;
  rate_limits = some 9;
  metadata = some 7;
}

abbrev checkpoint : Checkpoint ℕ
checkpoint = record {
  attempt_id = codes "a1";
  trigger = attempt_created;
  event_cursor = none;
  status = running;
  thread_id = none;
  turn_id = none;
  turn_count = 0;
  token_usage = none;
  metadata = some 7;
  created_at = codes "s";
}

write-ne : (m : ℕ) → write m ≢ []
write-ne m h = cc

mappers_roundtrip_example :
    (row_to_attempt_record (attempt_record_to_row attempt) ≡ attempt)
    × (row_to_attempt_event write read (attempt_event_to_row write read event)
        ≡ record event { rate_limits = none })
    × (to_attempt_checkpoint_record write read (record {
      checkpoint_id = 5;
      inserted = from_attempt_checkpoint_record write read checkpoint 2;
    })
        ≡ record { checkpoint_id = 5; ordinal = 2; checkpoint = checkpoint })
mappers_roundtrip_example =
    mappers_roundtrip write read (λ m. refl) write-ne attempt event checkpoint 5 2

select : List AttemptRow → Text → Option AttemptRow
select [] id = none
select (row ∷ rows) id = if row.attempt_id == id then some row else select rows id

replace : List AttemptRow → Text → AttemptRow → List AttemptRow
replace [] key row = []
replace (r ∷ rows) key row = (if r.attempt_id == key then row else r) ∷ replace rows key row

select_key :
    (t : List AttemptRow) (id : Text) (row : AttemptRow)
    → select t id ≡ some row
    → row.attempt_id ≡ id
unfolding select
select_key [] id row h = ground arith
select_key (r ∷ t) id row h = ground (arith, select_key t id row, ==_iff r.attempt_id id)

select-insert :
    (t : List AttemptRow) (row : AttemptRow) (id : Text)
    → select (t ++ row ∷ []) id
      ≡ first_some (select t id) (if row.attempt_id == id then some row else none)
unfolding select
select-insert [] row id = ground arith
select-insert (r ∷ t) row id = ground (arith, select-insert t row id)

select-replace :
    (t : List AttemptRow) (key : Text) (row : AttemptRow) (id : Text)
    → row.attempt_id ≡ key
    → (key == id) ≡ false
    → select (replace t key row) id ≡ select t id
unfolding select replace
select-replace [] key row id h e = refl
select-replace (r ∷ t) key row id h e =
    ground (arith, select-replace t key row id, ==_iff r.attempt_id key)

select-replace_self :
    (t : List AttemptRow) (key : Text) (row old : AttemptRow)
    → select t key ≡ some old
    → row.attempt_id ≡ key
    → select (replace t key row) key ≡ some row
unfolding select replace
select-replace_self [] key row old h e = ground arith
select-replace_self (r ∷ t) key row old h e =
    ground (arith, select-replace_self t key row old, ==_iff row.attempt_id key)

select-update :
    (t : List AttemptRow) (key : Text) (row old : AttemptRow) (id : Text)
    → select t key ≡ some old
    → row.attempt_id ≡ key
    → select (replace t key row) id ≡ (if key == id then some row else select t id)
select-update t key row old id h e = elim (Bool-cases (key == id)) [
  | inl same ↦ rw same (rw (sym ((==_iff key id).0 same)) (select-replace_self t key row old h e))
  | inr other ↦ rw other (select-replace t key row id e other)
]

abbrev attempts : AttemptTable
attempts = record {
  T = List AttemptRow;
  select = select;
  insert = λ t row. t ++ row ∷ [];
  update = replace;
  select_key = select_key;
  select-insert = select-insert;
  select-update = select-update;
}

-- A table that has the attempt.
abbrev one : List AttemptRow
one = attempt_record_to_row attempt ∷ []

attempt_store_lem_example :
    ((r : AttemptRecord) (id : Text)
      → get_attempt attempts (create_attempt attempts one r) id
        ≡ first_some (get_attempt attempts one id) (if r.attempt_id == id then some r else none))
    × ((key : Text) (patch : AttemptRecord → AttemptRecord)
        → get_attempt attempts one key ≡ none
        → update_attempt attempts one key patch ≡ none)
    × ((key : Text) (patch : AttemptRecord → AttemptRecord) (current : AttemptRecord)
        → get_attempt attempts one key ≡ some current
        → (patch current).attempt_id ≡ current.attempt_id
        → (t' : List AttemptRow) × (update_attempt attempts one key patch ≡ some t')
          × ((id : Text)
              → get_attempt attempts t' id
                ≡ (if key == id then some (patch current) else get_attempt attempts one id)))
attempt_store_lem_example = attempt_store_lem attempts one

rows_of : List CheckpointRow → Text → List CheckpointRow
rows_of t id = keep (λ r. r.inserted.attempt_id == id) t

keep-append_one :
    (p : CheckpointRow → Bool) (t : List CheckpointRow) (r : CheckpointRow)
    → keep p (t ++ r ∷ []) ≡ (if p r then keep p t ++ r ∷ [] else keep p t)
unfolding keep
keep-append_one p [] r = refl
keep-append_one p (q ∷ t) r = ground (arith, keep-append_one p t r)

abbrev checkpoints : CheckpointTable
checkpoints = record {
  T = List CheckpointRow;
  rows = rows_of;
  latest = λ t id. last_of (rows_of t id);
  insert = λ t row. t ++ (record { checkpoint_id = length t + 1; inserted = row }) ∷ [];
  next_id = λ t. length t + 1;
  latest_lem = λ t id. refl;
  rows-insert = λ t row id below.
      unfold rows_of in
      keep-append_one (λ r. r.inserted.attempt_id == id) t
        (record { checkpoint_id = length t + 1; inserted = row });
}

AttemptStatus-discrete : Discrete AttemptStatus
AttemptStatus-discrete = hlevel

CheckpointTrigger-discrete : Discrete CheckpointTrigger
CheckpointTrigger-discrete = hlevel

OptionText-discrete : Discrete (Option Text)
OptionText-discrete = hlevel (Text-discrete)

instance abbrev status_eq : Eq AttemptStatus
status_eq = record { dec_eq = AttemptStatus-discrete }

instance abbrev trigger_eq : Eq CheckpointTrigger
trigger_eq = record { dec_eq = CheckpointTrigger-discrete }

instance abbrev option_text_eq : Eq (Option Text)
option_text_eq = record { dec_eq = OptionText-discrete }

nothing-IsHistory : (id : Text) → IsHistory (rows_of [] id)
unfolding rows_of keep
nothing-IsHistory id = (tt, tt)

append_checkpoint-IsHistory_example :
    IsHistory (rows_of (append_checkpoint write read checkpoints [] checkpoint) (codes "a1"))
append_checkpoint-IsHistory_example =
    append_checkpoint-IsHistory write read checkpoints [] checkpoint nothing-IsHistory (codes "a1")
