-- ===== src/Persistence/AttemptStore.antt =====
-- src/persistence/sqlite/attempt-store-sqlite.ts: the store of attempts and of their checkpoints. The
-- tables are the database's: an interface with what the queries rely on.
pub mod Laws
pub mod History
use risoluto.Prelude.{
  ℕ, ◌+◌, ◌<◌, Bool, true, false, ◌&&◌, ◌≡◌, List, [], ◌∷◌, ◌++◌, Option, none, some, Text, text_eq,
  if◌then◌else◌, ◌==◌, first_some, map, Eq,
}
use risoluto.Orchestrator.Runtime.{AttemptRecord, AttemptStatus}
use risoluto.Persistence.Mappers.{
  AttemptRow, row_to_attempt_record, attempt_record_to_row, CheckpointTrigger, Checkpoint,
  CheckpointRow, CheckpointInsert, from_attempt_checkpoint_record, AttemptCheckpointRecord,
  to_attempt_checkpoint_record,
}

-- The table `attempts`, with its primary key: `insert` does nothing on a conflict, `update` sets the
-- row under a key, and a row is found under its own key.
pub record AttemptTable : Type 1 where
  pub T : Type 0
  pub select : T → Text → Option AttemptRow
  pub insert : T → AttemptRow → T
  pub update : T → Text → AttemptRow → T
  pub select_key :
      (t : T) (id : Text) (row : AttemptRow) → select t id ≡ some row → row.attempt_id ≡ id
  pub select-insert :
      (t : T) (row : AttemptRow) (id : Text)
      → select (insert t row) id
        ≡ first_some (select t id) (if row.attempt_id == id then some row else none)
  pub select-update :
      (t : T) (key : Text) (row old : AttemptRow) (id : Text)
      → select t key ≡ some old
      → row.attempt_id ≡ key
      → select (update t key row) id ≡ (if key == id then some row else select t id)

abbrev pub read_row : Option AttemptRow → Option AttemptRecord
read_row none = none
read_row (some row) = some (row_to_attempt_record row)

module _ (table : AttemptTable) where
  open table use {T, select, insert, update}

  unfoldable pub get_attempt : T → Text → Option AttemptRecord
  get_attempt t attempt_id = read_row (select t attempt_id)

  unfoldable pub create_attempt : T → AttemptRecord → T
  create_attempt t attempt = insert t (attempt_record_to_row attempt)

  -- `{ ...current, ...patch }` is a function of the current record; `none` is the error on an unknown id.
  abbrev pub updated_with :
      T → Text → (AttemptRecord → AttemptRecord) → Option AttemptRecord → Option T
  updated_with t attempt_id patch none = none
  updated_with t attempt_id patch (some current) =
      some (update t attempt_id (attempt_record_to_row (patch current)))

  unfoldable pub update_attempt : T → Text → (AttemptRecord → AttemptRecord) → Option T
  update_attempt t attempt_id patch = updated_with t attempt_id patch (get_attempt t attempt_id)

abbrev pub last_of {ℓ} : {A : Type ℓ} → List A → Option A
last_of [] = none
last_of (x ∷ []) = some x
last_of (x ∷ y ∷ xs) = last_of (y ∷ xs)

-- Each row of an attempt has a smaller ordinal.
abbrev pub AllBelow : ℕ → List CheckpointRow → Type 0
AllBelow n [] = Unit
AllBelow n (r ∷ rs) = (r.inserted.ordinal < n) × AllBelow n rs

-- The table of checkpoints: the rows of an attempt by ascending ordinal, the one of the greatest
-- ordinal, and an insertion, under an id that the database gives.
pub record CheckpointTable : Type 1 where
  pub T : Type 0
  pub rows : T → Text → List CheckpointRow
  pub latest : T → Text → Option CheckpointRow
  pub insert : T → CheckpointInsert → T
  pub next_id : T → ℕ
  pub latest_lem : (t : T) (id : Text) → latest t id ≡ last_of (rows t id)
  pub rows-insert :
      (t : T) (row : CheckpointInsert) (id : Text)
      → AllBelow row.ordinal (rows t row.attempt_id)
      → rows (insert t row) id ≡ (
          if row.attempt_id == id
          then rows t id ++ (record { checkpoint_id = next_id t; inserted = row }) ∷ []
          else rows t id)

module _ {M : Type 0} (stringify : M → Text) (parse : Text → M) (table : CheckpointTable)
    ⦃es : Eq AttemptStatus⦄ ⦃et : Eq CheckpointTrigger⦄ ⦃eo : Eq (Option Text)⦄ ⦃en : Eq ℕ⦄ where
  open table use {T, rows, latest, insert}

  -- The key fields on which a checkpoint repeats the last one.
  unfoldable pub is_same_checkpoint : CheckpointInsert → Checkpoint M → Bool
  is_same_checkpoint last checkpoint =
      last.status == checkpoint.status
      && (last.thread_id == checkpoint.thread_id
          && (last.turn_id == checkpoint.turn_id
              && (last.turn_count == checkpoint.turn_count && last.trigger == checkpoint.trigger)))

  abbrev pub append_after : T → Checkpoint M → Option CheckpointRow → T
  append_after t checkpoint none =
      insert t (from_attempt_checkpoint_record stringify parse checkpoint 1)
  append_after t checkpoint (some last) =
      if is_same_checkpoint last.inserted checkpoint
      then t
      else insert t
          (from_attempt_checkpoint_record stringify parse checkpoint (last.inserted.ordinal + 1))

  unfoldable pub append_checkpoint : T → Checkpoint M → T
  append_checkpoint t checkpoint = append_after t checkpoint (latest t checkpoint.attempt_id)

  unfoldable pub list_checkpoints : T → Text → List (AttemptCheckpointRecord M)
  list_checkpoints t attempt_id =
      map (to_attempt_checkpoint_record stringify parse) (rows t attempt_id)
