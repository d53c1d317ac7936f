-- ===== src/Persistence/AttemptStore/Laws.antt =====
-- The store of attempts as a map from ids to records, for
-- src/persistence/sqlite/attempt-store-sqlite.ts.
use risoluto.Prelude.{
  Bool, true, false, ◌≡◌, refl, sym, ap, ◌∙◌, Option, none, some, Text, text_eq, if◌then◌else◌,
  ◌==◌, first_some, arith, Option-cases, inl, inr,
}
use risoluto.Orchestrator.Runtime.{AttemptRecord}
use risoluto.Persistence.Mappers.{AttemptRow, row_to_attempt_record, attempt_record_to_row}
use risoluto.Persistence.Mappers.Laws.{row_to_attempt_record-attempt_record_to_row}
use risoluto.Persistence.AttemptStore.{
  AttemptTable, read_row, get_attempt, create_attempt, update_attempt, updated_with,
}

read_first_some :
    (o : Option AttemptRow) (b : Bool) (r : AttemptRecord)
    → read_row (first_some o (if b then some (attempt_record_to_row r) else none))
      ≡ first_some (read_row o) (if b then some r else none)
read_first_some (some row) b r = refl
read_first_some none true r = ap some (row_to_attempt_record-attempt_record_to_row r)
read_first_some none false r = refl

read_set :
    (o : Option AttemptRow) (b : Bool) (r : AttemptRecord)
    → read_row (if b then some (attempt_record_to_row r) else o)
      ≡ (if b then some r else read_row o)
read_set o true r = ap some (row_to_attempt_record-attempt_record_to_row r)
read_set o false r = refl

module _ (table : AttemptTable) where
  open table use {T, select, insert, update, select_key, select-insert, select-update}

  get-create_attempt :
      (t : T) (r : AttemptRecord) (id : Text)
      → get_attempt table (create_attempt table t r) id
        ≡ first_some (get_attempt table t id) (if r.attempt_id == id then some r else none)
  unfolding get_attempt create_attempt attempt_record_to_row
  get-create_attempt t r id =
      ap read_row (select-insert t (attempt_record_to_row r) id)
      ∙ read_first_some (select t id) (r.attempt_id == id) r

  found :
      (t : T) (key : Text) (current : AttemptRecord)
      → get_attempt table t key ≡ some current
      → (row : AttemptRow) × (select t key ≡ some row) × (row_to_attempt_record row ≡ current)
  unfolding get_attempt
  found t key current h = elim (Option-cases (select t key)) [
    | inl e ↦ absurd (ground (arith, ap read_row e))
    | inr (row, e) ↦ (row, e, ground (arith, ap read_row e))
  ]

  set_row :
      (t : T) (key : Text) (r current : AttemptRecord)
      → get_attempt table t key ≡ some current
      → r.attempt_id ≡ current.attempt_id
      → (id : Text)
      → get_attempt table (update t key (attempt_record_to_row r)) id
        ≡ (if key == id then some r else get_attempt table t id)
  unfolding get_attempt row_to_attempt_record attempt_record_to_row
  set_row t key r current h keeps id =
      let (row, at_key, same) = found t key current h in
      let own : r.attempt_id ≡ key =
        keeps ∙ ap (λ (c : AttemptRecord). c.attempt_id) (sym same) ∙ select_key t key row at_key in
      ap read_row (select-update t key (attempt_record_to_row r) row id at_key own)
      ∙ read_set (select t id) (key == id) r

  get-update_attempt :
      (t : T) (key : Text) (patch : AttemptRecord → AttemptRecord) (current : AttemptRecord)
      → get_attempt table t key ≡ some current
      → (patch current).attempt_id ≡ current.attempt_id
      → (t' : T) × (update_attempt table t key patch ≡ some t')
        × ((id : Text)
            → get_attempt table t' id
              ≡ (if key == id then some (patch current) else get_attempt table t id))
  unfolding update_attempt
  get-update_attempt t key patch current h keeps = (
    update t key (attempt_record_to_row (patch current)),
    ap (updated_with table t key patch) h,
    set_row t key (patch current) current h keeps,
  )

  get_unknown :
      (t : T) (key : Text) (patch : AttemptRecord → AttemptRecord)
      → get_attempt table t key ≡ none
      → update_attempt table t key patch ≡ none
  unfolding update_attempt
  get_unknown t key patch h = ap (updated_with table t key patch) h

  -- The store is a map from ids to records. Creating a record adds it where its id is free and changes
  -- nothing else. An update of an unknown id is an error; an update of a known one, by a patch that
  -- keeps the id, succeeds, changes this record by the patch, and no other.
  pub attempt_store_lem :
      (t : T)
      → ((r : AttemptRecord) (id : Text)
          → get_attempt table (create_attempt table t r) id
            ≡ first_some (get_attempt table t id) (if r.attempt_id == id then some r else none))
        × ((key : Text) (patch : AttemptRecord → AttemptRecord)
            → get_attempt table t key ≡ none
            → update_attempt table t key patch ≡ none)
        × ((key : Text) (patch : AttemptRecord → AttemptRecord) (current : AttemptRecord)
            → get_attempt table t key ≡ some current
            → (patch current).attempt_id ≡ current.attempt_id
            → (t' : T) × (update_attempt table t key patch ≡ some t')
              × ((id : Text)
                  → get_attempt table t' id
                    ≡ (if key == id then some (patch current) else get_attempt table t id)))
  attempt_store_lem t = (get-create_attempt t, get_unknown t, get-update_attempt t)
