-- ===== src/Persistence/AttemptStore/History.antt =====
-- appendCheckpoint of src/persistence/sqlite/attempt-store-sqlite.ts: the history of an attempt.
use risoluto.Prelude.{
  ℕ, ◌+◌, ◌≤◌, Bool, false, ◌&&◌, ◌≡◌, refl, sym, List, [], ◌∷◌, ◌++◌, Option, none, some, Text,
  text_eq, Eq, ◌==◌, ==_iff, length, arith, Bool-cases, inl, inr,
}
use risoluto.Orchestrator.Runtime.{AttemptStatus}
use risoluto.Persistence.Mappers.{
  CheckpointTrigger, Checkpoint, CheckpointRow, CheckpointInsert, from_attempt_checkpoint_record,
}
use risoluto.Persistence.AttemptStore.{
  CheckpointTable, AllBelow, last_of, is_same_checkpoint, append_after, append_checkpoint,
}

-- The ordinals count from a number.
abbrev Numbered : ℕ → List CheckpointRow → Type 0
Numbered n [] = Unit
Numbered n (r ∷ rs) = (r.inserted.ordinal ≡ n) × Numbered (n + 1) rs

Numbered-AllBelow :
    (n m : ℕ) (rs : List CheckpointRow) → Numbered n rs → n + length rs ≤ m → AllBelow m rs
Numbered-AllBelow n m [] h k = tt
Numbered-AllBelow n m (r ∷ rs) h k =
    (omega (arith, h.0), Numbered-AllBelow (n + 1) m rs h.1 (omega arith))

Numbered-append :
    (n : ℕ) (rs : List CheckpointRow) (r : CheckpointRow)
    → Numbered n rs
    → r.inserted.ordinal ≡ n + length rs
    → Numbered n (rs ++ r ∷ [])
Numbered-append n [] r h k = (omega (arith, k), tt)
Numbered-append n (q ∷ rs) r h k = (h.0, Numbered-append (n + 1) rs r h.1 (omega (arith, k)))

last-Numbered :
    (n : ℕ) (rs : List CheckpointRow) (r : CheckpointRow)
    → Numbered n rs
    → last_of rs ≡ some r
    → r.inserted.ordinal + 1 ≡ n + length rs
last-Numbered n [] r h e = ground arith
last-Numbered n (q ∷ []) r h e = ground arith
last-Numbered n (q ∷ p ∷ rs) r h e = omega (arith, last-Numbered (n + 1) (p ∷ rs) r h.1 e)

last_none : (rs : List CheckpointRow) → last_of rs ≡ none → rs ≡ []
last_none [] e = refl
last_none (q ∷ []) e = ground arith
last_none (q ∷ p ∷ rs) e = ground (arith, last_none (p ∷ rs))

module _ ⦃es : Eq AttemptStatus⦄ ⦃et : Eq CheckpointTrigger⦄ ⦃eo : Eq (Option Text)⦄
    ⦃en : Eq ℕ⦄ where
  -- Two rows agree on the key fields.
  abbrev repeats : CheckpointInsert → CheckpointInsert → Bool
  repeats a b =
      a.status == b.status
      && (a.thread_id == b.thread_id
          && (a.turn_id == b.turn_id && (a.turn_count == b.turn_count && a.trigger == b.trigger)))

  abbrev NoRepeat : List CheckpointRow → Type 0
  NoRepeat [] = Unit
  NoRepeat (a ∷ []) = Unit
  NoRepeat (a ∷ b ∷ rs) = (repeats a.inserted b.inserted ≡ false) × NoRepeat (b ∷ rs)

  NoRepeat-append :
      (rs : List CheckpointRow) (r : CheckpointRow)
      → NoRepeat rs
      → ((q : CheckpointRow) → last_of rs ≡ some q → repeats q.inserted r.inserted ≡ false)
      → NoRepeat (rs ++ r ∷ [])
  NoRepeat-append [] r h k = tt
  NoRepeat-append (a ∷ []) r h k = (k a refl, tt)
  NoRepeat-append (a ∷ b ∷ rs) r h k = (h.0, NoRepeat-append (b ∷ rs) r h.1 k)

  -- The checkpoints of an attempt: numbered from 1, and none repeats the one before.
  abbrev pub IsHistory : List CheckpointRow → Type 0
  IsHistory rs = Numbered 1 rs × NoRepeat rs

  module _ {M : Type 0} (stringify : M → Text) (parse : Text → M) (table : CheckpointTable) where
    open table use {T, rows, latest, insert, latest_lem, rows-insert}

    same_key :
        (last : CheckpointInsert) (c : Checkpoint M) (n : ℕ)
        → repeats last (from_attempt_checkpoint_record stringify parse c n)
          ≡ is_same_checkpoint stringify parse table last c
    unfolding is_same_checkpoint from_attempt_checkpoint_record
    same_key last c n = refl

    insert-IsHistory :
        (t : T) (c : Checkpoint M) (n : ℕ)
        → n ≡ 1 + length (rows t c.attempt_id)
        → ((q : CheckpointRow)
            → last_of (rows t c.attempt_id) ≡ some q
            → is_same_checkpoint stringify parse table q.inserted c ≡ false)
        → ((id : Text) → IsHistory (rows t id))
        → (id : Text)
        → IsHistory (rows (insert t (from_attempt_checkpoint_record stringify parse c n)) id)
    unfolding from_attempt_checkpoint_record is_same_checkpoint
    insert-IsHistory t c n e new h id =
        let row : CheckpointInsert = from_attempt_checkpoint_record stringify parse c n in
        let below : AllBelow n (rows t c.attempt_id) =
          Numbered-AllBelow 1 n (rows t c.attempt_id) (h c.attempt_id).0 (omega arith) in
        rw (rows-insert t row id below) (elim (Bool-cases (c.attempt_id == id)) [
          | inr other ↦ rw other (h id)
          | inl own ↦ rw own (
              rw (sym ((==_iff c.attempt_id id).0 own)) (
                Numbered-append 1 (rows t c.attempt_id) _ (h c.attempt_id).0 e,
                NoRepeat-append (rows t c.attempt_id) _ (h c.attempt_id).1 new,
              ))
        ])

    append_after-IsHistory :
        (t : T) (c : Checkpoint M) (last : Option CheckpointRow)
        → last_of (rows t c.attempt_id) ≡ last
        → ((id : Text) → IsHistory (rows t id))
        → (id : Text) → IsHistory (rows (append_after stringify parse table t c last) id)
    append_after-IsHistory t c none e h id =
        insert-IsHistory t c 1 (ground (arith, last_none (rows t c.attempt_id) e))
          (λ q f. ground arith) h id
    append_after-IsHistory t c (some q) e h id =
        elim (Bool-cases (is_same_checkpoint stringify parse table q.inserted c)) [
          | inl again ↦ rw again (h id)
          | inr fresh ↦ rw fresh (
              insert-IsHistory t c (q.inserted.ordinal + 1)
                (last-Numbered 1 (rows t c.attempt_id) q (h c.attempt_id).0 e) (λ p f. ground arith)
                h id)
        ]

    -- Where the checkpoints of each attempt are numbered from 1 and none repeats the one before, in its
    -- status, thread, turn, count of turns and trigger, they are so after a checkpoint is appended.
    pub append_checkpoint-IsHistory :
        (t : T) (c : Checkpoint M)
        → ((id : Text) → IsHistory (rows t id))
        → (id : Text) → IsHistory (rows (append_checkpoint stringify parse table t c) id)
    unfolding append_checkpoint
    append_checkpoint-IsHistory t c h id =
        append_after-IsHistory t c (latest t c.attempt_id) (sym (latest_lem t c.attempt_id)) h id
