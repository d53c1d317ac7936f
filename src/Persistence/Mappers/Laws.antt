-- ===== src/Persistence/Mappers/Laws.antt =====
-- The mappers of src/persistence/sqlite/mappers.ts: what is written is read again.
use risoluto.Prelude.{
  ℕ, false, ◌≡◌, ◌≢◌, refl, ap, ◌∙◌, [], ◌∷◌, Option, none, some, Text, is_empty,
}
use risoluto.Core.Types.{TokenUsageSnapshot}
use risoluto.Orchestrator.Runtime.{AttemptRecord}
use risoluto.Persistence.Mappers.{
  build_token_usage, input_of, output_of, total_of, row_to_attempt_record, attempt_record_to_row,
  AttemptEvent, Checkpoint, metadata_to_text, text_to_metadata, row_to_attempt_event,
  attempt_event_to_row, to_attempt_checkpoint_record, from_attempt_checkpoint_record,
}

usage_again :
    (usage : Option TokenUsageSnapshot)
    → build_token_usage (input_of usage) (output_of usage) (total_of usage) ≡ usage
unfolding build_token_usage
usage_again none = refl
usage_again (some u) = refl

pub row_to_attempt_record-attempt_record_to_row :
    (r : AttemptRecord) → row_to_attempt_record (attempt_record_to_row r) ≡ r
unfolding row_to_attempt_record attempt_record_to_row
row_to_attempt_record-attempt_record_to_row r =
    ap (λ u. record r { token_usage = u }) (usage_again r.token_usage)

not_empty : (t : Text) → t ≢ [] → is_empty t ≡ false
not_empty [] h = absurd (h refl)
not_empty (c ∷ t) h = refl

-- `parse` reads what `stringify` writes, and that is never the empty text.
module _ {M : Type 0} (stringify : M → Text) (parse : Text → M)
    (parse-stringify : (m : M) → parse (stringify m) ≡ m)
    (stringify-ne : (m : M) → stringify m ≢ []) where
  metadata_again :
      (m : Option M) → text_to_metadata stringify parse (metadata_to_text stringify parse m) ≡ m
  metadata_again none = refl
  metadata_again (some m) =
      rw (not_empty (stringify m) (stringify-ne m)) (ap some (parse-stringify m))

  row_to_attempt_event-attempt_event_to_row :
      (e : AttemptEvent M)
      → row_to_attempt_event stringify parse (attempt_event_to_row stringify parse e)
        ≡ record e { rate_limits = none }
  unfolding row_to_attempt_event attempt_event_to_row
  row_to_attempt_event-attempt_event_to_row e =
      ap
        (λ u. record e {
          usage = u;
          rate_limits = none;
          metadata = text_to_metadata stringify parse (metadata_to_text stringify parse e.metadata);
        })
        (usage_again e.usage)
      ∙ ap (λ m. record e { rate_limits = none; metadata = m }) (metadata_again e.metadata)

  checkpoint_again :
      (c : Checkpoint M) (id ordinal : ℕ)
      → to_attempt_checkpoint_record stringify parse (record {
        checkpoint_id = id;
        inserted = from_attempt_checkpoint_record stringify parse c ordinal;
      })
        ≡ record { checkpoint_id = id; ordinal = ordinal; checkpoint = c }
  unfolding to_attempt_checkpoint_record from_attempt_checkpoint_record
  checkpoint_again c id ordinal =
      ap
        (λ u. record {
          checkpoint_id = id;
          ordinal = ordinal;
          checkpoint = record c {
            token_usage = u;
            metadata =
                text_to_metadata stringify parse (metadata_to_text stringify parse c.metadata);
          };
        })
        (usage_again c.token_usage)
      ∙ ap
          (λ m. record {
            checkpoint_id = id;
            ordinal = ordinal;
            checkpoint = record c { metadata = m };
          })
          (metadata_again c.metadata)

  -- A record of an attempt and a checkpoint that are written to a row are read from it as they were,
  -- and an event is but for its rate limits, which are lost, where `JSON.parse` reads what
  -- `JSON.stringify` writes, which is never empty; a checkpoint is read with the id and the ordinal
  -- that its row has.
  pub mappers_roundtrip :
      (r : AttemptRecord) (e : AttemptEvent M) (c : Checkpoint M) (id ordinal : ℕ)
      → (row_to_attempt_record (attempt_record_to_row r) ≡ r)
        × (row_to_attempt_event stringify parse (attempt_event_to_row stringify parse e)
            ≡ record e { rate_limits = none })
        × (to_attempt_checkpoint_record stringify parse (record {
          checkpoint_id = id;
          inserted = from_attempt_checkpoint_record stringify parse c ordinal;
        })
            ≡ record { checkpoint_id = id; ordinal = ordinal; checkpoint = c })
  mappers_roundtrip r e c id ordinal = (
    row_to_attempt_record-attempt_record_to_row r,
    row_to_attempt_event-attempt_event_to_row e,
    checkpoint_again c id ordinal,
  )
