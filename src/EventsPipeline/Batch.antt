-- ===== src/EventsPipeline/Batch.antt =====
-- functions/events-pipeline/src/handler.ts: one record with its observed outcome, and the batch.
-- `parse_body` is `EnvelopeSchema.parse(JSON.parse(body))`. The records of a batch run to their
-- end one after the other, in the batch's order.
use microservices_running.Prelude.{
  ℕ, String, Bool, true, false, Option, none, some, List, [], ◌∷◌, map, ◌&&◌, not, if◌then◌else◌,
}
use microservices_running.Effects.{Outcome, returned, threw, Io, ◌>>◌, return}
use microservices_running.EventsPipeline.Domain.{
  EventStatus, failed, Envelope, Failure, permanent, transient, other, error_message,
}
use microservices_running.EventsPipeline.Record.{
  EventsRepositoryPort, HandlerMap, ProcessRecordResult, done, not_done, process_record,
}
use microservices_running.EventsPipeline.Repository.{IndexKey, ensure_indexes}
use microservices_running.EventsPipeline.Quarantine.{
  invalid_envelope, persist_failed, Dlq, quarantine,
}

pub record SqsRecord : Type 0 where
  pub message_id : String
  pub body : String

pub record ObservedOutcome : Type 0 where
  pub reason : Option String
  pub duplicate : Bool

abbrev pub unobserved : ObservedOutcome
unobserved = record { reason = none; duplicate = false }

-- `err.name`
unfoldable pub error_name : Failure → String
error_name (permanent _) = "PermanentError"
error_name (Failure.duplicate _) = "DuplicateEventError"
error_name (transient _) = "TransientError"
error_name (other name _) = name

-- The `catch` of the observed `insertStarted`.
unfoldable pub note_insert_failure : Failure → ObservedOutcome → ObservedOutcome
unfolding error_name error_message
note_insert_failure (Failure.duplicate event_id) outcome = record {
  reason = some (error_message (Failure.duplicate event_id));
  duplicate = true;
}
note_insert_failure err outcome = record outcome { reason = some (error_name err) }

-- `if (status === "FAILED" && patch?.error !== undefined) outcome.reason = patch.error`
unfoldable pub note_transition : EventStatus → Option String → ObservedOutcome → ObservedOutcome
note_transition failed (some error) outcome = record outcome { reason = some error }
note_transition _ _ outcome = outcome

module _ {W : Type 0} where
  abbrev observed_insert :
      ObservedOutcome
      → Outcome Failure (Unit {0}) × W
      → Outcome Failure (Unit {0}) × (W × ObservedOutcome)
  observed_insert outcome (returned _, w) = (returned tt, (w, outcome))
  observed_insert outcome (threw err, w) = (threw err, (w, note_insert_failure err outcome))

  -- The port that calls the repository and notes what it saw, with the notes beside the world.
  unfoldable pub observe : EventsRepositoryPort W → EventsRepositoryPort (W × ObservedOutcome)
  unfolding note_insert_failure note_transition
  observe repository = record {
    insert_started = λ doc s. observed_insert s.1 (repository.insert_started doc s.0);
    transition = λ event_id status error s.
        let (r, w) = repository.transition event_id status error s.0 in
        (r, (w, note_transition status error s.1));
  }

  -- A handler beside the notes, which it cannot reach.
  unfoldable pub beside :
      (Envelope → Io W Failure (Unit {0})) → Envelope → Io (W × ObservedOutcome) Failure (Unit {0})
  beside handler envelope s = let (r, w) = handler envelope s.0 in (r, (w, s.1))

  unfoldable pub beside_all : HandlerMap W → HandlerMap (W × ObservedOutcome)
  unfolding beside
  beside_all [] = []
  beside_all ((type, handler) ∷ handlers) = (type, beside handler) ∷ beside_all handlers

-- What the `try` of `processBatch` calls. `create_e2e_indexes` is `ensureE2eIndexes`.
pub record Bootstrap (W : Type 0) : Type 0 where
  pub connect : Io W Failure (Unit {0})
  pub create_index : IndexKey → (unique : Bool) → Io W Failure (Unit {0})
  pub create_e2e_indexes : Io W Failure (Unit {0})
  pub e2e_testing_enabled : Bool

-- The indexes are created unless the latch says that they are there.
unfoldable pub bootstrap : {W : Type 0} → Bootstrap W → Bool → Io W Failure (Unit {0})
bootstrap boot indexes_ensured =
    boot.connect
    >> (if indexes_ensured
        then return tt
        else (ensure_indexes boot.create_index
            >> (if boot.e2e_testing_enabled then boot.create_e2e_indexes else return tt)))

module _ {W : Type 0} (repository : EventsRepositoryPort W) (handlers : HandlerMap W) (now : W → ℕ)
    (dlq : Dlq W) where
  -- What follows `processRecord`: whether the record has to be delivered again.
  unfoldable pub conclude :
      SqsRecord → Outcome Failure ProcessRecordResult → ObservedOutcome → W → Bool × W
  conclude message (threw _) outcome w = (true, w)
  conclude message (returned done) outcome w = (false, w)
  conclude message (returned (not_done retry persisted)) outcome w =
      if outcome.duplicate
      then (false, w)
      else if not retry && not persisted
      then (
        retry,
        (quarantine dlq
            (record {
              body = message.body;
              message_id = message.message_id;
              reason = persist_failed;
            })
            w).1,
      )
      else (retry, w)

  unfoldable pub process_one_record : Envelope → SqsRecord → W → Bool × W
  unfolding conclude
  process_one_record envelope message w =
      let (result, (w', outcome)) =
        process_record (observe repository) (beside_all handlers) (λ s. now s.0) envelope
          (w, unobserved) in
      conclude message result outcome w'

  module _ (parse_body : String → Option Envelope) where
    unfoldable pub process_record_safely : SqsRecord → W → Bool × W
    process_record_safely message w = elim (parse_body message.body) [
      | none ↦ (
        false,
        (quarantine dlq
            (record {
              body = message.body;
              message_id = message.message_id;
              reason = invalid_envelope;
            })
            w).1,
      )
      | some envelope ↦ process_one_record envelope message w
    ]

    -- The messages that are reported for redelivery, and the world after the last record.
    unfoldable pub process_records : List SqsRecord → W → List String × W
    process_records [] w = ([], w)
    process_records (message ∷ messages) w =
        let (failing, w') = process_record_safely message w in
        let (failures, w'') = process_records messages w' in
        (if failing then message.message_id ∷ failures else failures, w'')

    abbrev after_bootstrap :
        List SqsRecord → Bool → Outcome Failure (Unit {0}) × W → List String × Bool × W
    after_bootstrap messages indexes_ensured (threw _, w) =
        (map (λ m. m.message_id) messages, indexes_ensured, w)
    after_bootstrap messages indexes_ensured (returned _, w) =
        let (failures, w') = process_records messages w in (failures, true, w')

    -- The reported messages, the latch of the cold start, and the world.
    unfoldable pub process_batch :
        Bootstrap W → (indexes_ensured : Bool) → List SqsRecord → W → List String × Bool × W
    process_batch boot indexes_ensured messages w =
        after_bootstrap messages indexes_ensured (bootstrap boot indexes_ensured w)
