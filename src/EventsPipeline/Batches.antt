-- ===== src/EventsPipeline/Batches.antt =====
-- What becomes of the messages of a batch (functions/events-pipeline/src/handler.ts).
use microservices_running.Prelude.{
  ℕ, String, Bool, false, Option, none, some, List, [], ◌∷◌, ◌≡◌, ◌≢◌, ◌⊎◌, inl, inr, arith,
  Option-cases, Bool-cases, map, ap,
}
use microservices_running.Effects.{Outcome-cases}
use microservices_running.EventsPipeline.Domain.{Envelope}
use microservices_running.EventsPipeline.Record.{HandlerMap}
use microservices_running.EventsPipeline.Repository.{MongoDriver, mongo_repository, IsMongo}
use microservices_running.EventsPipeline.Quarantine.{
  Dlq, quarantine, QuarantineInput, dlq_message, DlqMessage,
}
use microservices_running.EventsPipeline.Batch.{
  SqsRecord, process_record_safely, process_records, Bootstrap, bootstrap, process_batch,
}
use microservices_running.EventsPipeline.Delivery.{
  AllKeep, process_one_record_leaves, process_one_record_keeps,
}

-- The list has the text.
abbrev pub Lists : String → List String → Type 0
Lists x [] = ⊥
Lists x (y ∷ ys) = (x ≡ y) ⊎ Lists x ys

-- The list has the record.
abbrev pub Among : SqsRecord → List SqsRecord → Type 0
Among m [] = ⊥
Among m (n ∷ ns) = (m ≡ n) ⊎ Among m ns

module _ {W : Type 0} (driver : MongoDriver W) (now : W → ℕ) (handlers : HandlerMap W) (dlq : Dlq W)
    (parse_body : String → Option Envelope) (laws : IsMongo driver) (kept : AllKeep driver handlers)
    (send_keeps : (x : DlqMessage) (v : W) (id : String)
      → driver.find v id ≢ none
      → driver.find (dlq.send x v).1 id ≢ none) where
  abbrev safely : SqsRecord → W → Bool × W
  safely = process_record_safely (mongo_repository driver now) handlers now dlq parse_body

  abbrev pub run : List SqsRecord → W → List String × W
  run = process_records (mongo_repository driver now) handlers now dlq parse_body

  abbrev pub batch : Bootstrap W → Bool → List SqsRecord → W → List String × Bool × W
  batch = process_batch (mongo_repository driver now) handlers now dlq parse_body

  quarantine_keeps :
      (input : QuarantineInput) (w : W) (id : String)
      → driver.find w id ≢ none
      → driver.find (quarantine dlq input w).1 id ≢ none
  unfolding quarantine
  quarantine_keeps input w id h = elim (Option-cases dlq.queue_url) [
    | inl off ↦ ground arith
    | inr (url, on) ↦ ground (arith, send_keeps (dlq_message url input) w id h)
  ]

  safely_keeps :
      (m : SqsRecord) (w : W) (id : String)
      → driver.find w id ≢ none
      → driver.find (safely m w).1 id ≢ none
  unfolding process_record_safely
  safely_keeps m w id h = elim (Option-cases (parse_body m.body)) [
    | inl bad ↦ rw (bad, process_record_safely) (quarantine_keeps _ w id h)
    | inr (e, parsed) ↦
        rw (parsed, process_record_safely)
          (process_one_record_keeps driver now handlers dlq laws kept e m w id h)
  ]

  safely_leaves :
      (m : SqsRecord) (w : W) (e : Envelope)
      → parse_body m.body ≡ some e
      → (safely m w).0 ≡ false
      → driver.find (safely m w).1 e.event_id ≢ none
  unfolding process_record_safely
  safely_leaves m w e parsed =
      rw (parsed, process_record_safely)
        (process_one_record_leaves driver now handlers dlq laws kept e m w)

  run_keeps :
      (ms : List SqsRecord) (w : W) (id : String)
      → driver.find w id ≢ none
      → driver.find (run ms w).1 id ≢ none
  unfolding process_records
  run_keeps [] w id h = h
  run_keeps (m ∷ ms) w id h = run_keeps ms (safely m w).1 id (safely_keeps m w id h)

  run_loses_nothing :
      (ms : List SqsRecord) (m : SqsRecord) (e : Envelope) (w : W)
      → Among m ms
      → parse_body m.body ≡ some e
      → Lists m.message_id (run ms w).0 ⊎ (driver.find (run ms w).1 e.event_id ≢ none)
  unfolding process_records
  run_loses_nothing [] m e w here parsed = elim here [ ]
  run_loses_nothing (n ∷ ms) m e w (inl same) parsed = elim (Bool-cases (safely n w).0) [
    | inl failing ↦ inl (rw failing (inl (ap (λ r. r.message_id) same)))
    | inr acked ↦
        inr (run_keeps ms (safely n w).1 e.event_id (safely_leaves n w e (rw same at parsed) acked))
  ]
  run_loses_nothing (n ∷ ms) m e w (inr later) parsed =
      elim (run_loses_nothing ms m e (safely n w).1 later parsed) [
        | inl reported ↦ elim (Bool-cases (safely n w).0) [
          | inl failing ↦ inl (rw failing (inr reported))
          | inr acked ↦ inl (rw acked reported)
        ]
        | inr there ↦ inr there
      ]

  Lists-map :
      (ms : List SqsRecord) (m : SqsRecord)
      → Among m ms
      → Lists m.message_id (map (λ n. n.message_id) ms)
  Lists-map [] m here = elim here [ ]
  Lists-map (n ∷ ms) m (inl same) = inl (ap (λ r. r.message_id) same)
  Lists-map (n ∷ ms) m (inr later) = inr (Lists-map ms m later)

  -- Every record of a batch whose body parses is either reported for redelivery or has a document
  -- in the collection after the batch, also where the bootstrap fails.
  pub batch_loses_nothing :
      (boot : Bootstrap W) (indexes_ensured : Bool) (ms : List SqsRecord) (m : SqsRecord)
      (e : Envelope) (w : W)
      → Among m ms
      → parse_body m.body ≡ some e
      → let (failures, _, w') = batch boot indexes_ensured ms w in
        Lists m.message_id failures ⊎ (driver.find w' e.event_id ≢ none)
  unfolding process_batch
  batch_loses_nothing boot ensured ms m e w here parsed =
      elim (Outcome-cases (bootstrap boot ensured w).0) [
        | inl (_, up) ↦ rw (up, process_batch) (run_loses_nothing ms m e _ here parsed)
        | inr (_, down) ↦ rw (down, process_batch) (inl (Lists-map ms m here))
      ]
