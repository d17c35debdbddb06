-- ===== src/EventsPipeline/Delivery.antt =====
-- What becomes of a message: when it is acknowledged, its event has a document.
use microservices_running.Prelude.{
  ℕ, String, Bool, true, false, none, some, [], ◌∷◌, ◌≡◌, ◌≢◌, ◌⊎◌, inl, inr, refl, arith,
  Option-cases, Bool-cases, All, str_eq, not, subst, if◌then◌else◌,
}
use mathlib.Core.Option.{some-injective}
use microservices_running.Effects.{Outcome, returned, threw, Io}
use microservices_running.EventsPipeline.Domain.{
  Envelope, Failure, is_transient, in_progress, completed, failed, error_message,
}
use microservices_running.EventsPipeline.Record.{
  EventsRepositoryPort, ProcessRecordResult, HandlerMap, find_handler, started_document,
  process_record, dispatch, settle, not_done,
}
use microservices_running.EventsPipeline.Repository.{
  DriverError, MongoDriver, mongo_repository, IsMongo, is_duplicate_key_error, transition_update,
}
use microservices_running.EventsPipeline.Quarantine.{Dlq}
use microservices_running.EventsPipeline.Batch.{
  SqsRecord, observe, conclude, ObservedOutcome, unobserved, beside, beside_all, process_one_record,
}

module _ {W : Type 0} where
  -- The lookup commutes with running the handlers beside the notes.
  find_handler-beside_all :
      (type : String) (handlers : HandlerMap W)
      → ((find_handler type handlers ≡ none) × (find_handler type (beside_all handlers) ≡ none))
        ⊎ ((h : Envelope → Io W Failure (Unit {0})) × (find_handler type handlers ≡ some h)
            × (find_handler type (beside_all handlers) ≡ some (beside h)))
  unfolding find_handler beside_all
  find_handler-beside_all type [] = inl (refl, refl)
  find_handler-beside_all type ((name, h) ∷ handlers) = elim (Bool-cases (str_eq name type)) [
    | inl same ↦ inr (h, rw same, rw same)
    | inr other ↦ rw other (find_handler-beside_all type handlers)
  ]

-- Every handler keeps the documents of the events collection there.
abbrev pub AllKeep : {W : Type 0} → MongoDriver W → HandlerMap W → Type 0
AllKeep {W = W} driver handlers =
    All
      (λ h.
        (e : Envelope) (v : W) (id : String)
        → driver.find v id ≢ none
        → driver.find (h.1 e v).1 id ≢ none)
      handlers

module _ {W : Type 0} (driver : MongoDriver W) where
  find_handler-AllKeep :
      (type : String) (handlers : HandlerMap W) (h : Envelope → Io W Failure (Unit {0}))
      → AllKeep driver handlers
      → find_handler type handlers ≡ some h
      → (e : Envelope) (v : W) (id : String) → driver.find v id ≢ none
      → driver.find (h e v).1 id ≢ none
  unfolding find_handler
  find_handler-AllKeep type [] h k eq e v id = cc
  find_handler-AllKeep type ((name, g) ∷ handlers) h k eq e v id =
      elim (Bool-cases (str_eq name type)) [
        | inl same ↦ λ p.
            subst (λ f. driver.find (f e v).1 id ≢ none)
              (some-injective g h (rw (same, if◌then◌else◌) at eq)) (k.0 e v id p)
        | inr other ↦
            find_handler-AllKeep type handlers h k.1 (rw (other, if◌then◌else◌) at eq) e v id
      ]

module _ {W : Type 0} (driver : MongoDriver W) (now : W → ℕ) (handlers : HandlerMap W)
    (dlq : Dlq W) where
  -- One delivery of a message whose body is the envelope.
  abbrev pub deliver : Envelope → SqsRecord → W → Bool × W
  deliver = process_one_record (mongo_repository driver now) handlers now dlq

  -- The insert is refused: nothing else is called, and a duplicate is acknowledged.
  process_refused :
      (e : Envelope) (m : SqsRecord) (w : W) (err : DriverError)
      → (driver.insert_one (started_document e (now w)) w).0 ≡ some err
      → deliver e m w
        ≡ (not (is_duplicate_key_error err), (driver.insert_one (started_document e (now w)) w).1)
  unfolding process_one_record mongo_repository process_record observe is_transient
  process_refused e m w err h = ground arith

  abbrev repository : EventsRepositoryPort W
  repository = mongo_repository driver now

  -- A step that keeps the documents there, does not mark a duplicate, and ends in a result that
  -- left a document.
  abbrev Leaves : String → Outcome Failure ProcessRecordResult × (W × ObservedOutcome) → Type 0
  Leaves id (r, (w, o)) =
      (driver.find w id ≢ none)
      × (o.duplicate ≡ false)
      × ((retry : Bool) → r ≢ returned (not_done retry false))

  module _ (laws : IsMongo driver) where
    settle-Leaves :
        (e : Envelope) (r : Outcome Failure (Unit {0})) (w : W) (o : ObservedOutcome) (id : String)
        → driver.find w id ≢ none
        → o.duplicate ≡ false
        → Leaves id (settle (observe repository) e r (w, o))
    unfolding settle observe mongo_repository
    settle-Leaves e (threw err) w o id h d = ground (
      arith,
      laws.update_keeps e.event_id (transition_update failed (some (error_message err)) (now w)) w
          id h,
    )
    settle-Leaves e (returned _) w o id h d =
        ground
          (arith, laws.update_keeps e.event_id (transition_update completed none (now w)) w id h)

    dispatch-none-Leaves :
        (e : Envelope) (w : W) (id : String)
        → driver.find w id ≢ none
        → Leaves id (dispatch (observe repository) e none (w, unobserved))
    unfolding dispatch observe mongo_repository
    dispatch-none-Leaves e w id h = ground (
      arith,
      laws.update_keeps e.event_id (transition_update failed (some "Unknown event type") (now w)) w
          id h,
    )

    dispatch-some-Leaves :
        (e : Envelope) (handler : Envelope → Io W Failure (Unit {0})) (w : W) (id : String)
        → ((v : W) → driver.find v id ≢ none → driver.find (handler e v).1 id ≢ none)
        → driver.find w id ≢ none
        → Leaves id (dispatch (observe repository) e (some (beside handler)) (w, unobserved))
    unfolding dispatch beside
    dispatch-some-Leaves e handler w id kept h =
        let u = transition_update in_progress none (now w) in
        let w1 = (driver.update_one e.event_id u w).1 in
        let h1 = laws.update_keeps e.event_id u w id h in
        unfold observe mongo_repository in
        ground (
          arith,
          h1,
          kept w1 h1,
          settle-Leaves e (handler e w1).0 (handler e w1).1 unobserved id (kept w1 h1) refl,
        )

    module _ (kept : AllKeep driver handlers) where
      stored-Leaves :
          (e : Envelope) (w : W) (id : String)
          → driver.find w id ≢ none
          → Leaves id (
              dispatch
                (observe repository)
                e
                (find_handler e.type (beside_all handlers))
                (w, unobserved))
      stored-Leaves e w id h = elim (find_handler-beside_all e.type handlers) [
        | inl absent ↦ rw absent.1 (dispatch-none-Leaves e w id h)
        | inr (handler, here, beside_here) ↦ rw beside_here (
            dispatch-some-Leaves e handler w id
              (λ v. find_handler-AllKeep driver e.type handlers handler kept here e v id) h)
      ]

      stored_keeps :
          (e : Envelope) (m : SqsRecord) (w : W) (id : String)
          → (driver.insert_one (started_document e (now w)) w).0 ≡ none
          → driver.find (driver.insert_one (started_document e (now w)) w).1 id ≢ none
          → driver.find (deliver e m w).1 id ≢ none
      unfolding process_one_record mongo_repository process_record observe conclude
      stored_keeps e m w id ok h =
          ground (arith, stored-Leaves e (driver.insert_one (started_document e (now w)) w).1 id h)

      refused_leaves :
          (e : Envelope) (m : SqsRecord) (w : W) (err : DriverError)
          → (driver.insert_one (started_document e (now w)) w).0 ≡ some err
          → (deliver e m w).0 ≡ false
          → driver.find (deliver e m w).1 e.event_id ≢ none
      unfolding started_document
      refused_leaves e m w err refused acked =
          let doc = started_document e (now w) in
          let eq = process_refused e m w err refused in
          let is_dup : is_duplicate_key_error err ≡ true = ground (arith, eq) in
          let there = laws.conflict_has_document doc w err refused is_dup in
          rw (eq, laws.insert_keeps doc w e.event_id there) there

      -- The document of an event is there after its record, or the record is to be delivered again.
      pub process_one_record_leaves :
          (e : Envelope) (m : SqsRecord) (w : W)
          → (deliver e m w).0 ≡ false
          → driver.find (deliver e m w).1 e.event_id ≢ none
      process_one_record_leaves e m w acked =
          let doc = started_document e (now w) in
          elim (Option-cases (driver.insert_one doc w).0) [
            | inl ok ↦
                stored_keeps e m w e.event_id ok
                  (unfold started_document in rw (laws.insert_stores doc w ok) cc)
            | inr (err, refused) ↦ refused_leaves e m w err refused acked
          ]

      -- No record removes a document.
      pub process_one_record_keeps :
          (e : Envelope) (m : SqsRecord) (w : W) (id : String)
          → driver.find w id ≢ none
          → driver.find (deliver e m w).1 id ≢ none
      process_one_record_keeps e m w id h =
          let doc = started_document e (now w) in
          let kept_by_insert : driver.find (driver.insert_one doc w).1 id ≢ none =
            rw (laws.insert_keeps doc w id h) h in
          elim (Option-cases (driver.insert_one doc w).0) [
            | inl ok ↦ stored_keeps e m w id ok kept_by_insert
            | inr (err, refused) ↦ rw (process_refused e m w err refused) kept_by_insert
          ]

      -- A record of an event that has a document: the insert is refused, and nothing else is done,
      -- no handler and no transition; it is acknowledged exactly if the refusal is a duplicate key.
      pub redelivery_only_inserts :
          (e : Envelope) (m : SqsRecord) (w : W)
          → driver.find w e.event_id ≢ none
          → (err : DriverError) × ((driver.insert_one (started_document e (now w)) w).0 ≡ some err)
            × (deliver e m w ≡ (
              not (is_duplicate_key_error err),
              (driver.insert_one (started_document e (now w)) w).1,
            ))
      redelivery_only_inserts e m w h =
          let doc = started_document e (now w) in
          elim (Option-cases (driver.insert_one doc w).0) [
            | inl ok ↦ absurd (h (unfold started_document in laws.insert_unique doc w ok))
            | inr (err, refused) ↦ (err, refused, process_refused e m w err refused)
          ]

      -- After a delivery that stored the document, whatever its verdict, also when it asked for
      -- redelivery: a later delivery in a world that still has that document is refused at the
      -- insert, calls no handler and makes no transition, and is acknowledged exactly if the
      -- refusal is a duplicate key.
      pub stored_event_not_retried :
          (e : Envelope) (m m' : SqsRecord) (w v : W)
          → (driver.insert_one (started_document e (now w)) w).0 ≡ none
          → driver.find v e.event_id ≡ driver.find (deliver e m w).1 e.event_id
          → (err : DriverError) × ((driver.insert_one (started_document e (now v)) v).0 ≡ some err)
            × (deliver e m' v ≡ (
              not (is_duplicate_key_error err),
              (driver.insert_one (started_document e (now v)) v).1,
            ))
      unfolding started_document
      stored_event_not_retried e m m' w v ok still =
          let doc = started_document e (now w) in
          let stored = stored_keeps e m w e.event_id ok (rw (laws.insert_stores doc w ok) cc) in
          redelivery_only_inserts e m' v (rw still stored)
