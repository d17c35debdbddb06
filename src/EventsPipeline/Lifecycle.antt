-- ===== src/EventsPipeline/Lifecycle.antt =====
-- The document of an event through its record: STARTED, IN_PROGRESS, then COMPLETED or FAILED
-- (functions/events-pipeline/src/pipeline/process-record.ts over the MongoDB repository).
use mathlib.Core.Option.{some-injective}
use microservices_running.Prelude.{
  ℕ, String, true, false, Option, none, some, List, [], ◌∷◌, ◌≡◌, ◌≢◌, ◌⊎◌, inl, inr, refl, arith,
  Option-cases, map, All, ◌∙◌, Bool-cases, subst, str_eq, if◌then◌else◌,
}
use microservices_running.Effects.{Outcome, returned, threw, Io}
use microservices_running.EventsPipeline.Domain.{
  EventStatus, started, in_progress, completed, failed, Envelope, EventDocument, Failure,
  error_message,
}
use microservices_running.EventsPipeline.Record.{
  HandlerMap, ProcessRecordResult, done, not_done, find_handler, started_document, process_record,
  dispatch, settle,
}
use microservices_running.EventsPipeline.Repository.{
  MongoDriver, mongo_repository, IsMongo, transition_update, apply_update, DocumentUpdate,
}

abbrev pub statuses : EventDocument → List EventStatus
statuses doc = map (λ entry. entry.status) doc.status_history

-- What a record whose document was stored leaves of it, by its result: the status, the error, and
-- the statuses in the order in which they were appended.
abbrev pub LeftBy : ProcessRecordResult → EventDocument → Type 0
LeftBy done doc =
    (doc.status ≡ completed)
    × (doc.error ≡ none)
    × (statuses doc ≡ started ∷ in_progress ∷ completed ∷ [])
LeftBy (not_done retry persisted) doc =
    (doc.status ≡ failed)
    × (doc.error ≢ none)
    × (persisted ≡ true)
    × ((statuses doc ≡ started ∷ in_progress ∷ failed ∷ [])
        ⊎ ((retry ≡ false) × (statuses doc ≡ started ∷ failed ∷ [])))

-- No handler writes to the events collection.
abbrev pub AllSpare : {W : Type 0} → MongoDriver W → HandlerMap W → Type 0
AllSpare {W = W} driver handlers =
    All (λ h. (e : Envelope) (v : W) (id : String) → driver.find (h.1 e v).1 id ≡ driver.find v id)
      handlers

module _ {W : Type 0} (driver : MongoDriver W) (now : W → ℕ) (handlers : HandlerMap W)
    (laws : IsMongo driver) where
  abbrev pub process : Envelope → Io W Failure ProcessRecordResult
  process = process_record (mongo_repository driver now) handlers now

  update_found :
      (id : String) (status : EventStatus) (error : Option String) (w : W) (doc : EventDocument)
      → (driver.update_one id (transition_update status error (now w)) w).0 ≡ none
      → driver.find w id ≡ some doc
      → driver.find (driver.update_one id (transition_update status error (now w)) w).1 id
        ≡ some (apply_update (transition_update status error (now w)) doc)
  update_found id status error w doc ok h =
      rw (laws.update_applies id (transition_update status error (now w)) w ok, h) refl

  -- The document once its record is IN_PROGRESS.
  running : Envelope → ℕ → ℕ → EventDocument
  running e at at' = apply_update (transition_update in_progress none at') (started_document e at)

  settle_left :
      (e : Envelope) (r : Outcome Failure (Unit {0})) (w : W) (at at' : ℕ) (x : ProcessRecordResult)
      → driver.find w e.event_id ≡ some (running e at at')
      → (settle (mongo_repository driver now) e r w).0 ≡ returned x
      → (d : EventDocument) × (driver.find (settle (mongo_repository driver now) e r w).1 e.event_id
          ≡ some d)
        × LeftBy x d
  unfolding settle mongo_repository started_document running
  settle_left e (threw err) w at at' x h ok =
      let reason = some (error_message err) in
      let u : DocumentUpdate = transition_update failed reason (now w) in
      elim (Option-cases (driver.update_one e.event_id u w).0) [
        | inl good ↦ (
          apply_update u (running e at at'),
          ground (arith, update_found e.event_id failed reason w (running e at at') good h),
          ground arith,
        )
        | inr bad ↦ absurd (ground arith)
      ]
  settle_left e (returned _) w at at' x h ok =
      let u : DocumentUpdate = transition_update completed none (now w) in
      elim (Option-cases (driver.update_one e.event_id u w).0) [
        | inl good ↦ (
          apply_update u (running e at at'),
          ground (arith, update_found e.event_id completed none w (running e at at') good h),
          ground arith,
        )
        | inr bad ↦ absurd (ground arith)
      ]

  dispatch-none_left :
      (e : Envelope) (w : W) (at : ℕ) (x : ProcessRecordResult)
      → driver.find w e.event_id ≡ some (started_document e at)
      → (dispatch (mongo_repository driver now) e none w).0 ≡ returned x
      → (d : EventDocument) × (driver.find
            (dispatch (mongo_repository driver now) e none w).1
            e.event_id
          ≡ some d)
        × LeftBy x d
  unfolding dispatch mongo_repository started_document
  dispatch-none_left e w at x h ok =
      let reason = some "Unknown event type" in
      let u : DocumentUpdate = transition_update failed reason (now w) in
      elim (Option-cases (driver.update_one e.event_id u w).0) [
        | inl good ↦ (
          apply_update u (started_document e at),
          ground (arith, update_found e.event_id failed reason w (started_document e at) good h),
          ground arith,
        )
        | inr bad ↦ absurd (ground arith)
      ]

  dispatch-some_left :
      (e : Envelope) (handler : Envelope → Io W Failure (Unit {0})) (w : W) (at : ℕ)
      (x : ProcessRecordResult)
      → ((v : W) → driver.find (handler e v).1 e.event_id ≡ driver.find v e.event_id)
      → driver.find w e.event_id ≡ some (started_document e at)
      → (dispatch (mongo_repository driver now) e (some handler) w).0 ≡ returned x
      → (d : EventDocument) × (driver.find
            (dispatch (mongo_repository driver now) e (some handler) w).1
            e.event_id
          ≡ some d)
        × LeftBy x d
  unfolding dispatch
  dispatch-some_left e handler w at x spares h ok =
      let u : DocumentUpdate = transition_update in_progress none (now w) in
      let w1 = (driver.update_one e.event_id u w).1 in
      elim (Option-cases (driver.update_one e.event_id u w).0) [
        | inl good ↦
            let found = update_found e.event_id in_progress none w (started_document e at) good h in
            unfold mongo_repository running in
            rw (good, mongo_repository)
              (settle_left e (handler e w1).0 (handler e w1).1 at (now w) x (spares w1 ∙ found)
                (rw good at ok))
        | inr bad ↦ absurd (unfold mongo_repository in ground arith)
      ]

  find_handler-AllSpare :
      (type : String) (hs : HandlerMap W) (h : Envelope → Io W Failure (Unit {0}))
      → AllSpare driver hs
      → find_handler type hs ≡ some h
      → (e : Envelope) (v : W) (id : String) → driver.find (h e v).1 id ≡ driver.find v id
  unfolding find_handler
  find_handler-AllSpare type [] h k eq e v id = cc
  find_handler-AllSpare type ((name, g) ∷ hs) h k eq e v id = elim (Bool-cases (str_eq name type)) [
    | inl same ↦
        subst (λ f. driver.find (f e v).1 id ≡ driver.find v id)
          (some-injective g h (rw (same, if◌then◌else◌) at eq)) (k.0 e v id)
    | inr other ↦ find_handler-AllSpare type hs h k.1 (rw (other, if◌then◌else◌) at eq) e v id
  ]

  -- A record that stored its document and did not throw leaves it COMPLETED after STARTED and
  -- IN_PROGRESS, with no error, if it is done; otherwise FAILED with an error, after STARTED and
  -- IN_PROGRESS, or after STARTED alone where no retry is asked for.
  pub process_record_history :
      AllSpare driver handlers
      → (e : Envelope) (w : W) (x : ProcessRecordResult)
      → (driver.insert_one (started_document e (now w)) w).0 ≡ none
      → (process e w).0 ≡ returned x
      → (doc : EventDocument) × (driver.find (process e w).1 e.event_id ≡ some doc) × LeftBy x doc
  unfolding process_record
  process_record_history spares e w x stored ok =
      let doc = started_document e (now w) in
      let w1 = (driver.insert_one doc w).1 in
      let found : driver.find w1 e.event_id ≡ some doc =
        unfold started_document in laws.insert_stores doc w stored in
      elim (Option-cases (find_handler e.type handlers)) [
        | inl absent ↦
            unfold mongo_repository in
            rw (stored, absent)
              (dispatch-none_left e w1 (now w) x found (rw (stored, absent) at ok))
        | inr (h, here) ↦
            unfold mongo_repository in
            rw (stored, here)
              (dispatch-some_left e h w1 (now w) x
                (λ v. find_handler-AllSpare e.type handlers h spares here e v e.event_id) found
                (rw (stored, here) at ok))
      ]
