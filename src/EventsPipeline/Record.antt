-- ===== src/EventsPipeline/Record.antt =====
-- functions/events-pipeline/src/pipeline/process-record.ts: the life of one record. The port and
-- the handlers are the function's own parameters; spans, milestones and log lines are left out.
use microservices_running.Prelude.{
  ℕ, String, Bool, true, false, Option, none, some, List, [], ◌∷◌, str_eq, if◌then◌else◌,
}
use microservices_running.Effects.{Outcome, returned, threw, Io, ◌>>=◌, ◌>>◌, return, attempt}
use microservices_running.EventsPipeline.Domain.{
  EventStatus, started, in_progress, completed, failed, Envelope, EventDocument, Failure,
  is_transient, error_message, redact_payload,
}

pub record EventsRepositoryPort (W : Type 0) : Type 0 where
  pub insert_started : EventDocument → Io W Failure (Unit {0})
  -- `patch?.error` is the last argument.
  pub transition : String → EventStatus → Option String → Io W Failure (Unit {0})

abbrev pub HandlerMap : Type 0 → Type 0
HandlerMap W = List (String × (Envelope → Io W Failure (Unit {0})))

pub data ProcessRecordResult : Type 0 where
  done : ProcessRecordResult
  not_done : (transient persisted : Bool) → ProcessRecordResult

abbrev pub pipeline_actor : String
pipeline_actor = "events-pipeline"

-- The document that is persisted before dispatch.
unfoldable pub started_document : Envelope → ℕ → EventDocument
started_document envelope now = record {
  event_id = envelope.event_id;
  order_id = envelope.order_id;
  user_id = envelope.user_id;
  type = envelope.type;
  source = envelope.source;
  payload = redact_payload envelope.type envelope.payload;
  status = started;
  error = none;
  status_history = record { status = started; timestamp = now; error = none } ∷ [];
  created_by = envelope.author.actor;
  created_at = now;
  updated_by = pipeline_actor;
  updated_at = now;
  deleted_by = none;
  deleted_at = none;
  is_deleted = false;
}

-- The own-property lookup in the handler map.
unfoldable pub find_handler :
    {W : Type 0} → String → HandlerMap W → Option (Envelope → Io W Failure (Unit {0}))
find_handler type [] = none
find_handler type ((name, handler) ∷ handlers) =
    if str_eq name type then some handler else find_handler type handlers

module _ {W : Type 0} (repository : EventsRepositoryPort W) where
  -- What follows the handler: FAILED with its reason, or COMPLETED.
  unfoldable pub settle : Envelope → Outcome Failure (Unit {0}) → Io W Failure ProcessRecordResult
  settle envelope (threw err) = do
    repository.transition envelope.event_id failed (some (error_message err))
    return (not_done (is_transient err) true)
  settle envelope (returned _) = do
    repository.transition envelope.event_id completed none
    return done

  -- What follows a persisted STARTED document.
  unfoldable pub dispatch :
      Envelope → Option (Envelope → Io W Failure (Unit {0})) → Io W Failure ProcessRecordResult
  unfolding settle
  dispatch envelope none = do
    repository.transition envelope.event_id failed (some "Unknown event type")
    return (not_done false true)
  dispatch envelope (some handler) = do
    repository.transition envelope.event_id in_progress none
    handled ← attempt (handler envelope)
    settle envelope handled

  unfoldable pub after_persist :
      HandlerMap W → Envelope → Outcome Failure (Unit {0}) → Io W Failure ProcessRecordResult
  unfolding dispatch
  after_persist handlers envelope (threw err) = return (not_done (is_transient err) false)
  after_persist handlers envelope (returned _) =
      dispatch envelope (find_handler envelope.type handlers)

  unfoldable pub process_record :
      HandlerMap W → (W → ℕ) → Envelope → Io W Failure ProcessRecordResult
  unfolding after_persist started_document
  process_record handlers now envelope w =
      (do
        persisted ← attempt (repository.insert_started (started_document envelope (now w)))
        after_persist handlers envelope persisted)
        w
