-- ===== src/EventsPipeline/Repository.antt =====
-- functions/events-pipeline/src/shared/db/events-repository.ts over the MongoDB driver, whose calls
-- are parameters. `find` only observes a collection, for the statements: no code calls it.
use microservices_running.Prelude.{
  ℕ, String, Bool, true, false, Option, none, some, [], ◌∷◌, ◌++◌, ◌==◌, ◌≡◌, ◌≢◌, if◌then◌else◌,
}
use mathlib.Core.Option
use microservices_running.Effects.{Outcome, returned, threw, Io, ◌>>◌}
use microservices_running.EventsPipeline.Domain.{
  EventStatus, StatusHistoryEntry, EventDocument, Failure, duplicate, other,
}
use microservices_running.EventsPipeline.Record.{EventsRepositoryPort, pipeline_actor}

pub record DriverError : Type 0 where
  pub code : Option ℕ
  pub name : String
  pub message : String

-- The `$set` and `$push` of one `updateOne`; `set_error` is `none` where the key is left out.
pub record DocumentUpdate : Type 0 where
  pub set_status : EventStatus
  pub set_updated_at : ℕ
  pub set_updated_by : String
  pub set_error : Option String
  pub push_status_history : StatusHistoryEntry

pub record MongoDriver (W : Type 0) : Type 0 where
  pub insert_one : EventDocument → W → Option DriverError × W
  pub update_one : String → DocumentUpdate → W → Option DriverError × W
  pub find : W → String → Option EventDocument

abbrev pub mongo_duplicate_key : ℕ
mongo_duplicate_key = 11000

unfoldable pub is_duplicate_key_error : DriverError → Bool
is_duplicate_key_error err = elim err.code [
  | none ↦ false
  | some code ↦ code == mongo_duplicate_key
]

-- What `$set` and `$push` do to a document, as MongoDB documents them.
abbrev pub apply_update : DocumentUpdate → EventDocument → EventDocument
apply_update u doc = record doc {
  status = u.set_status;
  updated_at = u.set_updated_at;
  updated_by = u.set_updated_by;
  error = elim u.set_error [ none ↦ doc.error | some e ↦ some e ];
  status_history = doc.status_history ++ u.push_status_history ∷ [];
}

-- The translation of a driver error into the pipeline's taxonomy.
unfoldable pub translate : EventDocument → DriverError → Failure
unfolding is_duplicate_key_error
translate doc err =
    if is_duplicate_key_error err then duplicate doc.event_id else other err.name err.message

abbrev inserted :
    {W : Type 0} → EventDocument → Option DriverError × W → Outcome Failure (Unit {0}) × W
inserted doc (none, w) = (returned tt, w)
inserted doc (some err, w) = (threw (translate doc err), w)

abbrev updated : {W : Type 0} → Option DriverError × W → Outcome Failure (Unit {0}) × W
updated (none, w) = (returned tt, w)
updated (some err, w) = (threw (other err.name err.message), w)

unfoldable pub transition_update : EventStatus → Option String → ℕ → DocumentUpdate
transition_update status error at = record {
  set_status = status;
  set_updated_at = at;
  set_updated_by = pipeline_actor;
  set_error = error;
  push_status_history = record { status = status; timestamp = at; error = error };
}

module _ {W : Type 0} (driver : MongoDriver W) (now : W → ℕ) where
  unfoldable pub insert_started : EventDocument → Io W Failure (Unit {0})
  unfolding translate
  insert_started doc w = inserted doc (driver.insert_one doc w)

  unfoldable pub transition : String → EventStatus → Option String → Io W Failure (Unit {0})
  unfolding transition_update
  transition event_id status error w =
      updated (driver.update_one event_id (transition_update status error (now w)) w)

  unfoldable pub mongo_repository : EventsRepositoryPort W
  unfolding insert_started transition
  mongo_repository = record { insert_started = insert_started; transition = transition }

-- `createIndex` calls of `ensureIndexes`, by their key; `event_id` alone is unique.
pub data IndexKey : Type 0 where
  event_id order_id user_id type status created_at : IndexKey

unfoldable pub ensure_indexes :
    {W : Type 0} → (IndexKey → (unique : Bool) → Io W Failure (Unit {0})) → Io W Failure (Unit {0})
ensure_indexes create_index = do
  create_index event_id true
  create_index order_id false
  create_index user_id false
  create_index type false
  create_index status false
  create_index created_at false

-- What the code relies on. The unique index on `event_id` refuses a second document with an error
-- of code 11000, or the call fails in another way; no call removes a document or touches another
-- one. Nothing is assumed of the document itself where a call fails.
pub record IsMongo {W : Type 0} (driver : MongoDriver W) : Type 0 where
  pub insert_stores :
      (doc : EventDocument) (w : W)
      → (driver.insert_one doc w).0 ≡ none
      → driver.find (driver.insert_one doc w).1 doc.event_id ≡ some doc
  pub insert_unique :
      (doc : EventDocument) (w : W)
      → (driver.insert_one doc w).0 ≡ none
      → driver.find w doc.event_id ≡ none
  pub conflict_has_document :
      (doc : EventDocument) (w : W) (err : DriverError)
      → (driver.insert_one doc w).0 ≡ some err
      → is_duplicate_key_error err ≡ true
      → driver.find w doc.event_id ≢ none
  pub insert_keeps :
      (doc : EventDocument) (w : W) (id : String)
      → driver.find w id ≢ none
      → driver.find (driver.insert_one doc w).1 id ≡ driver.find w id
  pub update_keeps :
      (event_id : String) (u : DocumentUpdate) (w : W) (id : String)
      → driver.find w id ≢ none
      → driver.find (driver.update_one event_id u w).1 id ≢ none
  pub update_applies :
      (event_id : String) (u : DocumentUpdate) (w : W)
      → (driver.update_one event_id u w).0 ≡ none
      → driver.find (driver.update_one event_id u w).1 event_id
        ≡ Option.map (apply_update u) (driver.find w event_id)
