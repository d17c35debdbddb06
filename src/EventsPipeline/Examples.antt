-- ===== src/EventsPipeline/Examples.antt =====
-- A collection in memory that satisfies what is assumed of MongoDB, and the theorems at it.
use mathlib.Core.Option
use microservices_running.Prelude.{
  ℕ, String, Bool, true, false, Option, none, some, List, [], ◌∷◌, ◌≡◌, ◌≢◌, ◌⊎◌, inl, refl, arith,
  not, find_first, str_eq, str_eq_iff, str_eq_refl, if◌then◌else◌,
}
use microservices_running.Effects.{returned, threw}
use microservices_running.EventsPipeline.Domain.{Envelope, EventDocument, transient, is_transient}
use microservices_running.EventsPipeline.Record.{
  HandlerMap, done, started_document, process_record, find_handler,
}
use microservices_running.EventsPipeline.Repository.{
  DriverError, DocumentUpdate, MongoDriver, mongo_repository, IsMongo, apply_update,
  is_duplicate_key_error,
}
use microservices_running.EventsPipeline.Quarantine.{Dlq}
use microservices_running.EventsPipeline.Batch.{
  SqsRecord, Bootstrap, process_one_record, process_record_safely, process_records, process_batch,
  observe, beside_all,
}
use microservices_running.EventsPipeline.Delivery
use microservices_running.EventsPipeline.Delivery.{
  stored_event_not_retried, redelivery_only_inserts,
}
use microservices_running.EventsPipeline.Batches.{Lists, batch_loses_nothing}
use microservices_running.EventsPipeline.Lifecycle.{LeftBy, process_record_history}

abbrev Memory : Type 0
Memory = List EventDocument

abbrev conflict : DriverError
conflict = record { code = some 11000; name = "MongoServerError"; message = "E11000" }

abbrev has_id : String → EventDocument → Bool
has_id id doc = str_eq doc.event_id id

-- `updateOne` changes the one document that has the id.
abbrev update_memory : String → DocumentUpdate → Memory → Memory
update_memory id u [] = []
update_memory id u (doc ∷ w) =
    if str_eq doc.event_id id then apply_update u doc ∷ w else doc ∷ update_memory id u w

abbrev insert_memory : EventDocument → Memory → Option DriverError × Memory
insert_memory doc w = elim (find_first (has_id doc.event_id) w) [
  | none ↦ (none, doc ∷ w)
  | some _ ↦ (some conflict, w)
]

abbrev memory : MongoDriver Memory
memory = record {
  insert_one = insert_memory;
  update_one = λ id u w. (none, update_memory id u w);
  find = λ w id. find_first (has_id id) w;
}

update_memory_find :
    (id : String) (u : DocumentUpdate) (w : Memory)
    → find_first (has_id id) (update_memory id u w)
      ≡ Option.map (apply_update u) (find_first (has_id id) w)
update_memory_find id u [] = refl
update_memory_find id u (doc ∷ w) = ground (arith, update_memory_find id u w)

update_memory_keeps :
    (id : String) (u : DocumentUpdate) (w : Memory) (j : String)
    → find_first (has_id j) w ≢ none
    → find_first (has_id j) (update_memory id u w) ≢ none
update_memory_keeps id u [] j h = h
update_memory_keeps id u (doc ∷ w) j h = ground (arith, update_memory_keeps id u w j)

memory-IsMongo : IsMongo memory
unfolding is_duplicate_key_error
memory-IsMongo = record {
  insert_stores = λ doc w h. ground (arith, str_eq_refl doc.event_id);
  insert_unique = λ doc w h. ground arith;
  conflict_has_document = λ doc w err h d. ground arith;
  insert_keeps = λ doc w id h. ground (arith, str_eq_iff doc.event_id id);
  update_keeps = λ id u w j h. update_memory_keeps id u w j h;
  update_applies = λ id u w h. update_memory_find id u w;
}

abbrev placed : Envelope
placed = record {
  event_id = "evt_1";
  type = "ORDER_CREATED";
  source = "orders_api";
  user_id = "usr_1";
  order_id = some "ord_1";
  author = record { actor = "orders_api:create_order"; user_id = none; cognito_sub = none };
  request_id = none;
  run_id = none;
  payload = ("email", "a@b.c") ∷ [];
}

abbrev clock : Memory → ℕ
clock _ = 7

-- A mail service that is down, and one that is up.
abbrev failing : HandlerMap Memory
failing = ("ORDER_CREATED", λ _ w. (threw (transient "SES send failed"), w)) ∷ []

abbrev sending : HandlerMap Memory
sending = ("ORDER_CREATED", λ _ w. (returned tt, w)) ∷ []

abbrev no_dlq : Dlq Memory
no_dlq = record { queue_url = none; send = λ _ w. (returned tt, w) }

abbrev message : SqsRecord
message = record { message_id = "m1"; body = "{}" }

pipeline : Unit {0}
unfolding process_record mongo_repository is_transient find_handler process_one_record
    process_record_safely process_records process_batch observe beside_all is_duplicate_key_error
pipeline = tt

-- The first delivery is reported for redelivery, the second is acknowledged, with FAILED kept.
retry_is_dropped :
    let deliver = process_one_record (mongo_repository memory clock) failing clock no_dlq in
    let first = deliver placed message [] in
    let second = deliver placed message first.1 in
    (first.0 ≡ true) × (second.0 ≡ false) × (second.1 ≡ first.1)
unfolding pipeline
retry_is_dropped = (refl, refl, refl)

stored_event_not_retried_example :
    let first = Delivery.deliver memory clock failing no_dlq placed message [] in
    (err : DriverError) × ((insert_memory (started_document placed 7) first.1).0 ≡ some err)
    × (Delivery.deliver memory clock failing no_dlq placed message first.1
        ≡ (not (is_duplicate_key_error err), (insert_memory (started_document placed 7) first.1).1))
unfolding started_document
stored_event_not_retried_example =
    stored_event_not_retried memory clock failing no_dlq memory-IsMongo ((λ _ _ _ h. h), tt) placed
      message message []
      (process_one_record (mongo_repository memory clock) failing clock no_dlq placed message []).1
      refl refl

process_record_history_example :
    (doc : EventDocument) × (find_first
        (has_id "evt_1")
        (process_record (mongo_repository memory clock) sending clock placed []).1
      ≡ some doc)
    × LeftBy done doc
unfolding pipeline started_document
process_record_history_example =
    process_record_history memory clock sending memory-IsMongo ((λ _ _ _. refl), tt) placed [] done
      refl refl

abbrev up : Bootstrap Memory
up = record {
  connect = λ w. (returned tt, w);
  create_index = λ _ _ w. (returned tt, w);
  create_e2e_indexes = λ w. (returned tt, w);
  e2e_testing_enabled = false;
}

abbrev parse : String → Option Envelope
parse _ = some placed

abbrev batch_result : List String × Bool × Memory
batch_result =
    process_batch (mongo_repository memory clock) failing clock no_dlq parse up false (message ∷ [])
      []

batch_loses_nothing_example :
    Lists "m1" batch_result.0 ⊎ (find_first (has_id "evt_1") batch_result.2 ≢ none)
batch_loses_nothing_example =
    batch_loses_nothing memory clock failing no_dlq parse memory-IsMongo ((λ _ _ _ h. h), tt)
      (λ _ _ _ h. h) up false (message ∷ []) message placed [] (inl refl) refl
