-- ===== src/Identity/Capture.antt =====
-- `CaptureCognitoIdentityCommand` (services/users/src/features/users/webhooks/
-- capture-cognito-identity.ts). Logs and spans are left out.
use microservices_running.Prelude.{
  Bool, true, false, Option, none, some, List, ◌∷◌, ◌&&◌, ◌||◌, any, keep, length, if◌then◌else◌,
  ◌≡◌, ◌≤◌,
}
use microservices_running.Prelude.Texts.{Text, same_text, includes}
use microservices_running.Effects.{Outcome, returned, threw, Io, ◌>>=◌}
use microservices_running.Session.{codes}
use microservices_running.Identity.{
  CognitoWebhookPayload, Target, no_target, one_target, targets, CaptureError, no_matching_user,
  prisma_error, other_error, CaptureResult, captured, duplicate,
}
use microservices_running.Identity.MessageId.{derive_message_id}
use microservices_running.Identity.Reports.{Reports}

abbrev pub message_id : Text
message_id = codes "message_id"

abbrev pub names : Target → Bool
names no_target = false
names (one_target text) = includes message_id text
names (targets fields) = any (same_text message_id) fields

abbrev pub has_field : Option (List Text) → Bool
has_field none = false
has_field (some fields) = any (same_text message_id) fields

abbrev pub says : Option Text → Bool
says none = false
says (some message) = includes message_id message

unfoldable pub is_message_id_conflict : CaptureError → Bool
is_message_id_conflict (no_matching_user email_hash) = false
is_message_id_conflict (other_error message) = false
is_message_id_conflict (prisma_error code target fields original_message) =
    same_text code (codes "P2002") && (names target || has_field fields || says original_message)

-- A row of `users_cognito_events`.
pub record IdentityEvent : Type 0 where
  pub id : Text
  pub cognito_sub : Text
  pub event_type : Text
  pub message_id : Text
  pub raw_payload : Text

-- What the upsert writes of `users_cognito_data`, `id` and `user_id` only where it creates the row.
pub record Snapshot : Type 0 where
  pub id : Text
  pub user_id : Text
  pub cognito_sub : Text
  pub email : Text
  pub client_id : Text
  pub last_event_type : Text
  pub raw_payload : Text

-- The database, the ids and the two digests. `upsert` is the nested write: the snapshot and one more
-- event of it. `events` is the content of the table of events.
pub record IdentityServices (W : Type 0) : Type 0 where
  pub events : W → List IdentityEvent
  pub sha256 : Text → Text
  pub hash_email : Text → Text
  pub generate_id : (prefix : Text) → W → Text × W
  pub find_user : (email : Text) → Io W CaptureError (Option Text)
  pub upsert : Snapshot → IdentityEvent → Io W CaptureError (Unit {0})

module _ {W : Type 0} (services : IdentityServices W) where
  abbrev pub message_id_of : CognitoWebhookPayload → Text
  message_id_of payload = derive_message_id services.sha256 payload.sub payload.trigger_source

  abbrev pub event_of : CognitoWebhookPayload → (event_id : Text) → IdentityEvent
  event_of payload event_id = record {
    id = event_id;
    cognito_sub = payload.sub;
    event_type = payload.trigger_source;
    message_id = message_id_of payload;
    raw_payload = payload.raw;
  }

  abbrev pub snapshot_of : CognitoWebhookPayload → (snapshot_id user_id : Text) → Snapshot
  snapshot_of payload snapshot_id user_id = record {
    id = snapshot_id;
    user_id = user_id;
    cognito_sub = payload.sub;
    email = payload.email;
    client_id = payload.client_id;
    last_event_type = payload.trigger_source;
    raw_payload = payload.raw;
  }

  -- The `catch` around the write.
  abbrev pub concluded :
      Outcome CaptureError (Unit {0}) × W → Outcome CaptureError CaptureResult × W
  concluded (returned _, w) = (returned captured, w)
  concluded (threw err, w) =
      (if is_message_id_conflict err then returned duplicate else threw err, w)

  abbrev pub write_for :
      CognitoWebhookPayload
      → (snapshot_id event_id : Text) → Option Text
      → Io W CaptureError CaptureResult
  write_for payload snapshot_id event_id none w =
      (threw (no_matching_user (services.hash_email payload.email)), w)
  write_for payload snapshot_id event_id (some user_id) w =
      concluded
        (services.upsert (snapshot_of payload snapshot_id user_id) (event_of payload event_id) w)

  -- `doExecute`.
  unfoldable pub execute : CognitoWebhookPayload → Io W CaptureError CaptureResult
  execute payload w =
      let (snapshot_id, w₁) = services.generate_id (codes "ucd_") w in
      let (event_id, w₂) = services.generate_id (codes "cge_") w₁ in
      (services.find_user payload.email >>= write_for payload snapshot_id event_id) w₂

-- The events of a user and a trigger.
abbrev pub is_event : (sub trigger_source : Text) → IdentityEvent → Bool
is_event sub trigger_source event =
    same_text event.cognito_sub sub && same_text event.event_type trigger_source

abbrev pub has_message_id : Text → IdentityEvent → Bool
has_message_id id event = same_text event.message_id id

-- What an upsert leaves: one more event if it returned, else what was there, and the error reports
-- the unique constraint on `message_id` only if an event has the key.
abbrev pub Upserted :
    Outcome CaptureError (Unit {0}) → IdentityEvent → (old new : List IdentityEvent) → Type 0
Upserted (returned _) event old new = new ≡ event ∷ old
Upserted (threw err) event old new =
    (new ≡ old)
    × (Reports (codes "message_id") err → any (has_message_id event.message_id) old ≡ true)

-- What the code relies on: reads write no event and report no violated constraint, the write is one
-- transaction, and the key of an event is unique.
pub record IsIdentity {W : Type 0} (services : IdentityServices W) : Type 0 where
  pub generate_reads :
      (prefix : Text) (w : W)
      → services.events (services.generate_id prefix w).1 ≡ services.events w
  pub find_reads :
      (email : Text) (w : W) → services.events (services.find_user email w).1 ≡ services.events w
  pub find_reports :
      (email : Text) (err : CaptureError) (w : W)
      → (services.find_user email w).0 ≡ threw err
      → ¬ Reports (codes "message_id") err
  pub upsert_writes :
      (snapshot : Snapshot) (event : IdentityEvent) (w : W)
      → let (o, w') = services.upsert snapshot event w in
        Upserted o event (services.events w) (services.events w')
  pub unique_message_id :
      (id : Text) (w : W) → length (keep (has_message_id id) (services.events w)) ≤ 1
