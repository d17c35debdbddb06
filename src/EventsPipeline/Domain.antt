-- ===== src/EventsPipeline/Domain.antt =====
-- functions/events-pipeline/src/domain and src/pipeline/errors.ts: envelopes, event documents,
-- redaction, and what may be thrown. A `Date` is a number of milliseconds. A payload is a list of
-- fields in which each `unknown` value stands as its JSON text, which no modelled code inspects.
use Prim.Native.String
use microservices_running.Prelude.{
  ℕ, String, Bool, true, false, Option, List, [], ◌∷◌, str_eq, not, keep, if◌then◌else◌,
}

pub data EventStatus : Type 0 where
  started in_progress completed failed : EventStatus

pub record StatusHistoryEntry : Type 0 where
  pub status : EventStatus
  pub timestamp : ℕ
  pub error : Option String

abbrev pub Payload : Type 0
Payload = List (String × String)

pub record Author : Type 0 where
  pub actor : String
  pub user_id : Option String
  pub cognito_sub : Option String

pub record Envelope : Type 0 where
  pub event_id : String
  pub type : String
  pub source : String
  pub user_id : String
  pub order_id : Option String
  pub author : Author
  pub request_id : Option String
  pub run_id : Option String
  pub payload : Payload

pub record EventDocument : Type 0 where
  pub event_id : String
  pub order_id : Option String
  pub user_id : String
  pub type : String
  pub source : String
  pub payload : Payload
  pub status : EventStatus
  pub error : Option String
  pub status_history : List StatusHistoryEntry
  pub created_by : String
  pub created_at : ℕ
  pub updated_by : String
  pub updated_at : ℕ
  pub deleted_by : Option String
  pub deleted_at : Option ℕ
  pub is_deleted : Bool

-- What the code of the pipeline may throw. `duplicate` is `DuplicateEventError`, a subclass of
-- `PermanentError`; `other` is any error that is neither class, with its `name` and `message`.
pub data Failure : Type 0 where
  permanent : (message : String) → Failure
  duplicate : (event_id : String) → Failure
  transient : (message : String) → Failure
  other : (name message : String) → Failure

unfoldable pub is_transient : Failure → Bool
is_transient (permanent _) = false
is_transient (duplicate _) = false
is_transient (transient _) = true
is_transient (other _ _) = true

unfoldable pub error_message : Failure → String
error_message (permanent message) = message
error_message (duplicate event_id) =
    String.◌++◌ "duplicate event: " (String.◌++◌ event_id " has already been persisted")
error_message (transient message) = message
error_message (other _ message) = message

-- The fields that `REDACTED_FIELDS` lists for an event type.
unfoldable pub redacted_fields : String → List String
redacted_fields type =
    if str_eq type "AUTH_OTP_REQUESTED"
    then "code" ∷ []
    else if str_eq type "PASSWORD_RESET_REQUESTED"
    then "code" ∷ []
    else []

-- `delete redacted[field]`
unfoldable pub delete_field : String → Payload → Payload
delete_field name fields = keep (λ field. not (str_eq field.0 name)) fields

-- The loop over the listed fields.
unfoldable pub delete_fields : List String → Payload → Payload
delete_fields [] fields = fields
delete_fields (name ∷ names) fields = delete_fields names (delete_field name fields)

unfoldable pub redact_payload : String → Payload → Payload
unfolding redacted_fields delete_fields delete_field
redact_payload type fields = delete_fields (redacted_fields type) fields
