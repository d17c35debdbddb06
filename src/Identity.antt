-- ===== src/Identity.antt =====
-- The capture of a Cognito identity (services/users/src/features/users/webhooks).
pub mod MessageId
pub mod Reports
pub mod Capture
pub mod Classified
pub mod Recorded
mod Examples
use microservices_running.Prelude.{Option, List}
use microservices_running.Prelude.Texts.{Text}

-- `CognitoWebhookPayload`; `raw` stands for the whole object, which is stored as it is.
pub record CognitoWebhookPayload : Type 0 where
  pub trigger_source : Text
  pub client_id : Text
  pub sub : Text
  pub email : Text
  pub raw : Text

-- `meta.target` of an error of Prisma: absent, a text or a list of names.
pub data Target : Type 0 where
  no_target : Target
  one_target : Text → Target
  targets : List Text → Target

-- What is thrown: `NoMatchingUserError`, with the hash of the address, an error of Prisma with the
-- fields that the code probes, or any other.
pub data CaptureError : Type 0 where
  no_matching_user : (email_hash : Text) → CaptureError
  prisma_error :
      (code : Text)
      → Target
      → (fields : Option (List Text)) → (original_message : Option Text) → CaptureError
  other_error : Text → CaptureError

pub data CaptureResult : Type 0 where
  captured duplicate : CaptureResult
