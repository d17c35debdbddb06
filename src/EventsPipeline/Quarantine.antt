-- ===== src/EventsPipeline/Quarantine.antt =====
-- functions/events-pipeline/src/pipeline/quarantine.ts: the copy of a refused message to the
-- dead-letter queue. The SQS client's `send` and the variable EVENTS_DLQ_URL are parameters.
use microservices_running.Prelude.{String, Bool, true, false, Option, none, some}
use microservices_running.Effects.{Outcome, returned, threw, Io}
use microservices_running.EventsPipeline.Domain.{Failure}

pub data QuarantineReason : Type 0 where
  invalid_envelope persist_failed unknown_event_type : QuarantineReason

pub record QuarantineInput : Type 0 where
  pub body : String
  pub message_id : String
  pub reason : QuarantineReason

-- The `SendMessageCommand` that is sent.
pub record DlqMessage : Type 0 where
  pub queue_url : String
  pub message_body : String
  pub quarantine_reason : QuarantineReason
  pub original_message_id : String

pub record Dlq (W : Type 0) : Type 0 where
  pub queue_url : Option String
  pub send : DlqMessage → Io W Failure (Unit {0})

unfoldable pub dlq_message : String → QuarantineInput → DlqMessage
dlq_message url input = record {
  queue_url = url;
  message_body = input.body;
  quarantine_reason = input.reason;
  original_message_id = input.message_id;
}

abbrev copied : {W : Type 0} → Outcome Failure (Unit {0}) × W → Bool × W
copied (returned _, w) = (true, w)
copied (threw _, w) = (false, w)

-- Whether the copy landed. It returns on every path.
unfoldable pub quarantine : {W : Type 0} → Dlq W → QuarantineInput → W → Bool × W
unfolding dlq_message
quarantine dlq input w = elim dlq.queue_url [
  | none ↦ (false, w)
  | some url ↦ copied (dlq.send (dlq_message url input) w)
]
