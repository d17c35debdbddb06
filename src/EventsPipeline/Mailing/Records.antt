-- ===== src/EventsPipeline/Mailing/Records.antt =====
-- How many emails one record sends (functions/events-pipeline/src/pipeline/process-record.ts with the
-- dispatch table of handlers).
use microservices_running.Prelude.{
  ℕ, String, Bool, Option, none, some, List, ◌≡◌, ◌⊎◌, inl, inr, refl, ◌∙◌, subst,
}
use microservices_running.Effects.{Outcome, returned, threw, Io, continue}
use microservices_running.EventsPipeline.Domain.{
  Envelope, EventDocument, EventStatus, in_progress, Payload, Failure,
}
use microservices_running.EventsPipeline.Record.{
  EventsRepositoryPort, ProcessRecordResult, done, not_done, started_document, find_handler, settle,
  dispatch, after_persist, process_record,
}
use microservices_running.EventsPipeline.Wire.{Reader}
use microservices_running.EventsPipeline.Email.{SesMessage, MailServices}
use microservices_running.EventsPipeline.Push.{PushServices}
use microservices_running.EventsPipeline.Handlers.Schemas.{recipient}
use microservices_running.EventsPipeline.Handlers.{handlers}
use microservices_running.EventsPipeline.Mailing.{IsMail, OneTo}
use microservices_running.EventsPipeline.Mailing.Dispatch.{MailedFor, handlers-MailedFor}

-- What is relied on: the collection of the events sends no email.
pub record KeepsMail {W : Type 0} (repository : EventsRepositoryPort W) (sent : W → List SesMessage)
    : Type 0 where
  pub insert_keeps :
      (doc : EventDocument) (w : W) → sent (repository.insert_started doc w).1 ≡ sent w
  pub transition_keeps :
      (id : String) (status : EventStatus) (error : Option String) (w : W)
      → sent (repository.transition id status error w).1 ≡ sent w

module _ {W : Type 0} (reader : Reader) (sent : W → List SesMessage) where
  -- One email was sent to the address of the payload.
  abbrev pub OneFor : Payload → (old new : List SesMessage) → Type 0
  OneFor payload old new = (to : String) × (recipient reader payload ≡ some to) × OneTo to old new

  -- A record that is done has sent one email and one that is not done none; where the step throws, one
  -- or none.
  abbrev pub AtMostOne :
      Payload → (old : List SesMessage) → Outcome Failure ProcessRecordResult × W → Type 0
  AtMostOne payload old (returned done, w) = OneFor payload old (sent w)
  AtMostOne payload old (returned (not_done _ _), w) = sent w ≡ old
  AtMostOne payload old (threw _, w) = (sent w ≡ old) ⊎ OneFor payload old (sent w)

  not_done-AtMostOne :
      (payload : Payload) (old : List SesMessage) (transient persisted : Bool)
      (o : Outcome Failure (Unit {0}) × W)
      → sent o.1 ≡ old
      → AtMostOne payload old (continue o (λ _ w. (returned (not_done transient persisted), w)))
  not_done-AtMostOne payload old transient persisted (returned _, w) same = same
  not_done-AtMostOne payload old transient persisted (threw _, w) same = inl same

  done-AtMostOne :
      (payload : Payload) (old : List SesMessage) (o : Outcome Failure (Unit {0}) × W)
      → OneFor payload old (sent o.1)
      → AtMostOne payload old (continue o (λ _ w. (returned done, w)))
  done-AtMostOne payload old (returned _, w) one = one
  done-AtMostOne payload old (threw _, w) one = inr one

module _ {W : Type 0} (repository : EventsRepositoryPort W) (reader : Reader)
    (sent : W → List SesMessage) (keeps : KeepsMail repository sent) where
  settle-AtMostOne :
      (envelope : Envelope) (old : List SesMessage) (o : Outcome Failure (Unit {0}) × W)
      → MailedFor reader sent envelope.payload old o
      → AtMostOne reader sent envelope.payload old (settle repository envelope o.0 o.1)
  unfolding settle
  settle-AtMostOne envelope old (returned _, w) (to, here, (message, same, one)) =
      done-AtMostOne reader sent envelope.payload old _
        (to, here, (message, same, keeps.transition_keeps _ _ _ w ∙ one))
  settle-AtMostOne envelope old (threw _, w) mailed =
      not_done-AtMostOne reader sent envelope.payload old _ _ _
        (keeps.transition_keeps _ _ _ w ∙ mailed)

  dispatch-AtMostOne :
      (envelope : Envelope) (old : List SesMessage)
      (found : Option (Envelope → Io W Failure (Unit {0})))
      → ((handler : Envelope → Io W Failure (Unit {0}))
          → found ≡ some handler
          → (w : W) → MailedFor reader sent envelope.payload (sent w) (handler envelope w))
      → (w : W) → sent w ≡ old
      → AtMostOne reader sent envelope.payload old (dispatch repository envelope found w)
  unfolding dispatch
  dispatch-AtMostOne envelope old none mails w same =
      not_done-AtMostOne reader sent envelope.payload old _ _ _
        (keeps.transition_keeps _ _ _ w ∙ same)
  dispatch-AtMostOne envelope old (some handler) mails w same =
      after (repository.transition envelope.event_id in_progress none w)
        (keeps.transition_keeps _ _ _ w ∙ same)
    where
      after :
          (o : Outcome Failure (Unit {0}) × W)
          → sent o.1 ≡ old
          → AtMostOne reader sent envelope.payload old (
              continue o
                (λ _ w. settle repository envelope (handler envelope w).0 (handler envelope w).1))
      after (returned _, w') here = settle-AtMostOne envelope old (handler envelope w') (
          subst (λ old. MailedFor reader sent envelope.payload old (handler envelope w')) here
            (mails handler refl w'))
      after (threw _, w') here = inl here

module _ {W : Type 0} (repository : EventsRepositoryPort W) (reader : Reader)
    (invalid_fields : Payload → String) (mail : MailServices W) (push : PushServices W)
    (sent : W → List SesMessage) (laws : IsMail mail push sent)
    (keeps : KeepsMail repository sent) where
  -- Let SES send the email of a call that returned and no email for one that threw, and nothing else
  -- that a record calls send one. Under the dispatch table of the handlers, a record that is done has
  -- sent one email, to the address in its payload; one that is not done, retried or not, has sent none;
  -- and where the step itself throws, it has sent one, to that address, or none.
  pub process_record-AtMostOne :
      (now : W → ℕ) (envelope : Envelope) (w : W)
      → AtMostOne reader sent envelope.payload
          (sent w)
          (process_record repository (handlers reader invalid_fields mail push) now envelope w)
  unfolding process_record after_persist
  process_record-AtMostOne now envelope w =
      after (repository.insert_started (started_document envelope (now w)) w)
        (keeps.insert_keeps _ w)
    where
      after :
          (o : Outcome Failure (Unit {0}) × W)
          → sent o.1 ≡ sent w
          → AtMostOne reader sent envelope.payload
              (sent w)
              (after_persist repository (handlers reader invalid_fields mail push) envelope o.0 o.1)
      after (returned _, w') same =
          dispatch-AtMostOne repository reader sent keeps envelope (sent w)
            (find_handler envelope.type (handlers reader invalid_fields mail push))
            (λ handler found w''.
              handlers-MailedFor reader invalid_fields mail push sent laws envelope.type handler
                found envelope w'')
            w' same
      after (threw _, w') same = same
