-- ===== src/EventsPipeline/Mailing.antt =====
-- When the email of an event is sent (functions/events-pipeline/src/email and handlers).
pub mod Dispatch
pub mod Records
mod Examples
use microservices_running.Prelude.{
  ℕ, String, Bool, true, false, Option, none, some, List, [], ◌∷◌, ◌≡◌, ◌≢◌, ◌⊎◌, inl, inr, refl,
  sym, ap, ◌∙◌, subst, arith, str_eq, any, if◌then◌else◌, Bool-cases, Option-cases,
}
use microservices_running.Effects.{Outcome, returned, threw, Outcome-cases, Io, attempt, continue}
use microservices_running.EventsPipeline.Domain.{
  Envelope, EventDocument, EventStatus, Payload, Failure,
}
use microservices_running.EventsPipeline.Record.{
  EventsRepositoryPort, HandlerMap, ProcessRecordResult, done, not_done, started_document,
  find_handler, settle, dispatch, after_persist, process_record,
}
use microservices_running.EventsPipeline.Wire.{Reader, Addressed, addressed}
use microservices_running.EventsPipeline.Email.{
  Props, SesMessage, SendEmailParams, Metric, MailServices, catalog, publish_metric,
  publish_email_metric, render_template, recorded, after_send, send_email,
}
use microservices_running.EventsPipeline.Push.{
  CallError, StatusMessage, PushServices, is_gone, posted, post_all, served, publish_to_user,
}
use microservices_running.EventsPipeline.Handlers.Schemas.{
  UserCreatedPayload, OrderCreatedPayload, CodePayload, TrackingStatusChangedPayload, recipient,
  user_created_schema, order_created_schema, code_schema, tracking_status_changed_schema,
}
use microservices_running.EventsPipeline.Handlers.{
  deliver, user_created_for, user_created_handler, order_created_for, order_created_handler,
  code_for, auth_otp_requested_handler, password_reset_requested_handler, pushed, tracking_for,
  tracking_status_changed_handler, handlers,
}

-- What a send that answered `o` left in the list of the emails sent, the last first.
abbrev pub Sent : SesMessage → Outcome String (Unit {0}) → (old new : List SesMessage) → Type 0
Sent message (returned _) old new = new ≡ message ∷ old
Sent message (threw _) old new = new ≡ old

-- What is relied on: SES sends the email of a call that returned and none for one that threw, and
-- nothing else that the handlers call sends an email.
pub record IsMail {W : Type 0} (mail : MailServices W) (push : PushServices W)
    (sent : W → List SesMessage) : Type 0 where
  pub sends :
      (message : SesMessage) (w : W)
      → Sent message (mail.ses_send message w).0 (sent w) (sent (mail.ses_send message w).1)
  pub metric_keeps : (metric : Metric) (w : W) → sent (mail.put_metric metric w).1 ≡ sent w
  pub render_keeps :
      (key : String) (props : Props) (w : W) → sent (mail.render key props w).1 ≡ sent w
  pub record_keeps :
      (record_email : SendEmailParams → Io W String (Unit {0}))
      → mail.record_email ≡ some record_email
      → (params : SendEmailParams) (w : W) → sent (record_email params w).1 ≡ sent w
  pub query_keeps : (sub : String) (w : W) → sent (push.query_by_cognito_sub sub w).1 ≡ sent w
  pub delete_keeps : (id : String) (w : W) → sent (push.delete_connection id w).1 ≡ sent w
  pub post_keeps :
      (id : String) (message : StatusMessage) (w : W)
      → sent (push.post_to_connection id message w).1 ≡ sent w

-- One email was sent, to `to`.
abbrev pub OneTo : (to : String) (old new : List SesMessage) → Type 0
OneTo to old new = (message : SesMessage) × (message.to ≡ to) × (new ≡ message ∷ old)

module _ {W : Type 0} (sent : W → List SesMessage) where
  -- A step that returned has sent one email to `to`; one that threw has sent none.
  abbrev pub Mailed :
      (to : String) (old : List SesMessage) → Outcome Failure (Unit {0}) × W → Type 0
  Mailed to old (returned _, w) = OneTo to old (sent w)
  Mailed to old (threw _, w) = sent w ≡ old

module _ {W : Type 0} (mail : MailServices W) (push : PushServices W) (sent : W → List SesMessage)
    (laws : IsMail mail push sent) where
  publish_metric-keeps : (metric : Metric) (w : W) → sent (publish_metric mail metric w) ≡ sent w
  unfolding publish_metric
  publish_metric-keeps metric w = either mail.metrics_enabled
    where
      either :
          (enabled : Bool) → sent (if enabled then (mail.put_metric metric w).1 else w) ≡ sent w
      either true = laws.metric_keeps metric w
      either false = refl

  publish_email_metric-keeps :
      (name key : String) (kind : Option String) (w : W)
      → sent (publish_email_metric mail name key kind w) ≡ sent w
  unfolding publish_email_metric
  publish_email_metric-keeps name key kind w = publish_metric-keeps _ _ ∙ publish_metric-keeps _ w

  recorded-keeps :
      (hook : Option (SendEmailParams → Io W String (Unit {0})))
      → mail.record_email ≡ hook
      → (params : SendEmailParams) (w : W) → sent (recorded mail hook params w) ≡ sent w
  unfolding recorded
  recorded-keeps none same params w = refl
  recorded-keeps (some record_email) same params w = laws.record_keeps record_email same params w

  after_send-Mailed :
      (params : SendEmailParams) (message : SesMessage) (old : List SesMessage)
      → message.to ≡ params.to
      → (o : Outcome String (Unit {0}) × W) → Sent message o.0 old (sent o.1)
      → Mailed sent params.to old (after_send mail params o)
  unfolding after_send
  after_send-Mailed params message old to (returned _, w) went = (
    message,
    to,
    recorded-keeps mail.record_email refl params _
        ∙ publish_email_metric-keeps "emails_sent_total" params.template_key none w
        ∙ went,
  )
  after_send-Mailed params message old to (threw _, w) went =
      publish_email_metric-keeps "emails_failed_total" params.template_key (some "transient") w
      ∙ went

  send_email-Mailed :
      (params : SendEmailParams) (w : W) → Mailed sent params.to (sent w) (send_email mail params w)
  unfolding send_email
  send_email-Mailed params w = after_send-Mailed params _ (sent w) refl _ (laws.sends _ w)

  render_template-keeps :
      (key : String) (props : Props) (w : W) → sent (render_template mail key props w).1 ≡ sent w
  unfolding render_template
  render_template-keeps key props w = either (any (λ name. str_eq name key) catalog) _
    where
      either :
          (known : Bool) (e : Failure)
          → sent (
              (if known then mail.render key props w else (
                threw e,
                publish_email_metric mail "emails_failed_total" key (some "permanent") w,
              )).1)
            ≡ sent w
      either true e = laws.render_keeps key props w
      either false e = publish_email_metric-keeps "emails_failed_total" key (some "permanent") w

  pub deliver-Mailed :
      (reader : Reader) (invalid_fields : Payload → String) (key : String) (props : Props)
      (to subject : String) (code : Option String) (w : W)
      → Mailed sent to
          (sent w)
          (deliver reader invalid_fields mail push key props to subject code w)
  unfolding deliver
  deliver-Mailed reader invalid_fields key props to subject code w =
      after (render_template mail key props w) (render_template-keeps key props w)
    where
      after :
          (o : Outcome Failure String × W)
          → sent o.1 ≡ sent w
          → Mailed sent to (sent w) (
              continue o (λ html. send_email mail (record {
                to = to;
                subject = subject;
                html = html;
                template_key = key;
                code = code;
              })))
      after (returned html, w') keeps =
          subst
            (λ old. Mailed sent to old (
              send_email mail
                (record {
                  to = to;
                  subject = subject;
                  html = html;
                  template_key = key;
                  code = code;
                })
                w'))
            keeps (send_email-Mailed _ w')
      after (threw e, w') keeps = keeps

  posted-keeps :
      (id : String) (o : Outcome CallError (Unit {0}) × W) → sent (posted push id o) ≡ sent o.1
  posted-keeps id (returned _, w) = refl
  posted-keeps id (threw error, w) = either (is_gone error)
    where
      either : (gone : Bool) → sent (if gone then (push.delete_connection id w).1 else w) ≡ sent w
      either true = laws.delete_keeps id w
      either false = refl

  post_all-keeps :
      (message : StatusMessage) (ids : List String) (w : W)
      → sent (post_all push message ids w) ≡ sent w
  unfolding post_all
  post_all-keeps message [] w = refl
  post_all-keeps message (id ∷ ids) w =
      post_all-keeps message ids _ ∙ posted-keeps id _ ∙ laws.post_keeps id message w

  pub publish_to_user-keeps :
      (sub : String) (message : StatusMessage) (w : W)
      → sent (publish_to_user push sub message w) ≡ sent w
  unfolding publish_to_user
  publish_to_user-keeps sub message w =
      served-keeps (push.query_by_cognito_sub sub w) ∙ laws.query_keeps sub w
    where
      served-keeps :
          (o : Outcome CallError (List String) × W) → sent (served push message o) ≡ sent o.1
      served-keeps (returned ids, w') = post_all-keeps message ids w'
      served-keeps (threw _, w') = refl
