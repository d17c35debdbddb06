-- ===== src/EventsPipeline/Mailing/Examples.antt =====
-- The welcome email of a new user, with an SES that sends every email.
use microservices_running.Prelude.{String, true, Option, none, some, List, [], ◌∷◌, refl, sym, ap}
use microservices_running.Effects.{returned, Io}
use microservices_running.EventsPipeline.Domain.{Envelope}
use microservices_running.EventsPipeline.Record.{EventsRepositoryPort, process_record}
use microservices_running.EventsPipeline.Wire.{Reader, text}
use microservices_running.EventsPipeline.Email.{MailServices, SesMessage, SendEmailParams}
use microservices_running.EventsPipeline.Push.{PushServices}
use microservices_running.EventsPipeline.Handlers.{handlers}
use microservices_running.EventsPipeline.Mailing.{IsMail}
use microservices_running.EventsPipeline.Mailing.Records.{
  KeepsMail, AtMostOne, process_record-AtMostOne,
}

-- Every text stands for itself, and every text is an address.
abbrev plain : Reader
plain = record { parsed = text; is_email = λ _. true }

abbrev outbox : MailServices (List SesMessage)
outbox = record {
  from_address = "no-reply@example.com";
  metrics_enabled = true;
  ses_send = λ message w. (returned tt, message ∷ w);
  put_metric = λ metric w. (returned tt, w);
  render = λ key props w. (returned "<p>Welcome</p>", w);
  record_email = some (λ params w. (returned tt, w));
}

abbrev no_sockets : PushServices (List SesMessage)
no_sockets = record {
  query_by_cognito_sub = λ sub w. (returned [], w);
  delete_connection = λ id w. (returned tt, w);
  post_to_connection = λ id message w. (returned tt, w);
}

abbrev collection : EventsRepositoryPort (List SesMessage)
collection = record {
  insert_started = λ doc w. (returned tt, w);
  transition = λ id status error w. (returned tt, w);
}

abbrev welcome : Envelope
welcome = record {
  event_id = "evt_1";
  type = "USER_CREATED";
  source = "users";
  user_id = "usr_1";
  order_id = none;
  author = record { actor = "users_api:register"; user_id = some "usr_1"; cognito_sub = none };
  request_id = none;
  run_id = none;
  payload =
      ("fullName", "Ada")
      ∷ ("email", "ada@example.com")
      ∷ ("userId", "usr_1")
      ∷ ("createdAt", "2026-08-05T12:00:00Z")
      ∷ [];
}

abbrev hook_of :
    Option (SendEmailParams → Io (List SesMessage) String (Unit {0}))
    → SendEmailParams
    → Io (List SesMessage) String (Unit {0})
hook_of none params w = (returned tt, w)
hook_of (some record_email) params w = record_email params w

outbox-IsMail : IsMail outbox no_sockets (λ w. w)
outbox-IsMail = record {
  sends = λ message w. refl;
  metric_keeps = λ metric w. refl;
  render_keeps = λ key props w. refl;
  record_keeps = λ record_email same params w. sym (ap (λ hook. (hook_of hook params w).1) same);
  query_keeps = λ sub w. refl;
  delete_keeps = λ id w. refl;
  post_keeps = λ id message w. refl;
}

collection-KeepsMail : KeepsMail collection (λ w. w)
collection-KeepsMail = record {
  insert_keeps = λ doc w. refl;
  transition_keeps = λ id status error w. refl;
}

process_record-AtMostOne_example :
    AtMostOne plain
      (λ w. w)
      welcome.payload
      []
      (process_record collection (handlers plain (λ _. "") outbox no_sockets) (λ _. 0) welcome [])
process_record-AtMostOne_example =
    process_record-AtMostOne collection plain (λ _. "") outbox no_sockets (λ w. w) outbox-IsMail
      collection-KeepsMail (λ _. 0) welcome []
