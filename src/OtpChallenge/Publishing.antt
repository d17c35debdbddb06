-- ===== src/OtpChallenge/Publishing.antt =====
-- What the challenge Lambda publishes (`publishOtpRequested` of
-- infra/modules/cognito/otp-challenge-lambda/index.mjs).
use microservices_running.Prelude.{ℕ, Option, none, some, [], ◌++◌, get_or, if◌then◌else◌}
use microservices_running.Session.{codes}
use microservices_running.OtpChallenge.{Text}
use microservices_running.OtpChallenge.Events.{Event, OtpEnvelope, safe_run_id_from}
use microservices_running.OtpChallenge.Traceparent.{is_traceparent}

abbrev pub checked_traceparent : Option Text → Option Text
checked_traceparent none = none
checked_traceparent (some text) = if is_traceparent text then some text else none

abbrev pub traceparent_attribute : Event → Option Text
traceparent_attribute event = checked_traceparent event.request.traceparent

abbrev pub envelope_of : (code_ttl_seconds : ℕ) → Event → (code challenge_id : Text) → OtpEnvelope
envelope_of code_ttl_seconds event code challenge_id =
    let user = event.request.user_attributes in
    record {
      event_id = codes "evt_" ++ challenge_id;
      type = codes "AUTH_OTP_REQUESTED";
      source = codes "users";
      user_id = user.sub;
      order_id = none;
      author_actor = codes "users_api:otp_challenge";
      author_user_id = user.sub;
      author_cognito_sub = user.sub;
      email = user.email;
      full_name = get_or user.name [];
      code = code;
      ttl_seconds = code_ttl_seconds;
      run_id = safe_run_id_from event;
      traceparent_attribute = traceparent_attribute event;
    }
