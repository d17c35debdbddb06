-- ===== src/OtpChallenge/Handlers.antt =====
-- The three triggers (`handler` of infra/modules/cognito/otp-challenge-lambda/index.mjs). The log
-- lines are left out; they never carry the code.
use microservices_running.Prelude.{
  ℕ, ◌==◌, leb, Bool, true, false, Option, none, some, List, [], ◌∷◌, ◌++◌, length, keep, get_or,
  if◌then◌else◌,
}
use microservices_running.Effects.{Outcome, returned, Io, continue}
use microservices_running.Session.{codes}
use microservices_running.OtpChallenge.{Text}
use microservices_running.OtpChallenge.Code.{decimal, generate_code}
use microservices_running.OtpChallenge.Events.{text_eq, Challenge, Event, OtpEnvelope}
use microservices_running.OtpChallenge.Publishing.{envelope_of}

abbrev pub max_attempts : ℕ
max_attempts = 3

abbrev pub custom_challenge : Text
custom_challenge = codes "CUSTOM_CHALLENGE"

-- `sessions[sessions.length - 1]`
abbrev pub last_of {ℓ} : {A : Type ℓ} → List A → Option A
last_of [] = none
last_of (x ∷ []) = some x
last_of (x ∷ y ∷ ys) = last_of (y ∷ ys)

abbrev pub is_correct : Option Challenge → Bool
is_correct none = false
is_correct (some last) = last.challenge_result

abbrev pub is_custom : Challenge → Bool
is_custom s = text_eq s.challenge_name custom_challenge

abbrev pub with_tokens : Event → Event
with_tokens event = record event {
  response = record event.response { issue_tokens = some true; fail_authentication = some false };
}

abbrev pub with_failure : Event → Event
with_failure event = record event {
  response = record event.response { issue_tokens = some false; fail_authentication = some true };
}

abbrev pub with_challenge : Event → Event
with_challenge event = record event {
  response = record event.response {
    issue_tokens = some false;
    fail_authentication = some false;
    challenge_name = some custom_challenge;
  };
}

unfoldable pub handle_define_auth_challenge : Event → Event
handle_define_auth_challenge event =
    let sessions = get_or event.request.session [] in
    if is_correct (last_of sessions)
    then with_tokens event
    else if leb max_attempts (length (keep is_custom sessions))
    then with_failure event
    else with_challenge event

-- What the Lambda uses that is not its own: the random numbers and the clock, SQS, `JSON` on the
-- object `{ code }` (`code_in` is its `code` if the text parses and that is a text), and
-- the bytes of a text and their comparison.
pub record Runtime (W E : Type 0) : Type 0 where
  pub random_int : (max : ℕ) → W → ℕ × W
  pub now : W → ℕ
  pub publish : OtpEnvelope → Io W E (Unit {0})
  pub metadata_of : (code : Text) → Text
  pub code_in : (metadata : Text) → Option Text
  pub utf8 : Text → List ℕ
  pub timing_safe_equal : List ℕ → List ℕ → Bool

abbrev pub is_empty : Text → Bool
is_empty [] = true
is_empty (_ ∷ _) = false

-- A text that is there and not empty.
abbrev pub truthy : Option Text → Option Text
truthy none = none
truthy (some text) = if is_empty text then none else some text

abbrev pub metadata_in : Option Challenge → Option Text
metadata_in none = none
metadata_in (some previous) = truthy previous.challenge_metadata

module _ {W E : Type 0} (runtime : Runtime W E) (code_length code_ttl_seconds : ℕ) where
  abbrev pub code_from : Option Text → Option Text
  code_from none = none
  code_from (some metadata) = truthy (runtime.code_in metadata)

  -- The code of the previous round, if it can be used again.
  abbrev pub reused_code : Event → Option Text
  reused_code event = code_from (metadata_in (last_of (get_or event.request.session [])))

  abbrev pub challenge_id : Event → W → Text
  challenge_id event w =
      codes "otp_" ++ event.request.user_attributes.sub ++ codes "_" ++ decimal (runtime.now w)

  abbrev pub with_code : Text → Event → Event
  with_code code event = record event {
    response = record event.response {
      delivery_medium = some (codes "EMAIL");
      private_code = some code;
      challenge_metadata = some (runtime.metadata_of code);
    };
  }

  -- `publishOtpRequested`, then the response.
  abbrev pub published : Event → Text × W → Outcome E Event × W
  published event (code, w) =
      continue (runtime.publish (envelope_of code_ttl_seconds event code (challenge_id event w)) w)
        (λ _ w'. (returned (with_code code event), w'))

  unfoldable pub handle_create_auth_challenge : Event → Io W E Event
  handle_create_auth_challenge event w = elim (reused_code event) [
    | some code ↦ (returned (with_code code event), w)
    | none ↦ published event (generate_code runtime.random_int code_length w)
  ]

  unfoldable pub constant_time_equals : (expected submitted : Text) → Bool
  constant_time_equals expected submitted =
      let a = runtime.utf8 expected in
      let b = runtime.utf8 submitted in
      if length a == length b then runtime.timing_safe_equal a b else false

  abbrev pub answer_correct : Option Text → Text → Bool
  answer_correct none submitted = false
  answer_correct (some expected) submitted =
      if is_empty expected then false else constant_time_equals expected submitted

  unfoldable pub handle_verify_auth_challenge_response : Event → Event
  handle_verify_auth_challenge_response event = record event {
    response = record event.response {
      answer_correct =
          some (answer_correct event.request.private_code event.request.challenge_answer);
    };
  }

  unfoldable pub handler : Event → Io W E Event
  handler event w =
      if text_eq event.trigger_source (codes "DefineAuthChallenge_Authentication")
      then (returned (handle_define_auth_challenge event), w)
      else if text_eq event.trigger_source (codes "CreateAuthChallenge_Authentication")
      then handle_create_auth_challenge event w
      else if text_eq event.trigger_source (codes "VerifyAuthChallengeResponse_Authentication")
      then (returned (handle_verify_auth_challenge_response event), w)
      else (returned event, w)
