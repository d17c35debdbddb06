-- ===== src/OtpChallenge/Flow.antt =====
-- A login that Cognito runs over the challenge Lambda
-- (infra/modules/cognito/otp-challenge-lambda/index.mjs): as long as the first trigger asks for a
-- challenge, the second makes one, the third judges the answer, and the round joins the session.
use microservices_running.Prelude.{
  ℕ, true, false, Option, some, List, [], ◌∷◌, ◌++◌, map, length, get_or, ◌≡◌,
}
use microservices_running.Effects.{returned}
use microservices_running.OtpChallenge.{Text}
use microservices_running.OtpChallenge.Events.{Challenge, Event}
use microservices_running.OtpChallenge.Handlers.{
  Runtime, custom_challenge, is_empty, handle_define_auth_challenge, handle_create_auth_challenge,
  handle_verify_auth_challenge_response,
}

-- What the code relies on: `JSON.parse` undoes `JSON.stringify` on `{ code }`, and
-- `timingSafeEqual` of buffers of one length holds only of equal ones.
pub record IsRuntime {W E : Type 0} (runtime : Runtime W E) : Type 0 where
  pub code_in_metadata_of : (code : Text) → runtime.code_in (runtime.metadata_of code) ≡ some code
  pub metadata_of_full : (code : Text) → is_empty (runtime.metadata_of code) ≡ false
  pub timing_safe_equal_eq :
      (a b : List ℕ) → length a ≡ length b → runtime.timing_safe_equal a b ≡ true → a ≡ b

-- A round: its code, the answer, and the entry of the session.
pub record Round : Type 0 where
  pub code : Option Text
  pub answer : Text
  pub challenge : Challenge

module _ {W E : Type 0} (runtime : Runtime W E) (code_length code_ttl_seconds : ℕ)
    (base : Event) where
  abbrev pub entries : List Round → List Challenge
  entries rounds = map (λ (r : Round). r.challenge) rounds

  -- The event of the first two triggers after some rounds.
  abbrev pub event_after : List Round → Event
  event_after rounds = record base {
    request = record base.request { session = some (entries rounds) };
  }

  -- The event of the third.
  abbrev pub event_answered : Option Text → Text → Event
  event_answered code answer = record base {
    request = record base.request { private_code = code; challenge_answer = answer };
  }

  abbrev pub next_round : Event → Text → Round
  next_round made answer =
      let judged =
        handle_verify_auth_challenge_response runtime code_length code_ttl_seconds
          (event_answered made.response.private_code answer) in
      record {
        code = made.response.private_code;
        answer = answer;
        challenge = record {
          challenge_name = custom_challenge;
          challenge_result = get_or judged.response.answer_correct false;
          challenge_metadata = made.response.challenge_metadata;
        };
      }

  abbrev pub AsksOn : List Round → Type 0
  AsksOn rounds =
      let r = (handle_define_auth_challenge (event_after rounds)).response in
      (r.issue_tokens ≡ some false) × (r.fail_authentication ≡ some false)

  pub data Flow : List Round → Type 0 where
    opened : Flow []
    answered :
        {rounds : List Round}
        → Flow rounds
        → AsksOn rounds
        → (w w' : W) (made : Event) (answer : Text)
        → handle_create_auth_challenge runtime code_length code_ttl_seconds (event_after rounds) w
          ≡ (returned made, w')
        → Flow (rounds ++ next_round made answer ∷ [])
