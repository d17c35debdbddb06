-- ===== src/OtpChallenge/Events.antt =====
-- What Cognito hands to the challenge Lambda and what the Lambda publishes
-- (infra/modules/cognito/otp-challenge-lambda/index.mjs).
use microservices_running.Prelude.{
  ℕ, ◌==◌, leb, ltb, Bool, true, false, ◌&&◌, ◌||◌, Option, none, some, List, [], ◌∷◌, length,
  if◌then◌else◌,
}
use microservices_running.Session.{codes}
use microservices_running.OtpChallenge.{Text}

abbrev pub text_eq : Text → Text → Bool
text_eq [] [] = true
text_eq (c ∷ cs) (d ∷ ds) = if c == d then text_eq cs ds else false
text_eq _ _ = false

-- An entry of `event.request.session`.
pub record Challenge : Type 0 where
  pub challenge_name : Text
  pub challenge_result : Bool
  pub challenge_metadata : Option Text

pub record Attributes : Type 0 where
  pub email : Text
  pub sub : Text
  pub name : Option Text

pub record Request : Type 0 where
  pub session : Option (List Challenge)
  pub user_attributes : Attributes
  pub private_code : Option Text
  pub challenge_answer : Text
  pub run_id : Option Text
  pub traceparent : Option Text

pub record Response : Type 0 where
  pub issue_tokens : Option Bool
  pub fail_authentication : Option Bool
  pub challenge_name : Option Text
  pub delivery_medium : Option Text
  pub private_code : Option Text
  pub challenge_metadata : Option Text
  pub answer_correct : Option Bool

pub record Event : Type 0 where
  pub trigger_source : Text
  pub request : Request
  pub response : Response

abbrev pub is_between : ℕ → ℕ → ℕ → Bool
is_between low high c = leb low c && leb c high

-- `[A-Za-z0-9_:.-]`
abbrev pub is_run_char : ℕ → Bool
is_run_char c =
    is_between 65 90 c
    || is_between 97 122 c
    || is_between 48 57 c
    || c == 95
    || c == 58
    || c == 46
    || c == 45

-- `[0-9a-f]`
abbrev pub is_hex : ℕ → Bool
is_hex c = is_between 48 57 c || is_between 97 102 c

abbrev pub is_all : (ℕ → Bool) → Text → Bool
is_all p [] = true
is_all p (c ∷ cs) = p c && is_all p cs

abbrev pub after : (prefix text : Text) → Option Text
after [] text = some text
after (p ∷ ps) [] = none
after (p ∷ ps) (c ∷ cs) = if p == c then after ps cs else none

-- `RUN_ID_RE`
abbrev pub is_run_suffix : Option Text → Bool
is_run_suffix none = false
is_run_suffix (some id) = is_all is_run_char id && ltb 0 (length id) && leb (length id) 64

abbrev pub checked_run_id : Option Text → Option Text
checked_run_id none = none
checked_run_id (some id) = if is_run_suffix (after (codes "run_") id) then some id else none

unfoldable pub safe_run_id_from : Event → Option Text
safe_run_id_from event = checked_run_id event.request.run_id

-- What is published: the envelope, with its queue and the `traceparent` attribute.
pub record OtpEnvelope : Type 0 where
  pub event_id : Text
  pub type : Text
  pub source : Text
  pub user_id : Text
  pub order_id : Option Text
  pub author_actor : Text
  pub author_user_id : Text
  pub author_cognito_sub : Text
  pub email : Text
  pub full_name : Text
  pub code : Text
  pub ttl_seconds : ℕ
  pub run_id : Option Text
  pub traceparent_attribute : Option Text
