-- ===== src/OtpChallenge/Examples.antt =====
-- The theorems on the challenge Lambda at a login of two rounds.
use microservices_running.Prelude.{
  ℕ, ◌+◌, ◌≤◌, true, none, some, List, [], ◌∷◌, length, All, ◌≡◌, refl, arith,
}
use microservices_running.Effects.{Outcome, returned, threw}
use microservices_running.Session.{codes}
use microservices_running.OtpChallenge.{Text}
use microservices_running.OtpChallenge.Code.{
  generate_code, value_from, IsDigit, length-generate_code,
}
use microservices_running.OtpChallenge.Events.{text_eq, Event}
use microservices_running.OtpChallenge.Traceparent.{
  is_traceparent, has_shape, is_traceparent-has_shape,
}
use microservices_running.OtpChallenge.Handlers.{
  Runtime, handle_define_auth_challenge, handle_create_auth_challenge,
  handle_verify_auth_challenge_response, constant_time_equals, last_of,
}
use microservices_running.OtpChallenge.Flow.{
  IsRuntime, Round, Flow, opened, answered, event_after, next_round,
}
use microservices_running.OtpChallenge.Login.{OneCode, Flow-OneCode, Flow-tokens}

-- The world counts the messages that were published.
abbrev runtime : Runtime ℕ (Unit {0})
runtime = record {
  random_int = λ max w. (7, w);
  now = λ w. 5;
  publish = λ envelope w. (returned tt, w + 1);
  metadata_of = λ code. 123 ∷ code;
  code_in = λ metadata. elim metadata [ [] ↦ none | _ ∷ code ↦ some code ];
  utf8 = λ text. text;
  timing_safe_equal = text_eq;
}

text_eq_sound : (a b : Text) → text_eq a b ≡ true → a ≡ b
text_eq_sound [] [] same = refl
text_eq_sound [] (b ∷ ys) same = ground (arith, same)
text_eq_sound (a ∷ xs) [] same = ground (arith, same)
text_eq_sound (a ∷ xs) (b ∷ ys) same = grind (arith, same, text_eq_sound xs ys)

runtime-IsRuntime : IsRuntime runtime
runtime-IsRuntime = record {
  code_in_metadata_of = λ code. refl;
  metadata_of_full = λ code. refl;
  timing_safe_equal_eq = λ a b same equal. text_eq_sound a b equal;
}

abbrev login : Event
login = record {
  trigger_source = codes "DefineAuthChallenge_Authentication";
  request = record {
    session = none;
    user_attributes = record { email = codes "ana@x.do"; sub = codes "ana"; name = none };
    private_code = none;
    challenge_answer = [];
    run_id = none;
    traceparent = none;
  };
  response = record {
    issue_tokens = none;
    fail_authentication = none;
    challenge_name = none;
    delivery_medium = none;
    private_code = none;
    challenge_metadata = none;
    answer_correct = none;
  };
}

abbrev event_of : Outcome (Unit {0}) Event × ℕ → Event
event_of (returned event, w) = event
event_of (threw e, w) = login

abbrev made : List Round → Event
made rounds =
    event_of (handle_create_auth_challenge runtime 2 300 (event_after runtime 2 300 login rounds) 0)

abbrev first : Round
first = next_round runtime 2 300 login (made []) (codes "00")

abbrev second : Round
second = next_round runtime 2 300 login (made (first ∷ [])) (codes "07")

abbrev zero_header : Text
zero_header = codes "00-00000000000000000000000000000000-0000000000000000-01"

one_round : Flow runtime 2 300 login (first ∷ [])
unfolding handle_create_auth_challenge handle_define_auth_challenge generate_code
one_round = answered opened (refl, refl) 0 1 (made []) (codes "00") refl

two_rounds : Flow runtime 2 300 login (first ∷ second ∷ [])
unfolding handle_create_auth_challenge handle_define_auth_challenge
    handle_verify_auth_challenge_response constant_time_equals generate_code
two_rounds = answered one_round (refl, refl) 0 0 (made (first ∷ [])) (codes "07") refl

Flow-OneCode_example :
    (length (first ∷ second ∷ []) ≤ 3)
    × OneCode runtime runtime-IsRuntime 2 300 login (first ∷ second ∷ [])
Flow-OneCode_example = Flow-OneCode runtime runtime-IsRuntime 2 300 login two_rounds

accepted :
    (handle_define_auth_challenge
      (event_after runtime 2 300 login (first ∷ second ∷ []))).response.issue_tokens
    ≡ some true
unfolding handle_create_auth_challenge handle_define_auth_challenge
    handle_verify_auth_challenge_response constant_time_equals generate_code
accepted = refl

Flow-tokens_example :
    (r : Round) × (last_of (first ∷ second ∷ []) ≡ some r)
    × (c : Text) × (r.code ≡ some c)
    × (runtime.utf8 c ≡ runtime.utf8 r.answer)
Flow-tokens_example =
    Flow-tokens runtime runtime-IsRuntime 2 300 login (first ∷ second ∷ []) two_rounds accepted

length-generate_code_example :
    let code = (generate_code runtime.random_int 2 0).0 in
    (length code ≡ 2) × All IsDigit code × (value_from 0 code ≡ 7)
length-generate_code_example = length-generate_code runtime.random_int 1 0 (omega arith)

is_traceparent-has_shape_example : is_traceparent zero_header ≡ has_shape zero_header
is_traceparent-has_shape_example = is_traceparent-has_shape zero_header

-- The header whose two identifiers are all zeros is passed on.
zero_header_accepted : is_traceparent zero_header ≡ true
unfolding is_traceparent
zero_header_accepted = refl
