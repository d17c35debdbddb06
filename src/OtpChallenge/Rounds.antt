-- ===== src/OtpChallenge/Rounds.antt =====
-- One round of a login (the three triggers of
-- infra/modules/cognito/otp-challenge-lambda/index.mjs).
use microservices_running.Prelude.{
  ℕ, suc, ◌+◌, Bool, true, false, Option, none, some, List, [], ◌∷◌, ◌++◌, map, length,
  if◌then◌else◌, All, ◌≡◌, refl, ap, ◌∙◌, arith, Bool-cases, ◌⊎◌, inl, inr, zero, ◌-◌, ◌/◌, ◌%◌,
}
use microservices_running.Effects.{returned}
use microservices_running.OtpChallenge.{Text}
use microservices_running.OtpChallenge.Code.{decimal, digits, zeros, generate_code}
use microservices_running.OtpChallenge.Events.{Challenge, Event}
use microservices_running.OtpChallenge.Handlers.{
  Runtime, last_of, is_custom, is_empty, truthy, metadata_in, code_from, reused_code, with_code,
  with_tokens, with_failure, with_challenge, answer_correct, constant_time_equals,
  handle_create_auth_challenge, handle_verify_auth_challenge_response,
}
use microservices_running.OtpChallenge.Flow.{IsRuntime, Round, next_round}

pub branches-asks :
    (correct exhausted : Bool) (event : Event)
    → let r =
        (if correct
          then with_tokens event
          else if exhausted
          then with_failure event
          else with_challenge event).response in
      r.issue_tokens ≡ some false
      → r.fail_authentication ≡ some false
      → (correct ≡ false) × (exhausted ≡ false)
branches-asks true _ event issued failed = ground (arith, issued)
branches-asks false true event issued failed = ground (arith, failed)
branches-asks false false event issued failed = (refl, refl)

pub branches-tokens :
    (correct exhausted : Bool) (event : Event)
    → (if correct
        then with_tokens event
        else if exhausted
        then with_failure event
        else with_challenge event).response.issue_tokens
      ≡ some true
    → correct ≡ true
branches-tokens true _ event issued = refl
branches-tokens false true event issued = ground (arith, issued)
branches-tokens false false event issued = ground (arith, issued)

module _ {A B : Type 0} (f : A → B) (P : A → Type 0) where
  pub last_of-map :
      (x : A) (xs : List A)
      → All P (x ∷ xs)
      → (y : A) × (last_of (x ∷ xs) ≡ some y) × (last_of (map f (x ∷ xs)) ≡ some (f y)) × P y
  last_of-map x [] (p, _) = (x, refl, refl, p)
  last_of-map x (z ∷ zs) (_, ps) = last_of-map z zs ps

pub All-append :
    {A : Type 0} (P : A → Type 0) (xs ys : List A) → All P xs → All P ys → All P (xs ++ ys)
All-append P [] ys p q = q
All-append P (x ∷ xs) ys (p, ps) q = (p, All-append P xs ys ps q)

digits-full : (fuel n : ℕ) (rest : Text) → is_empty (digits fuel n rest) ≡ false
digits-full zero n rest = refl
digits-full (suc fuel) n rest = ground (arith, digits-full fuel (n / 10) ((48 + n % 10) ∷ rest))

zeros-full : (n : ℕ) (text : Text) → is_empty text ≡ false → is_empty (zeros n ++ text) ≡ false
zeros-full zero text full = full
zeros-full (suc n) text full = refl

pub generate_code-full :
    {W : Type 0} (random_int : (max : ℕ) → W → ℕ × W) (code_length : ℕ) (w : W)
    → is_empty (generate_code random_int code_length w).0 ≡ false
unfolding generate_code
generate_code-full random_int code_length w =
    let n = (random_int _ w).0 in
    zeros-full (code_length - length (decimal n)) (decimal n) (digits-full n n [])

module _ {W E : Type 0} (runtime : Runtime W E) (laws : IsRuntime runtime)
    (code_length ttl : ℕ) where
  constant_time_equals-utf8 :
      (expected submitted : Text)
      → constant_time_equals runtime code_length ttl expected submitted ≡ true
      → runtime.utf8 expected ≡ runtime.utf8 submitted
  unfolding constant_time_equals
  constant_time_equals-utf8 expected submitted same =
      grind
        (arith, same, laws.timing_safe_equal_eq (runtime.utf8 expected) (runtime.utf8 submitted))

  pub create-reused :
      (event : Event) (c : Text) (w : W)
      → reused_code runtime code_length ttl event ≡ some c
      → handle_create_auth_challenge runtime code_length ttl event w
        ≡ (returned (with_code runtime code_length ttl c event), w)
  unfolding handle_create_auth_challenge
  create-reused event c w same = rw (handle_create_auth_challenge, same)

  pub code_from-metadata_in :
      (o : Option Challenge) (x : Challenge) (c : Text)
      → o ≡ some x
      → x.challenge_metadata ≡ some (runtime.metadata_of c)
      → is_empty c ≡ false
      → code_from runtime code_length ttl (metadata_in o) ≡ some c
  code_from-metadata_in o x c last held full =
      let m = runtime.metadata_of c in
      ap (λ l. code_from runtime code_length ttl (metadata_in l)) last
      ∙ ap (λ t. code_from runtime code_length ttl (truthy t)) held
      ∙ ap (λ b. code_from runtime code_length ttl (if b then none else some m))
          (laws.metadata_of_full c)
      ∙ ap truthy (laws.code_in_metadata_of c)
      ∙ ap (λ b. if b then none else some c) full

  -- What a round's code and its entry hold.
  abbrev pub HasCode : Text → Round → Type 0
  HasCode c r = (r.code ≡ some c) × (r.challenge.challenge_metadata ≡ some (runtime.metadata_of c))

  abbrev pub IsCustom : Round → Type 0
  IsCustom r = is_custom r.challenge ≡ true

  -- An accepted answer has the bytes of the round's code.
  abbrev pub IsJudged : Round → Type 0
  IsJudged r =
      (r.challenge.challenge_result ≡ false)
      ⊎ ((x : Text) × (r.code ≡ some x) × (runtime.utf8 x ≡ runtime.utf8 r.answer))

  answer_correct-utf8 :
      (c answer : Text)
      → (answer_correct runtime code_length ttl (some c) answer ≡ false)
        ⊎ (runtime.utf8 c ≡ runtime.utf8 answer)
  answer_correct-utf8 c answer = elim (Bool-cases (is_empty c)) [
    | inl empty ↦
        inl (
          ap (λ b. if b then false else constant_time_equals runtime code_length ttl c answer)
            empty)
    | inr full ↦ elim (Bool-cases (constant_time_equals runtime code_length ttl c answer)) [
      | inl same ↦ inr (constant_time_equals-utf8 c answer same)
      | inr other ↦ inl (
          ap (λ b. if b then false else constant_time_equals runtime code_length ttl c answer) full
          ∙ other)
    ]
  ]

  module _ (base : Event) where
    -- The round after the trigger made a challenge of code `c`.
    abbrev pub IsNext : Text → Event → Type 0
    IsNext c made =
        (answer : Text)
        → let r = next_round runtime code_length ttl base made answer in
          HasCode c r × IsCustom r × IsJudged r

    pub IsNext-with_code :
        (c : Text) (event : Event) → IsNext c (with_code runtime code_length ttl c event)
    unfolding handle_verify_auth_challenge_response
    IsNext-with_code c event answer = (
      (refl, refl),
      refl,
      elim (answer_correct-utf8 c answer) [
        | inl wrong ↦ inl wrong
        | inr same ↦ inr (c, refl, same)
      ],
    )
