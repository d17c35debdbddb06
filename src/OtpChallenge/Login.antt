-- ===== src/OtpChallenge/Login.antt =====
-- What holds of every login over the challenge Lambda
-- (infra/modules/cognito/otp-challenge-lambda/index.mjs).
use microservices_running.Prelude.{
  ℕ, suc, ◌≤◌, leb, true, false, some, List, [], ◌∷◌, length, length-append, keep, All, ◌≡◌, refl,
  sym, ap, ◌∙◌, subst, arith, inl, inr,
}
use microservices_running.Effects.{returned, Io, continue-returned, returned-injective}
use microservices_running.OtpChallenge.{Text}
use microservices_running.OtpChallenge.Code.{generate_code}
use microservices_running.OtpChallenge.Events.{Event}
use microservices_running.OtpChallenge.Publishing.{envelope_of}
use microservices_running.OtpChallenge.Handlers.{
  Runtime, last_of, is_correct, is_custom, max_attempts, is_empty, with_code,
  handle_define_auth_challenge, handle_create_auth_challenge, challenge_id,
}
use microservices_running.OtpChallenge.Flow.{
  IsRuntime, Round, entries, event_after, next_round, AsksOn, Flow, opened, answered,
}
use microservices_running.OtpChallenge.Rounds.{
  branches-asks, branches-tokens, last_of-map, All-append, generate_code-full, create-reused,
  code_from-metadata_in, HasCode, IsCustom, IsJudged, IsNext, IsNext-with_code,
}

module _ {W E : Type 0} (runtime : Runtime W E) (laws : IsRuntime runtime) (code_length ttl : ℕ)
    (base : Event) where
  -- A code that is not empty and belongs to every round.
  abbrev pub OneCode : List Round → Type 0
  OneCode rounds =
      (c : Text) × (is_empty c ≡ false) × All (HasCode runtime laws code_length ttl c) rounds

  abbrev pub Sound : List Round → Type 0
  Sound rounds =
      (length rounds ≤ 3)
      × All (IsCustom runtime laws code_length ttl) rounds
      × OneCode rounds
      × All (IsJudged runtime laws code_length ttl) rounds

  abbrev after : List Round → Event
  after = event_after runtime code_length ttl base

  abbrev create : Event → Io W E Event
  create = handle_create_auth_challenge runtime code_length ttl

  keep-custom :
      (rounds : List Round)
      → All (IsCustom runtime laws code_length ttl) rounds
      → length (keep is_custom (entries runtime code_length ttl base rounds)) ≡ length rounds
  keep-custom [] all = refl
  keep-custom (r ∷ rs) (custom, all) = ground (arith, custom, keep-custom rs all)

  AsksOn-length :
      (rounds : List Round)
      → All (IsCustom runtime laws code_length ttl) rounds
      → AsksOn runtime code_length ttl base rounds
      → suc (length rounds) ≤ 3
  unfolding handle_define_auth_challenge
  AsksOn-length rounds all (issued, failed) =
      let sessions = entries runtime code_length ttl base rounds in
      let (_, attempts) =
        branches-asks (is_correct (last_of sessions))
          (leb max_attempts (length (keep is_custom sessions))) (after rounds) issued failed in
      ground (arith, attempts, keep-custom rounds all)

  -- A challenge that is made anew.
  create-fresh :
      (made : Event) (w w' : W)
      → create (after []) w ≡ (returned made, w')
      → (c : Text) × (is_empty c ≡ false) × (made ≡ with_code runtime code_length ttl c (after []))
  unfolding handle_create_auth_challenge
  create-fresh made w w' same =
      let (code, w₁) = generate_code runtime.random_int code_length w in
      let envelope =
        envelope_of ttl (after []) code (challenge_id runtime code_length ttl (after []) w₁) in
      let (_, w₂, _, rest) = continue-returned (runtime.publish envelope w₁) _ made w' same in
      let made_eq = returned-injective (returned made, w') made _ w' w₂ refl (sym rest) in
      (code, generate_code-full runtime.random_int code_length w, made_eq)

  -- A challenge is of the code of the rounds so far.
  create-OneCode :
      (rounds : List Round) (made : Event) (w w' : W)
      → OneCode rounds
      → create (after rounds) w ≡ (returned made, w')
      → (c : Text) × (is_empty c ≡ false)
        × All (HasCode runtime laws code_length ttl c) rounds
        × (made ≡ with_code runtime code_length ttl c (after rounds))
  create-OneCode [] made w w' one same =
      let (c, full, made_eq) = create-fresh made w w' same in (c, full, tt, made_eq)
  create-OneCode (r ∷ rs) made w w' (c, full, all) same =
      let (x, _, last, (_, held)) =
        last_of-map (λ (r : Round). r.challenge) (HasCode runtime laws code_length ttl c) r rs
          all in
      let reused =
        code_from-metadata_in runtime laws code_length ttl _ x.challenge c last held full in
      (
        c,
        full,
        all,
        returned-injective (create (after (r ∷ rs)) w) made _ w' w same
            (create-reused runtime laws code_length ttl (after (r ∷ rs)) c w reused),
      )

  Flow-Sound : {rounds : List Round} → Flow runtime code_length ttl base rounds → Sound rounds
  Flow-Sound opened = (omega arith, tt, (48 ∷ [], refl, tt), tt)
  Flow-Sound (answered {rounds} flow asks w w' made answer same) =
      let (_, customs, one, judged) = Flow-Sound flow in
      let (c, full, all, made_eq) = create-OneCode rounds made w w' one same in
      let next =
        subst (IsNext runtime laws code_length ttl base c) (sym made_eq)
          (IsNext-with_code runtime laws code_length ttl base c (after rounds)) in
      let (coded, custom, right) = next answer in
      let r = next_round runtime code_length ttl base made answer in
      (
        omega (arith, length-append rounds (r ∷ []), AsksOn-length rounds customs asks),
        All-append (IsCustom runtime laws code_length ttl) rounds (r ∷ []) customs (custom, tt),
        (
          c,
          full,
          All-append (HasCode runtime laws code_length ttl c) rounds (r ∷ []) all (coded, tt),
        ),
        All-append (IsJudged runtime laws code_length ttl) rounds (r ∷ []) judged (right, tt),
      )

  -- However often a login was answered, there were at most three challenges, all of one code that is
  -- not empty, and the entry of every round carries that code to the next.
  pub Flow-OneCode :
      {rounds : List Round}
      → Flow runtime code_length ttl base rounds
      → (length rounds ≤ 3) × OneCode rounds
  Flow-OneCode flow = let (few, _, one, _) = Flow-Sound flow in (few, one)

  accepted-utf8 :
      (r : Round)
      → IsJudged runtime laws code_length ttl r
      → r.challenge.challenge_result ≡ true
      → (c : Text) × (r.code ≡ some c) × (runtime.utf8 c ≡ runtime.utf8 r.answer)
  accepted-utf8 r (inl wrong) accepted = ground (arith, wrong, accepted)
  accepted-utf8 r (inr right) accepted = right

  tokens-is_correct :
      (rounds : List Round)
      → (handle_define_auth_challenge (after rounds)).response.issue_tokens ≡ some true
      → is_correct (last_of (entries runtime code_length ttl base rounds)) ≡ true
  unfolding handle_define_auth_challenge
  tokens-is_correct rounds issued =
      let sessions = entries runtime code_length ttl base rounds in
      branches-tokens (is_correct (last_of sessions))
        (leb max_attempts (length (keep is_custom sessions))) (after rounds) issued

  -- Tokens are issued only if the bytes of the last answer are those of the code that was made for
  -- its challenge.
  pub Flow-tokens :
      (rounds : List Round)
      → Flow runtime code_length ttl base rounds
      → (handle_define_auth_challenge (after rounds)).response.issue_tokens ≡ some true
      → (r : Round) × (last_of rounds ≡ some r)
        × (c : Text) × (r.code ≡ some c)
        × (runtime.utf8 c ≡ runtime.utf8 r.answer)
  Flow-tokens [] flow issued = ground (arith, tokens-is_correct [] issued)
  Flow-tokens (r ∷ rs) flow issued =
      let (_, _, _, judged) = Flow-Sound flow in
      let (x, last, entry, right) =
        last_of-map (λ (r : Round). r.challenge) (IsJudged runtime laws code_length ttl) r rs
          judged in
      let (c, coded, same) =
        accepted-utf8 x right (sym (ap is_correct entry) ∙ tokens-is_correct (r ∷ rs) issued) in
      (x, last, c, coded, same)
