-- ===== src/Registration/Essential.antt =====
-- What decides a registration (services/users/src/users/commands).
use microservices_running.Prelude.{Bool, true, false, ◌≡◌, refl, if◌then◌else◌, arith}
use microservices_running.Prelude.Texts.{Text}
use microservices_running.Effects.{Outcome, returned, threw, Io, continue, ◌>>=◌}
use microservices_running.Session.{codes}
use microservices_running.Identity.{CaptureError, CaptureResult}
use microservices_running.Identity.Capture.{execute}
use microservices_running.CognitoAuth.{AuthError, CognitoSignUpResult, sign_up}
use microservices_running.Registration.{AuthType, password, passwordless, RegisterInput, UserRow}
use microservices_running.Registration.Publishing.{
  UserCreatedPayload, swallowed, publish_user_created,
}
use microservices_running.Registration.Commands.{
  RegisterServices, swallowed_capture, captured_payload, capture_identity, created_payload,
  after_row, create_row, register_with, register, register_passwordless,
}

module _ {W : Type 0} (services : RegisterServices W) where
  -- The two steps that a registration needs.
  abbrev pub essential : AuthType → (id secret : Text) → RegisterInput → Io W AuthError UserRow
  essential auth_type id secret input =
      sign_up services.client input.email secret id input.full_name
      >>= create_row services auth_type id input

  captured-returned :
      (o : Outcome CaptureError CaptureResult × W) → (swallowed_capture services o).0 ≡ returned tt
  captured-returned (returned result, w) = refl
  captured-returned (threw err, w) = refl

  capture_identity-returned :
      (signed : CognitoSignUpResult) (w : W) → (capture_identity services signed w).0 ≡ returned tt
  unfolding capture_identity
  capture_identity-returned signed w = in_environment services.is_production
    where
      in_environment :
          (b : Bool)
          → (if b
              then (returned tt, w)
              else swallowed_capture services
                  (execute services.identities (captured_payload services signed) w)).0
            ≡ returned tt
      in_environment true = refl
      in_environment false =
          captured-returned (execute services.identities (captured_payload services signed) w)

  swallowed-returned :
      (o : Outcome Text (Unit {0}) × W) → (swallowed services.events o).0 ≡ returned tt
  swallowed-returned (returned u, w) = refl
  swallowed-returned (threw err, w) = refl

  published-returned :
      (payload : UserCreatedPayload) (w : W)
      → (publish_user_created services.events payload w).0 ≡ returned tt
  unfolding publish_user_created
  published-returned payload w = swallowed-returned _

  -- A step that returns, followed by one.
  continue-eq :
      {A B : Type 0} (o : Outcome AuthError A × W) (f : A → Io W AuthError B) (a : A)
      (r : Outcome AuthError B)
      → o.0 ≡ returned a
      → ((v : W) → (f a v).0 ≡ r)
      → (continue o f).0 ≡ r
  continue-eq (returned b, v) f a r same later = ground (arith, same, later v)
  continue-eq (threw e, v) f a r same later = ground (arith, same)

  pub after_row-returned :
      (id : Text) (input : RegisterInput) (signed : CognitoSignUpResult) (row : UserRow) (w : W)
      → (after_row services id input signed row w).0 ≡ returned row
  unfolding after_row
  after_row-returned id input signed row w =
      continue-eq (capture_identity services signed w) _ tt (returned row)
        (capture_identity-returned signed w)
        (λ v.
          continue-eq
            (publish_user_created services.events (created_payload services id input row signed) v)
            _ tt (returned row)
            (published-returned (created_payload services id input row signed) v) (λ u. refl))

  created-eq :
      (id : Text) (input : RegisterInput) (signed : CognitoSignUpResult)
      (o : Outcome AuthError UserRow × W)
      → (continue o (after_row services id input signed)).0 ≡ o.0
  created-eq id input signed (returned row, w) = after_row-returned id input signed row w
  created-eq id input signed (threw err, w) = refl

  register_with-essential :
      (auth_type : AuthType) (id secret : Text) (input : RegisterInput) (w : W)
      → (register_with services auth_type id secret input w).0
        ≡ (essential auth_type id secret input w).0
  unfolding register_with
  register_with-essential auth_type id secret input w =
      signed-eq (sign_up services.client input.email secret id input.full_name w)
    where
      signed-eq :
          (o : Outcome AuthError CognitoSignUpResult × W)
          → (continue o (λ signed.
              create_row services auth_type id input signed
              >>= after_row services id input signed)).0
            ≡ (continue o (create_row services auth_type id input)).0
      signed-eq (returned signed, v) =
          created-eq id input signed (create_row services auth_type id input signed v)
      signed-eq (threw err, v) = refl

  -- A registration answers the row of the user, or the error, of its two essential steps, signing the
  -- user up and then storing a row with the id that was reserved and the sub that was given: whatever
  -- becomes of the capture of the identity, of the event and of the metric, in production or not,
  -- with a password or without.
  pub register-essential :
      (input : RegisterInput) (w : W)
      → let (id, w₁) = services.generate_id (codes "usr_") w in
        let (secret, w₂) = services.random_password w₁ in
        ((register services input w).0 ≡ (essential password id input.password input w₁).0)
        × ((register_passwordless services input w).0
            ≡ (essential passwordless id secret input w₂).0)
  unfolding register register_passwordless
  register-essential input w =
      let (id, w₁) = services.generate_id (codes "usr_") w in
      let (secret, w₂) = services.random_password w₁ in
      (
        register_with-essential password id input.password input w₁,
        register_with-essential passwordless id secret input w₂,
      )
