-- ===== src/Credentials/Refusals.antt =====
-- Whom a login refuses (services/users/src/users/commands/login.command.ts).
use microservices_running.Prelude.{
  Bool, true, false, Option, none, some, ◌≡◌, refl, sym, ap, ◌∙◌, ◌⊎◌, inl, inr, ◌↔◌, if◌then◌else◌,
  arith, ◌||◌, subst,
}
use microservices_running.Session.{codes}
use microservices_running.Prelude.Texts.{Text, same_text, same_text_sound, same_text_self}
use microservices_running.Effects.{Outcome, returned, threw, Io, continue, return}
use microservices_running.CognitoAuth.{
  AuthError, invalid_credentials, CognitoClient, AuthTokens, AuthAnswer, admin_user_password_auth,
  is_refusal, user_not_found, not_authorized, bad_credentials, translated, tokens_of,
}
use microservices_running.CognitoAuth
use microservices_running.Registration.{AuthType, password, passwordless}
use microservices_running.Credentials.{UserRow, Users, login_by, login_found, login}

abbrev pub IsPasswordless : Option UserRow → Type 0
IsPasswordless none = ⊥
IsPasswordless (some user) = user.auth_type ≡ passwordless

-- The answer of Cognito is that it has no such user, or that the password is not the user's.
abbrev pub IsRefusal : {A : Type 0} → Outcome Text A → Type 0
IsRefusal (returned a) = ⊥
IsRefusal (threw name) =
    (name ≡ codes "UserNotFoundException") ⊎ (name ≡ codes "NotAuthorizedException")

||-true : (a b : Bool) → (a || b) ≡ true → (a ≡ true) ⊎ (b ≡ true)
||-true true b either = inl refl
||-true false b either = inr either

is_refusal_sound :
    (name : Text)
    → is_refusal name ≡ true
    → (name ≡ codes "UserNotFoundException") ⊎ (name ≡ codes "NotAuthorizedException")
is_refusal_sound name refused =
    elim (||-true (same_text name user_not_found) (same_text name not_authorized) refused) [
      | inl absent ↦ inl (same_text_sound name user_not_found absent)
      | inr wrong ↦ inr (same_text_sound name not_authorized wrong)
    ]

is_refusal_complete :
    (name : Text)
    → (name ≡ codes "UserNotFoundException") ⊎ (name ≡ codes "NotAuthorizedException")
    → is_refusal name ≡ true
is_refusal_complete name (inl absent) =
    ground (arith, subst (λ n. same_text name n ≡ true) absent (same_text_self name))
is_refusal_complete name (inr wrong) =
    ground (arith, subst (λ n. same_text name n ≡ true) wrong (same_text_self name))

module _ {W : Type 0} (users : Users W) (client : CognitoClient W) where
  refused_by :
      (b : Bool) (name : Text)
      → (if b then invalid_credentials else CognitoAuth.cognito_error name) ≡ invalid_credentials
      → b ≡ true
  refused_by true name same = refl
  refused_by false name same = ground (arith, same)

  abbrev error_of : Outcome AuthError AuthTokens → AuthError
  error_of (returned tokens) = CognitoAuth.invalid_otp
  error_of (threw err) = err

  answered_iff :
      (o : Outcome Text AuthAnswer × W)
      → ((continue (translated bad_credentials o) (λ answer. return (tokens_of answer.result))).0
          ≡ threw invalid_credentials)
        ↔ IsRefusal o.0
  answered_iff (returned answer, w) = ((λ same. ground (arith, same)), λ absent. absurd absent)
  answered_iff (threw name, w) = (
    (λ same. is_refusal_sound name (refused_by (is_refusal name) name (ap error_of same))),
    λ refused.
        ap (λ b. threw (if b then invalid_credentials else CognitoAuth.cognito_error name))
          (is_refusal_complete name refused),
  )

  password-not-passwordless : password ≡ passwordless → ⊥
  password-not-passwordless same = ground (arith, same)

  login_by_iff :
      (email secret : Text) (auth_type : AuthType) (w : W)
      → ((login_by users client auth_type email secret w).0 ≡ threw invalid_credentials) ↔ (
          (auth_type ≡ passwordless)
          ⊎ IsRefusal (client.admin_initiate_auth (admin_user_password_auth email secret) w).0)
  unfolding CognitoAuth.login
  login_by_iff email secret passwordless w = ((λ same. inl refl), λ either. refl)
  login_by_iff email secret password w =
      let (only, back) =
        answered_iff (client.admin_initiate_auth (admin_user_password_auth email secret) w) in
      (
        (λ same. inr (only same)),
        λ either. elim either [
          | inl same ↦ absurd (password-not-passwordless same)
          | inr refused ↦ back refused
        ],
      )

  login_found_iff :
      (email secret : Text) (found : Option UserRow) (w : W)
      → ((login_found users client email secret found w).0 ≡ threw invalid_credentials) ↔ (
          IsPasswordless found
          ⊎ IsRefusal (client.admin_initiate_auth (admin_user_password_auth email secret) w).0)
  unfolding CognitoAuth.login
  login_found_iff email secret (some user) w = login_by_iff email secret user.auth_type w
  login_found_iff email secret none w =
      let (only, back) =
        answered_iff (client.admin_initiate_auth (admin_user_password_auth email secret) w) in
      (
        (λ same. inr (only same)),
        λ either. elim either [ inl nobody ↦ absurd nobody | inr refused ↦ back refused ],
      )

  continue-found :
      {A B : Type 0} (o : Outcome AuthError A × W) (f : A → Io W AuthError B) (a : A)
      → o.0 ≡ returned a
      → (continue o f).0 ≡ (f a o.1).0
  continue-found (returned b, w) f a same = ap (λ r. (continue (r, w) f).0) same
  continue-found (threw e, w) f a same = ground (arith, same)

  -- Once the user is looked up, a login fails with `invalid_credentials` exactly if the account is
  -- passwordless, whatever password is given, or Cognito answers that it has no such user or that
  -- the password is wrong: the three cannot be told apart by the error.
  pub login_refused_iff :
      (email secret : Text) (found : Option UserRow) (w : W)
      → (users.find_by_email email w).0 ≡ returned found
      → ((login users client email secret w).0 ≡ threw invalid_credentials) ↔ (
          IsPasswordless found
          ⊎ IsRefusal
              (client.admin_initiate_auth
                (admin_user_password_auth email secret)
                (users.find_by_email email w).1).0)
  unfolding login
  login_refused_iff email secret found w looked_up =
      let (only, back) = login_found_iff email secret found (users.find_by_email email w).1 in
      let same =
        continue-found (users.find_by_email email w) (login_found users client email secret) found
          looked_up in
      ((λ refused. only (sym same ∙ refused)), λ either. same ∙ back either)
