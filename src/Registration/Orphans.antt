-- ===== src/Registration/Orphans.antt =====
-- A registration that fails after Cognito has made the account
-- (services/users/src/users/commands).
use microservices_running.Prelude.{true, Option, none, some, ◌≡◌, refl, sym, ap, subst, arith}
use microservices_running.Prelude.Texts.{Text, same_text}
use microservices_running.Effects.{Outcome, returned, threw, Io, continue}
use microservices_running.Session.{codes}
use microservices_running.CognitoAuth.{
  AuthError, email_already_exists, CognitoSignUpResult, Attributes, username_exists, create_refusal,
  cognito_error, translated, new_attributes, attribute, truthy, set_created_password, signed_up,
  sign_up,
}
use microservices_running.Registration.{AuthType, password, passwordless, RegisterInput, UserRow}
use microservices_running.Registration.Commands.{
  RegisterServices, row_of, create_row, after_row, register_with, register, register_passwordless,
}
use microservices_running.Registration.Essential.{after_row-returned}

-- What the code relies on: Cognito has an account of the name that it created, and refuses a name
-- that it has; setting a password, drawing an id or a password and writing a row delete no account.
pub record IsCognito {W : Type 0} (services : RegisterServices W) : Type 0 where
  pub create_takes :
      (name : Text) (attributes created : Attributes) (w : W)
      → (services.client.admin_create_user name attributes w).0 ≡ returned created
      → services.client.taken (services.client.admin_create_user name attributes w).1 name ≡ true
  pub taken_refused :
      (name : Text) (attributes : Attributes) (w : W)
      → services.client.taken w name ≡ true
      → (services.client.admin_create_user name attributes w).0 ≡ threw username_exists
  pub password_keeps :
      (name other secret : Text) (w : W)
      → services.client.taken w name ≡ true
      → services.client.taken (services.client.admin_set_user_password other secret w).1 name ≡ true
  pub row_keeps :
      (name : Text) (row : W → UserRow) (w : W)
      → services.client.taken w name ≡ true
      → services.client.taken (services.create_row row w).1 name ≡ true
  pub id_keeps :
      (name prefix : Text) (w : W)
      → services.client.taken w name ≡ true
      → services.client.taken (services.generate_id prefix w).1 name ≡ true
  pub secret_keeps :
      (name : Text) (w : W)
      → services.client.taken w name ≡ true
      → services.client.taken (services.random_password w).1 name ≡ true

module _ {W : Type 0} (services : RegisterServices W) (laws : IsCognito services)
    (name : Text) where
  abbrev Taken : W → Type 0
  Taken w = services.client.taken w name ≡ true

  -- What is thrown leaves the account.
  abbrev IsStuck : {A : Type 0} → Outcome AuthError A × W → Type 0
  IsStuck (returned a, w) = Unit {0}
  IsStuck (threw err, w) = Taken w

  IsStuck-continue :
      {A B : Type 0} (o : Outcome AuthError A × W) (f : A → Io W AuthError B)
      → Taken o.1
      → ((a : A) (v : W) → Taken v → IsStuck (f a v))
      → IsStuck (continue o f)
  IsStuck-continue (returned a, w) f now later = later a w now
  IsStuck-continue (threw err, w) f now later = now

  IsStuck-returned :
      {A : Type 0} (o : Outcome AuthError A × W) (a : A) → o.0 ≡ returned a → IsStuck o
  IsStuck-returned (returned b, w) a same = tt
  IsStuck-returned (threw err, w) a same = ground (arith, same)

  Taken-translated :
      {A : Type 0} (refusal : Text → AuthError) (o : Outcome Text A × W)
      → Taken o.1
      → Taken (translated refusal o).1
  Taken-translated refusal (returned a, w) now = now
  Taken-translated refusal (threw err, w) now = now

  IsStuck-signed_up :
      (email : Text) (created : Attributes) (sub : Option Text) (w : W)
      → Taken w
      → Taken (signed_up services.client email created sub w).1
  IsStuck-signed_up email created none w now = now
  IsStuck-signed_up email created (some sub) w now = now

  Taken-continue :
      {A B : Type 0} (o : Outcome AuthError A × W) (f : A → Io W AuthError B)
      → Taken o.1
      → ((a : A) (v : W) → Taken v → Taken (f a v).1)
      → Taken (continue o f).1
  Taken-continue (returned a, w) f now later = later a w now
  Taken-continue (threw err, w) f now later = now

  created-Taken :
      (attributes : Attributes) (o : Outcome Text Attributes × W)
      (f : Attributes → Io W AuthError CognitoSignUpResult)
      → Taken o.1
      → ((created : Attributes) (v : W) → Taken v → Taken (f created v).1)
      → Taken (continue (translated create_refusal o) f).1
  created-Taken attributes o f now later =
      Taken-continue (translated create_refusal o) f (Taken-translated create_refusal o now) later

  sign_up-Taken :
      (secret id full_name : Text) (created : Attributes) (w : W)
      → (services.client.admin_create_user name
          (new_attributes services.client name id full_name)
          w).0
        ≡ returned created
      → Taken (sign_up services.client name secret id full_name w).1
  unfolding sign_up
  sign_up-Taken secret id full_name created w done =
      let attributes = new_attributes services.client name id full_name in
      created-Taken attributes (services.client.admin_create_user name attributes w) _
        (laws.create_takes name attributes created w done)
        (λ found v now.
          Taken-continue (set_created_password services.client name secret v) _
            (Taken-translated cognito_error (services.client.admin_set_user_password name secret v)
              (laws.password_keeps name name secret v now))
            (λ _ u still.
              IsStuck-signed_up name found (truthy (attribute (codes "sub") found)) u still))

  register_with-IsStuck :
      (auth_type : AuthType) (id secret : Text) (input : RegisterInput) (created : Attributes)
      (w : W)
      → input.email ≡ name
      → (services.client.admin_create_user name
          (new_attributes services.client name id input.full_name)
          w).0
        ≡ returned created
      → IsStuck (register_with services auth_type id secret input w)
  unfolding register_with
  register_with-IsStuck auth_type id secret input created w same done =
      IsStuck-continue (sign_up services.client input.email secret id input.full_name w) _
        (subst (λ email. Taken (sign_up services.client email secret id input.full_name w).1)
          (sym same) (sign_up-Taken secret id input.full_name created w done))
        (λ signed v now.
          IsStuck-continue (create_row services auth_type id input signed v) _
            (laws.row_keeps name (row_of services auth_type id input signed) v now)
            (λ row u _.
              IsStuck-returned (after_row services id input signed row u) row
                (after_row-returned services id input signed row u)))

  refused-eq :
      {B : Type 0} (o : Outcome Text Attributes × W) (f : Attributes → Io W AuthError B)
      → o.0 ≡ threw username_exists
      → (continue (translated create_refusal o) f).0 ≡ threw email_already_exists
  unfolding same_text
  refused-eq (returned a, w) f same = ground (arith, same)
  refused-eq (threw err, w) f same =
      ap (λ r. (continue (translated create_refusal (r, w)) f).0) same

  continue-threw :
      {A B : Type 0} (o : Outcome AuthError A × W) (f : A → Io W AuthError B) (e : AuthError)
      → o.0 ≡ threw e
      → (continue o f).0 ≡ threw e
  continue-threw (returned a, w) f e same = ground (arith, same)
  continue-threw (threw err, w) f e same = ground (arith, same)

  register_with-refused :
      (auth_type : AuthType) (id secret : Text) (input : RegisterInput) (w : W)
      → input.email ≡ name
      → Taken w
      → (register_with services auth_type id secret input w).0 ≡ threw email_already_exists
  unfolding register_with sign_up
  register_with-refused auth_type id secret input w same now =
      let attributes = new_attributes services.client input.email id input.full_name in
      continue-threw (sign_up services.client input.email secret id input.full_name w) _
        email_already_exists
        (refused-eq (services.client.admin_create_user input.email attributes w) _ (
          laws.taken_refused input.email attributes w
            (subst (λ email. services.client.taken w email ≡ true) (sym same) now)))

module _ {W : Type 0} (services : RegisterServices W) (laws : IsCognito services) where
  thrown-Taken :
      {A : Type 0} (name : Text) (o : Outcome AuthError A × W) (err : AuthError) (w : W)
      → IsStuck services laws name o
      → o ≡ (threw err, w)
      → services.client.taken w name ≡ true
  thrown-Taken name (returned a, v) err w stuck same = ground (arith, same)
  thrown-Taken name (threw e, v) err w stuck same =
      subst (λ u. services.client.taken u name ≡ true) (ap (λ r. r.1) same) stuck

  -- When a registration throws after Cognito created the account, be it that the password could not be
  -- set, that the answer had no sub or that the row could not be stored, the account stays: the next
  -- registration of the same address, with a password or without, is refused as one of an address
  -- that already exists.
  pub register-orphan :
      (input next : RegisterInput) (created : Attributes) (err : AuthError) (w w' : W)
      → (let (id, w₁) = services.generate_id (codes "usr_") w in
          (services.client.admin_create_user input.email
            (new_attributes services.client input.email id input.full_name)
            w₁).0
          ≡ returned created)
      → register services input w ≡ (threw err, w')
      → next.email ≡ input.email
      → ((register services next w').0 ≡ threw email_already_exists)
        × ((register_passwordless services next w').0 ≡ threw email_already_exists)
  unfolding register register_passwordless
  register-orphan input next created err w w' done failed same =
      let (id, w₁) = services.generate_id (codes "usr_") w in
      let now =
        thrown-Taken input.email (register_with services password id input.password input w₁) err w'
          (register_with-IsStuck services laws input.email password id input.password input created
            w₁ refl done)
          failed in
      let (id', w₂) = services.generate_id (codes "usr_") w' in
      let kept = laws.id_keeps input.email (codes "usr_") w' now in
      let (secret, w₃) = services.random_password w₂ in
      (
        register_with-refused services laws input.email password id' next.password next w₂ same
            kept,
        register_with-refused services laws input.email passwordless id' secret next w₃ same
            (laws.secret_keeps input.email w₂ kept),
      )
