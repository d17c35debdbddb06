-- ===== src/Credentials/Examples.antt =====
-- The theorems on credentials, with a table of one row.
use microservices_running.Prelude.{
  Bool, true, false, Option, none, some, ◌≡◌, refl, sym, ◌∙◌, ◌↔◌, ◌⊎◌, if◌then◌else◌, arith,
}
use microservices_running.Prelude.Texts.{Text, same_text, same_text_sound}
use microservices_running.Effects.{Outcome, returned, threw}
use microservices_running.Session.{codes}
use microservices_running.CognitoAuth.{
  AuthError, failure, invalid_credentials, CognitoClient, admin_user_password_auth, not_authorized,
  user_not_found,
}
use microservices_running.Registration.{passwordless}
use microservices_running.Credentials.{UserRow, Users, login, change_password}
use microservices_running.Credentials.Refusals.{IsPasswordless, IsRefusal, login_refused_iff}
use microservices_running.Credentials.Passwords.{IsUsers, map_row, Changed, change_password-Changed}

abbrev own : (id : Text) → UserRow → Option UserRow
own id row = if same_text id (codes "usr_1") then some row else none

abbrev written : Bool → (UserRow → UserRow) → UserRow → Outcome AuthError UserRow × UserRow
written true f row = (returned (f row), f row)
written false f row = (threw (failure (codes "not found")), row)

-- The world is the row of `usr_1`.
abbrev users : Users UserRow
users = record {
  row = λ w id. own id w;
  find_by_email = λ email w. (returned (some w), w);
  resolve = λ w. (returned (some w), w);
  update = λ id f w. written (same_text id (codes "usr_1")) f w;
}

abbrev pool : CognitoClient UserRow
pool = record {
  taken = λ _ _. true;
  admin_create_user = λ _ _ w. (threw user_not_found, w);
  admin_set_user_password = λ _ _ w. (returned tt, w);
  admin_initiate_auth = λ _ w. (threw not_authorized, w);
  respond_to_auth_challenge = λ _ _ _ w. (threw not_authorized, w);
  admin_update_user_attributes = λ _ _ w. (threw user_not_found, w);
  admin_delete_user = λ _ w. (returned tt, w);
  global_sign_out = λ _ w. (returned tt, w);
}

written-own :
    (b : Bool) (f : UserRow → UserRow) (row w : UserRow)
    → (written b f w).0 ≡ returned row
    → (if b then some (written b f w).1 else none) ≡ map_row f (if b then some w else none)
written-own true f row w done = refl
written-own false f row w done = refl

written-other :
    (b c : Bool) (f : UserRow → UserRow) (w : UserRow)
    → (b ≡ true → c ≡ true → ⊥)
    → (if c then some (written b f w).1 else none) ≡ (if c then some w else none)
written-other true true f w differ = absurd (differ refl refl)
written-other true false f w differ = refl
written-other false c f w differ = refl

written-threw :
    (b c : Bool) (f : UserRow → UserRow) (err : AuthError) (w : UserRow)
    → (written b f w).0 ≡ threw err
    → (if c then some (written b f w).1 else none) ≡ (if c then some w else none)
written-threw true c f err w done = ground (arith, done)
written-threw false c f err w done = refl

users-IsUsers : IsUsers users pool
users-IsUsers = record {
  resolve_reads = λ id w. refl;
  password_reads = λ email secret id w. refl;
  attributes_read = λ email id attributes w. refl;
  update_writes = λ id f row w done. written-own (same_text id (codes "usr_1")) f row w done;
  update_other = λ id other f w differ.
      written-other (same_text id (codes "usr_1")) (same_text other (codes "usr_1")) f w (λ one two.
        differ (
          same_text_sound other (codes "usr_1") two
          ∙ sym (same_text_sound id (codes "usr_1") one)));
  update_threw = λ id other f err w done.
      written-threw (same_text id (codes "usr_1")) (same_text other (codes "usr_1")) f err w done;
}

abbrev ana : UserRow
ana = record {
  id = codes "usr_1";
  email = codes "ana@example.com";
  auth_type = passwordless;
  full_name = codes "Ana";
  address = none;
  phone_number = none;
  must_change_password = true;
}

login_refused_iff_example :
    ((login users pool (codes "ana@example.com") (codes "pw") ana).0 ≡ threw invalid_credentials)
    ↔ (IsPasswordless (some ana)
        ⊎ IsRefusal
            (pool.admin_initiate_auth
              (admin_user_password_auth (codes "ana@example.com") (codes "pw"))
              ana).0)
login_refused_iff_example =
    login_refused_iff users pool (codes "ana@example.com") (codes "pw") (some ana) ana refl

change_password-Changed_example :
    Changed users pool users-IsUsers
      (codes "new")
      ana
      (change_password users pool (codes "new") ana)
change_password-Changed_example = change_password-Changed users pool users-IsUsers (codes "new") ana
