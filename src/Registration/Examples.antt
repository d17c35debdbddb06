-- ===== src/Registration/Examples.antt =====
-- The theorems on registration, with a Cognito of one account.
use microservices_running.Prelude.{
  Bool, true, false, none, [], ◌∷◌, ◌≡◌, refl, arith, if◌then◌else◌,
}
use microservices_running.Prelude.Texts.{Text, same_text}
use microservices_running.Effects.{Outcome, returned, threw}
use microservices_running.Session.{codes}
use microservices_running.Identity.{other_error}
use microservices_running.Identity.Capture.{IdentityServices}
use microservices_running.CognitoAuth.{
  email_already_exists, database_error, Attributes, CognitoClient, username_exists, sign_up,
}
use microservices_running.Registration.{password, passwordless, RegisterInput}
use microservices_running.Registration.Publishing.{EventServices}
use microservices_running.Registration.Commands.{
  RegisterServices, register, register_passwordless, register_with,
}
use microservices_running.Registration.Essential.{essential, register-essential}
use microservices_running.Registration.Orphans.{IsCognito, register-orphan}

-- Whether the account is there.
abbrev World : Type 0
World = Bool

abbrev create : World → Outcome Text Attributes × World
create false = (returned ((codes "sub", codes "sub-1") ∷ []), true)
create true = (threw username_exists, true)

abbrev pool : CognitoClient World
pool = record {
  taken = λ w _. w;
  admin_create_user = λ _ _ w. create w;
  admin_set_user_password = λ _ _ w. (returned tt, w);
  admin_initiate_auth = λ _ w. (threw username_exists, w);
  respond_to_auth_challenge = λ _ _ _ w. (threw username_exists, w);
  admin_update_user_attributes = λ _ _ w. (returned tt, w);
  admin_delete_user = λ _ _. (returned tt, false);
  global_sign_out = λ _ w. (returned tt, w);
}

abbrev identities : IdentityServices World
identities = record {
  events = λ _. [];
  sha256 = λ text. text;
  hash_email = λ email. email;
  generate_id = λ prefix w. (prefix, w);
  find_user = λ _ w. (threw (other_error (codes "down")), w);
  upsert = λ _ _ w. (returned tt, w);
}

abbrev topic : EventServices World
topic = record {
  new_event_id = λ w. (codes "evt_1", w);
  request_id = λ _. none;
  run_id = λ _. none;
  send = λ _ w. (threw (codes "down"), w);
}

-- With a database that is up, or down; the capture and the topic are down.
abbrev services : (database : Bool) → RegisterServices World
services database = record {
  client = pool;
  client_id = codes "client";
  generate_id = λ prefix w. (prefix, w);
  random_password = λ w. (codes "secret", w);
  create_row =
      λ row w. (if database then returned (row w) else threw (database_error (codes "down")), w);
  now = λ _. codes "2026-11-27";
  identities = identities;
  raw_event = λ _. codes "{}";
  is_production = false;
  events = topic;
  publish_metric = λ _ w. w;
}

abbrev ana : RegisterInput
ana = record {
  email = codes "ana@example.com";
  password = codes "pw";
  full_name = codes "Ana";
  address = none;
  phone_number = none;
  e2e_source = false;
}

services-IsCognito : IsCognito (services false)
services-IsCognito = record {
  create_takes = λ name attributes created w done. created_taken w created done;
  taken_refused = λ name attributes w now. taken_threw w now;
  password_keeps = λ name other secret w now. now;
  row_keeps = λ name row w now. now;
  id_keeps = λ name prefix w now. now;
  secret_keeps = λ name w now. now;
}
  where
    created_taken :
        (w : World) (created : Attributes) → (create w).0 ≡ returned created → (create w).1 ≡ true
    created_taken true created done = refl
    created_taken false created done = refl

    taken_threw : (w : World) → w ≡ true → (create w).0 ≡ threw username_exists
    taken_threw true now = refl
    taken_threw false now = ground (arith, now)

register-essential_example :
    ((register (services true) ana false).0
      ≡ (essential (services true) password (codes "usr_") (codes "pw") ana false).0)
    × ((register_passwordless (services true) ana false).0
        ≡ (essential (services true) passwordless (codes "usr_") (codes "secret") ana false).0)
register-essential_example = register-essential (services true) ana false

register-orphan_example :
    ((register (services false) ana true).0 ≡ threw email_already_exists)
    × ((register_passwordless (services false) ana true).0 ≡ threw email_already_exists)
unfolding register register_with sign_up same_text
register-orphan_example =
    register-orphan (services false) services-IsCognito ana ana ((codes "sub", codes "sub-1") ∷ [])
      (database_error (codes "down")) false true refl refl refl
