-- ===== src/Accounts/Deletion.antt =====
-- Deleting an account (services/users/src/users/commands/delete-account.command.ts) and the calls
-- that delete its orders and trackings (shared/http/cascade-client.ts). Logs and spans are left out.
use microservices_running.Prelude.{
  String, Bool, Option, none, some, List, [], ◌∷◌, str_eq, if◌then◌else◌,
}
use microservices_running.Effects.{
  Outcome, returned, threw, Io, return, throw, attempt, ◌>>=◌, ◌>>◌,
}
use microservices_running.Accounts.{User, AccountError, cascade_failed, cascade_unavailable, truthy}

-- A `fetch`: the two services, and the identities of the body under the names that each wants.
pub data CascadeService : Type 0 where
  orders tracking : CascadeService

abbrev pub service_name : CascadeService → String
service_name orders = "orders"
service_name tracking = "tracking"

abbrev pub path_of : CascadeService → String
path_of orders = "/v1/orders/by-user"
path_of tracking = "/v1/trackings/by-user"

pub record FetchResponse : Type 0 where
  pub ok : Bool
  -- `status ${response.status}`
  pub status_text : String

pub data DeleteAccountResult : Type 0 where
  deleted not_found : DeleteAccountResult

-- What the command calls: the caller's user, `fetch`, the database, the cache, the identity provider
-- and the metrics. A `fetch` that fails throws its message.
pub record DeletionServices (W : Type 0) : Type 0 where
  pub resolve : Io W AccountError (Option User)
  pub fetch : CascadeService → (path : String) → List (String × String) → Io W String FetchResponse
  pub delete_user_row : (id : String) → Io W AccountError (Unit {0})
  pub invalidate_me : (cognito_sub user_id : String) → Io W AccountError (Unit {0})
  pub delete_cognito_user : (email : String) → Io W AccountError (Unit {0})
  pub publish_metric : (name : String) → Io W AccountError (Unit {0})

-- The first key whose value is empty.
abbrev pub empty_key : List (String × String) → Option String
empty_key [] = none
empty_key ((key, value) ∷ rest) = if str_eq value "" then some key else empty_key rest

abbrev pub body_of : CascadeService → (cognito_sub user_id : String) → List (String × String)
body_of orders cognito_sub user_id = ("cognitoSub", cognito_sub) ∷ ("userId", user_id) ∷ []
body_of tracking cognito_sub user_id = ("cognito_sub", cognito_sub) ∷ ("user_id", user_id) ∷ []

module _ {W : Type 0} (services : DeletionServices W) where
  abbrev pub confirmed :
      CascadeService → Outcome String FetchResponse × W → Outcome AccountError (Unit {0}) × W
  confirmed service (threw message, w) = (threw (cascade_failed (service_name service) message), w)
  confirmed service (returned answer, w) =
      if answer.ok
      then (returned tt, w)
      else (threw (cascade_failed (service_name service) answer.status_text), w)

  abbrev pub send_unless :
      Option String → CascadeService → List (String × String) → Io W AccountError (Unit {0})
  send_unless none service body w =
      confirmed service (services.fetch service (path_of service) body w)
  send_unless (some key) service body w = (threw (cascade_failed (service_name service) key), w)

  -- The reason of an empty identity names its key.
  unfoldable pub send : CascadeService → List (String × String) → Io W AccountError (Unit {0})
  send service body = send_unless (empty_key body) service body

  -- `deleteOrdersForUser` and `deleteTrackingsForUser`.
  abbrev pub delete_for_user :
      CascadeService → (cognito_sub user_id : String) → Io W AccountError (Unit {0})
  delete_for_user service cognito_sub user_id = send service (body_of service cognito_sub user_id)

  -- After the row is gone, the cache and the identity provider may fail.
  abbrev pub clean_up : User → (cognito_sub : String) → Io W AccountError DeleteAccountResult
  clean_up user cognito_sub = do
    _ ← attempt (services.invalidate_me cognito_sub user.id)
    _ ← attempt (services.delete_cognito_user user.email)
    services.publish_metric "users_deleted_total"
    return deleted

  abbrev pub delete_linked : User → (cognito_sub : String) → Io W AccountError DeleteAccountResult
  delete_linked user cognito_sub = do
    delete_for_user orders cognito_sub user.id
    delete_for_user tracking cognito_sub user.id
    services.delete_user_row user.id
    clean_up user cognito_sub

  abbrev pub delete_target : User → Option String → Io W AccountError DeleteAccountResult
  delete_target user none = throw (cascade_unavailable "missing_cognito_sub")
  delete_target user (some cognito_sub) = delete_linked user cognito_sub

  abbrev pub delete_resolved : Option User → Io W AccountError DeleteAccountResult
  delete_resolved none = return not_found
  delete_resolved (some user) = delete_target user (truthy user.cognito_sub)

  unfoldable pub delete_account : Io W AccountError DeleteAccountResult
  delete_account = services.resolve >>= delete_resolved
