-- ===== src/EventsPipeline/Push.antt =====
-- The push of a change of status to the sockets of a user
-- (functions/events-pipeline/src/shared/realtime). The posts, which the code starts together, stand
-- one after the other; spans and log lines are left out.
use microservices_running.Prelude.{
  ℕ, String, Bool, false, Option, none, some, List, [], ◌∷◌, str_eq, ◌==◌, ◌||◌, if◌then◌else◌,
}
use microservices_running.Effects.{Outcome, returned, threw, Io}

-- The name and the HTTP status of an error, where it has them.
pub record CallError : Type 0 where
  pub name : Option String
  pub http_status : Option ℕ

pub record StatusMessage : Type 0 where
  pub type : String
  pub order_id : Option String
  pub status : String
  pub previous_status : String
  pub changed_at : String

pub record PushServices (W : Type 0) : Type 0 where
  pub query_by_cognito_sub : String → Io W CallError (List String)
  pub delete_connection : String → Io W CallError (Unit {0})
  pub post_to_connection : String → StatusMessage → Io W CallError (Unit {0})

abbrev is_text : String → Option String → Bool
is_text expected none = false
is_text expected (some text) = str_eq text expected

abbrev is_number : ℕ → Option ℕ → Bool
is_number expected none = false
is_number expected (some n) = n == expected

unfoldable pub is_gone : CallError → Bool
is_gone error = is_text "GoneException" error.name || is_number 410 error.http_status

module _ {W : Type 0} (services : PushServices W) where
  -- A connection that is gone is deleted, whatever the deletion throws.
  abbrev pub posted : String → Outcome CallError (Unit {0}) × W → W
  posted id (returned _, w) = w
  posted id (threw error, w) = if is_gone error then (services.delete_connection id w).1 else w

  unfoldable pub post_all : StatusMessage → List String → W → W
  post_all message [] w = w
  post_all message (id ∷ ids) w =
      post_all message ids (posted id (services.post_to_connection id message w))

  abbrev pub served : StatusMessage → Outcome CallError (List String) × W → W
  served message (returned ids, w) = post_all message ids w
  served message (threw error, w) = w

  -- `publishToUser`, which never throws.
  unfoldable pub publish_to_user : (cognito_sub : String) → StatusMessage → W → W
  unfolding post_all
  publish_to_user cognito_sub message w =
      served message (services.query_by_cognito_sub cognito_sub w)
