-- ===== src/Realtime.antt =====
-- The sockets of the signed-in users: the table of connections that the Lambda
-- functions/realtime-events keeps and the fan-out of the users service
-- (services/users/src/shared/realtime).
pub mod Connections
pub mod Publishing
pub mod FanOut
pub mod Handshake
mod Examples
use microservices_running.Prelude.{
  ℕ, String, Bool, true, false, Option, none, some, List, str_eq, ◌==◌, ◌||◌, keep, not, ◌≡◌,
  if◌then◌else◌,
}
use microservices_running.Effects.{Outcome, returned, threw, Io}

-- A row of the table of connections.
pub record Connection : Type 0 where
  pub connection_id : String
  pub cognito_sub : String
  pub connected_at : ℕ
  pub ttl : ℕ

-- What a call throws: the name and the HTTP status of its error, where it has them.
pub record CallError : Type 0 where
  pub name : Option String
  pub http_status : Option ℕ

-- The client of DynamoDB; `rows` is the content of the table.
pub record Dynamo (W : Type 0) : Type 0 where
  pub rows : W → List Connection
  pub put : Connection → Io W CallError (Unit {0})
  pub delete : (connection_id : String) → Io W CallError (Unit {0})
  pub query_by_cognito_sub : String → Io W CallError (List String)

abbrev pub has_id : String → Connection → Bool
has_id id c = str_eq c.connection_id id

abbrev pub without : String → List Connection → List Connection
without id = keep (λ c. not (has_id id c))

-- `x ? x : absent`, the empty text counting as absent.
abbrev pub truthy : Option String → Option String
truthy none = none
truthy (some text) = if str_eq text "" then none else some text
