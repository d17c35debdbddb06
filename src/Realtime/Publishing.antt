-- ===== src/Realtime/Publishing.antt =====
-- Pushing a message to the sockets of a user (`publishToUser` of
-- services/users/src/shared/realtime/websocket-publisher.ts over connections-reader.ts). The
-- connections are served one after another, where the code serves them concurrently.
use microservices_running.Prelude.{
  ℕ, String, Bool, false, Option, none, some, List, [], ◌∷◌, str_eq, ◌==◌, ◌||◌, if◌then◌else◌,
}
use microservices_running.Effects.{Outcome, returned, threw, Io}
use microservices_running.Realtime.{CallError, Dynamo}

abbrev pub is_text : Option String → String → Bool
is_text none text = false
is_text (some name) text = str_eq name text

abbrev pub is_number : Option ℕ → ℕ → Bool
is_number none n = false
is_number (some m) n = m == n

unfoldable pub is_gone : CallError → Bool
is_gone e = is_text e.name "GoneException" || is_number e.http_status 410

-- `post` is `PostToConnection`.
module _ {W M : Type 0} (db : Dynamo W)
    (post : (connection_id : String) → M → Io W CallError (Unit {0})) where
  abbrev pub posted : String → Outcome CallError (Unit {0}) × W → W
  posted id (returned _, w) = w
  posted id (threw e, w) = if is_gone e then (db.delete id w).1 else w

  abbrev pub post_all : M → List String → W → W
  post_all message [] w = w
  post_all message (id ∷ ids) w = post_all message ids (posted id (post id message w))

  abbrev pub served : M → Outcome CallError (List String) × W → W
  served message (returned ids, w) = post_all message ids w
  served message (threw _, w) = w

  -- It never throws.
  unfoldable pub fan_out : (cognito_sub : String) → M → W → W
  fan_out cognito_sub message w = served message (db.query_by_cognito_sub cognito_sub w)
