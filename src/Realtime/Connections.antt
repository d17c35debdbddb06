-- ===== src/Realtime/Connections.antt =====
-- The four routes of the socket API (functions/realtime-events/src: authorizer.ts, connect.ts,
-- disconnect.ts, default.ts, shared/connections-repository.ts, and `verifyCognitoToken` of
-- shared/jwt.ts). Logs and spans are left out.
use microservices_running.Prelude.{ℕ, ◌+◌, String, Option, none, some, get_or}
use microservices_running.Effects.{Outcome, returned, threw, Io, return, attempt, ◌>>=◌, ◌>>◌}
use microservices_running.Realtime.{CallError, Dynamo, truthy}

pub data Effect : Type 0 where
  allow deny : Effect

-- The policy's only statement, and the context that goes with it.
pub record AuthorizerResult : Type 0 where
  pub principal_id : String
  pub effect : Effect
  pub resource : String
  pub cognito_sub : Option String

pub record ProxyResult : Type 0 where
  pub status_code : ℕ
  pub body : String

abbrev pub policy : Effect → String → Option String → AuthorizerResult
policy effect method_arn sub = record {
  principal_id = get_or sub "anonymous";
  effect = effect;
  resource = method_arn;
  cognito_sub = sub;
}

abbrev pub ttl_seconds : ℕ
ttl_seconds = 7200

-- `verify` is the check of the JWT library, which answers the subject; `now` is in seconds.
module _ {W : Type 0} (db : Dynamo W) (verify : String → Io W CallError String) (now : W → ℕ) where
  abbrev pub authorized :
      (method_arn : String) → Outcome CallError String × W → AuthorizerResult × W
  authorized method_arn (returned sub, w) = (policy allow method_arn (some sub), w)
  authorized method_arn (threw _, w) = (policy deny method_arn none, w)

  abbrev pub authorize_token : (method_arn : String) → Option String → W → AuthorizerResult × W
  authorize_token method_arn none w = (policy deny method_arn none, w)
  authorize_token method_arn (some token) w = authorized method_arn (verify token w)

  unfoldable pub authorize :
      (method_arn : String) → (token : Option String) → W → AuthorizerResult × W
  authorize method_arn token = authorize_token method_arn (truthy token)

  unfoldable pub save_connection : (connection_id cognito_sub : String) → Io W CallError (Unit {0})
  save_connection connection_id cognito_sub w =
      db.put
        (record {
          connection_id = connection_id;
          cognito_sub = cognito_sub;
          connected_at = now w;
          ttl = now w + ttl_seconds;
        })
        w

  abbrev pub connect_as : (connection_id : String) → Option String → Io W CallError ProxyResult
  connect_as connection_id none =
      return (record { status_code = 500; body = "missing authorizer context" })
  connect_as connection_id (some sub) = do
    save_connection connection_id sub
    return (record { status_code = 200; body = "connected" })

  -- `sub` is the `cognito_sub` of the authorizer's context.
  unfoldable pub connect :
      (connection_id : String) → (sub : Option String) → Io W CallError ProxyResult
  connect connection_id sub = connect_as connection_id (truthy sub)

  -- A deletion that throws is only logged.
  unfoldable pub disconnect : (connection_id : String) → Io W CallError ProxyResult
  disconnect connection_id = do
    _ ← attempt (db.delete connection_id)
    return (record { status_code = 200; body = "disconnected" })

  -- `default.ts`: a message that a client sends is refused.
  unfoldable pub inbound : Io W CallError ProxyResult
  inbound = return (record {
    status_code = 400;
    body = "this channel is server-to-client only; inbound messages are ignored";
  })
