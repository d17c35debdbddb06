-- ===== src/Realtime/Handshake.antt =====
-- Whose connection the Lambda records (functions/realtime-events/src/authorizer.ts, connect.ts).
use microservices_running.Prelude.{ℕ, ◌+◌, String, Option, none, some, ◌≡◌, refl, ap, ◌∙◌, arith}
use microservices_running.Effects.{
  Outcome, returned, threw, Io, continue-returned, returned-injective,
}
use microservices_running.Realtime.{Connection, CallError, Dynamo, truthy}
use microservices_running.Realtime.Connections.{
  ProxyResult, authorized, authorize_token, authorize, save_connection, connect_as, connect,
}

truthy-some : (o : Option String) (text : String) → truthy o ≡ some text → o ≡ some text
truthy-some none text same = ground (arith, same)
truthy-some (some t) text same = ground (arith, same)

module _ {W : Type 0} (db : Dynamo W) (verify : String → Io W CallError String) (now : W → ℕ) where
  -- The row of a connection that is saved at a world.
  abbrev pub row_at : (connection_id cognito_sub : String) → W → Connection
  row_at connection_id cognito_sub v = record {
    connection_id = connection_id;
    cognito_sub = cognito_sub;
    connected_at = now v;
    ttl = now v + 7200;
  }

  authorized-sub :
      (arn : String) (o : Outcome CallError String × W) (sub : String)
      → (authorized db verify now arn o).0.cognito_sub ≡ some sub
      → o.0 ≡ returned sub
  authorized-sub arn (returned s, w) sub same = ground (arith, same)
  authorized-sub arn (threw _, w) sub same = ground (arith, same)

  token-sub :
      (arn : String) (token : Option String) (sub : String) (w : W)
      → (authorize_token db verify now arn token w).0.cognito_sub ≡ some sub
      → (t : String) × (token ≡ some t) × ((verify t w).0 ≡ returned sub)
  token-sub arn none sub w same = ground (arith, same)
  token-sub arn (some t) sub w same = (t, refl, authorized-sub arn (verify t w) sub same)

  connected-as :
      (id : String) (o : Option String) (answer : ProxyResult) (v v' : W)
      → connect_as db verify now id o v ≡ (returned answer, v')
      → answer.status_code ≡ 200
      → (sub : String) × (o ≡ some sub) × (db.put (row_at id sub v) v ≡ (returned tt, v'))
  unfolding save_connection
  connected-as id none answer v v' same ok =
      let moved = returned-injective (connect_as db verify now id none v) _ answer v v' refl same in
      let refused = ap (λ (r : ProxyResult). r.status_code) moved ∙ ok in ground (arith, refused)
  connected-as id (some sub) answer v v' same ok =
      let (_, v₁, put, rest) = continue-returned (db.put (row_at id sub v) v) _ answer v' same in
      (sub, refl, put ∙ ap (λ u. (returned tt, u)) (ap (λ o. o.1) rest))

  -- A socket whose `connect` answers 200 with the context of its authorizer had a token, the check of
  -- that token answered a subject, and the row that was put holds that subject with the connection's
  -- id, and expires two hours after it was put.
  pub connect-authorize :
      (arn id : String) (token : Option String) (answer : ProxyResult) (w v v' : W)
      → connect db verify now id (authorize db verify now arn token w).0.cognito_sub v
        ≡ (returned answer, v')
      → answer.status_code ≡ 200
      → (t : String) × (token ≡ some t)
        × (sub : String) × ((verify t w).0 ≡ returned sub)
        × (db.put (row_at id sub v) v ≡ (returned tt, v'))
  unfolding connect authorize
  connect-authorize arn id token answer w v v' same ok =
      let context = (authorize_token db verify now arn (truthy token) w).0.cognito_sub in
      let (sub, is_sub, put) = connected-as id (truthy context) answer v v' same ok in
      let (t, is_token, checked) =
        token-sub arn (truthy token) sub w (truthy-some context sub is_sub) in
      (t, truthy-some token t is_token, sub, checked, put)
