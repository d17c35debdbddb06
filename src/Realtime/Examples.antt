-- ===== src/Realtime/Examples.antt =====
-- The theorems on the sockets at a table that is the whole world.
use microservices_running.Prelude.{
  String, Bool, true, false, none, some, List, [], ◌∷◌, str_eq, keep, ◌≡◌, refl,
}
use microservices_running.Effects.{Outcome, returned, threw}
use microservices_running.Realtime.{Connection, CallError, Dynamo, has_id, without}
use microservices_running.Realtime.Connections.{ProxyResult}
use microservices_running.Realtime.Publishing.{fan_out}
use microservices_running.Realtime.FanOut.{IsDynamo, fan_out-keep}

abbrev Table : Type 0
Table = List Connection

abbrev table : Dynamo Table
table = record {
  rows = λ w. w;
  put = λ c w. (returned tt, c ∷ w);
  delete = λ id w. (returned tt, without id w);
  query_by_cognito_sub = λ sub w. (returned ("c1" ∷ "c2" ∷ []), w);
}

abbrev gone : CallError
gone = record { name = some "GoneException"; http_status = none }

-- Only the first connection is gone.
abbrev reply : Bool → Outcome CallError (Unit {0})
reply true = threw gone
reply false = returned tt

abbrev post : String → String → Table → Outcome CallError (Unit {0}) × Table
post id message w = (reply (str_eq id "c1"), w)

table-IsDynamo : IsDynamo table post
table-IsDynamo = record {
  query_reads = λ sub w. refl;
  post_reads = λ id m w. refl;
  delete_writes = λ id w. refl;
}

abbrev two : Table
two =
    record { connection_id = "c1"; cognito_sub = "ana"; connected_at = 0; ttl = 7200 }
    ∷ record { connection_id = "c2"; cognito_sub = "ana"; connected_at = 0; ttl = 7200 }
    ∷ []

fan_out-keep_example :
    keep (has_id "c2") (table.rows (fan_out table post "ana" "hello" two))
    ≡ keep (has_id "c2") (table.rows two)
fan_out-keep_example = fan_out-keep table post table-IsDynamo "c2" "ana" "hello" two (λ v. refl)

abbrev answer : ProxyResult
answer = record { status_code = 200; body = "connected" }

abbrev verify : String → Table → Outcome CallError String × Table
verify token w = (returned "ana", w)
