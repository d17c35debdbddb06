-- ===== src/Session/Examples.antt =====
-- The theorems on the session at the browser of one cell.
use microservices_running.Prelude.{str_eq, if◌then◌else◌, String, Option, none, some, [], ◌≡◌, refl}
use microservices_running.Effects.{Outcome, returned, threw, Io}
use microservices_running.Session.Sample.{
  Cell, browser, browser-IsBrowser, tokens, signed_in, answer, renewed, services,
}
use microservices_running.Session.{codes}
use microservices_running.Session.Paths.{Url, gateway_path, is_public}
use microservices_running.Session.Tokens.{read, write, clear}
use microservices_running.Session.Reading.{read-write}
use microservices_running.Session.Requests.{
  Failure, response, HttpRequest, unauthorized, or_original, intercepted,
}
use microservices_running.Session.Refresh.{carried, request}
use microservices_running.Session.Retry.{intercepted-request}
use microservices_running.Session.Flights.{Coordinator}

abbrev prefix : Url
prefix = codes "/v1"

read-write_example :
    ((read browser signed_in).0 ≡ some tokens) × ((read browser (clear browser signed_in)).0 ≡ none)
unfolding write
read-write_example = read-write browser browser-IsBrowser tokens none signed_in none refl refl

-- `GET /me`, refused with a 401 while it carries the old token.
abbrev me : HttpRequest (Unit {0})
me = record { url = codes "/v1/me"; authorization = none; rest = tt }

abbrev reply : Option String → Outcome Failure String
reply none = threw (response unauthorized none "bare")
reply (some token) =
    if str_eq token "new" then returned "ana" else threw (response unauthorized none "expired")

abbrev send : HttpRequest (Unit {0}) → Io Cell Failure String
send req w = (reply req.authorization, w)

intercepted-request_example :
    (intercepted prefix browser (request browser (services (returned answer))) send me signed_in
      ≡ or_original
          (response unauthorized none "expired")
          (send (record me { authorization = some "new" }) (read browser renewed).1))
    × ((read browser renewed).0 ≡ some (carried tokens answer))
unfolding read write is_public gateway_path
intercepted-request_example =
    intercepted-request browser browser-IsBrowser (services (returned answer)) prefix send me none
      "expired" tokens answer signed_in signed_in signed_in signed_in renewed refl refl refl refl
      refl refl

abbrev idle : Coordinator String
idle = record { in_flight = none; started = 4; answers = [] }
