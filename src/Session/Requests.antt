-- ===== src/Session/Requests.antt =====
-- The two interceptors that every request of the web client passes, `refreshInterceptor` outside
-- `authInterceptor` (apps/web/src/app/core/auth/refresh-interceptor.ts, auth-interceptor.ts). A
-- request that is answered is one step from the world to a response or a failure.
use microservices_running.Prelude.{ℕ, String, Bool, false, Option, none, some, ◌==◌, if◌then◌else◌}
use microservices_running.Effects.{Outcome, returned, threw, Io, continue}
use microservices_running.Session.{StoredTokens}
use microservices_running.Session.Paths.{Url, gateway_path, is_public, url_eq, sign_out_path}
use microservices_running.Session.Tokens.{Browser, read}

-- `ApiErrorBody`: of its keys, those that the client reads, each present only as a string.
pub record ErrorBody : Type 0 where
  pub code : Option String
  pub error : Option String
  pub message : Option String
  pub detail : Option String

-- `HttpErrorResponse`, with the body if `isApiErrorBody` holds of it, or anything else that was
-- thrown, with its message.
pub data Failure : Type 0 where
  response : (status : ℕ) (body : Option ErrorBody) (message : String) → Failure
  failed : (message : String) → Failure

-- `authorization` is the token after `Bearer `; `rest` is the method, the other headers and the
-- body.
pub record HttpRequest (Rest : Type 0) : Type 0 where
  pub url : Url
  pub authorization : Option String
  pub rest : Rest

abbrev pub Handler : (W Rest R : Type 0) → Type 0
Handler W Rest R = HttpRequest Rest → Io W Failure R

abbrev pub unauthorized : ℕ
unauthorized = 401

abbrev pub with_token : {Rest : Type 0} → Option StoredTokens → HttpRequest Rest → HttpRequest Rest
with_token none req = req
with_token (some tokens) req = record req { authorization = some tokens.access_token }

abbrev pub is_sign_out : Option Url → Bool
is_sign_out none = false
is_sign_out (some path) = url_eq path sign_out_path

module _ {W R : Type 0} where
  -- The inner `catchError`: whatever the refresh or the retry threw, the first error is rethrown.
  abbrev pub or_original : Failure → Outcome Failure R × W → Outcome Failure R × W
  or_original error (returned answer, w) = (returned answer, w)
  or_original error (threw _, w) = (threw error, w)

  -- The outer `catchError`.
  abbrev pub recover :
      Io W Failure StoredTokens → Io W Failure R → Outcome Failure R × W → Outcome Failure R × W
  recover refresh again (returned answer, w) = (returned answer, w)
  recover refresh again (threw (failed message), w) = (threw (failed message), w)
  recover refresh again (threw (response status body message), w) =
      if status == unauthorized
      then or_original (response status body message) (continue (refresh w) (λ _. again))
      else (threw (response status body message), w)

module _ {W Rest R : Type 0} where
  unfoldable pub auth_interceptor :
      {Key Blob : Type 0} (prefix : Url) (browser : Browser W Failure Key Blob)
      → Handler W Rest R
      → Handler W Rest R
  auth_interceptor prefix browser next req w =
      if is_public prefix req.url
      then next req w
      else let (tokens, w') = read browser w in next (with_token tokens req) w'

  unfoldable pub refresh_interceptor :
      (prefix : Url) → Io W Failure StoredTokens → Handler W Rest R → Handler W Rest R
  refresh_interceptor prefix refresh next req w =
      if is_public prefix req.url
      then next req w
      else if is_sign_out (gateway_path prefix req.url)
      then next req w
      else recover refresh (next req) (next req w)

  -- The chain that `withInterceptors` builds.
  unfoldable pub intercepted :
      {Key Blob : Type 0} (prefix : Url) (browser : Browser W Failure Key Blob)
      → Io W Failure StoredTokens
      → Handler W Rest R
      → Handler W Rest R
  intercepted prefix browser refresh send =
      refresh_interceptor prefix refresh (auth_interceptor prefix browser send)
