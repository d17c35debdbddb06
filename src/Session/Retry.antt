-- ===== src/Session/Retry.antt =====
-- What the interceptor chain of the web client does with an expired access token
-- (apps/web/src/app/core/auth/refresh-interceptor.ts).
use microservices_running.Prelude.{String, false, Option, some, ◌≡◌, refl, ◌∙◌, ap}
use microservices_running.Effects.{Outcome, returned, threw, Io, continue, throw, return, ◌>>◌}
use microservices_running.Session.{StoredTokens}
use microservices_running.Session.Paths.{Url, gateway_path, is_public}
use microservices_running.Session.Tokens.{Browser, read, write}
use microservices_running.Session.Reading.{IsBrowser, read-written}
use microservices_running.Session.Requests.{
  Failure, ErrorBody, response, HttpRequest, Handler, unauthorized, with_token, or_original,
  recover, is_sign_out, auth_interceptor, refresh_interceptor, intercepted,
}
use microservices_running.Session.Refresh.{
  Services, RefreshResponse, carried, or_sign_out, exchange, request, discard,
}

module _ {W Key Blob : Type 0} (browser : Browser W Failure Key Blob) (services : Services W) where
  return-or_sign_out :
      (o : Outcome Failure StoredTokens × W) (tokens : StoredTokens) (w : W)
      → o ≡ (returned tokens, w)
      → or_sign_out browser services o ≡ (returned tokens, w)
  return-or_sign_out o tokens w same = ap (or_sign_out browser services) same

  request-exchanged :
      (old : StoredTokens) (answer : RefreshResponse) (w w₁ w₂ w₃ : W)
      → read browser w ≡ (some old, w₁)
      → services.post_refresh old.refresh_token w₁ ≡ (returned answer, w₂)
      → write browser (carried old answer) w₂ ≡ (returned tt, w₃)
      → request browser services w ≡ (returned (carried old answer), w₃)
  unfolding request
  request-exchanged old answer w w₁ w₂ w₃ stored posted written =
      ap (λ r. or_sign_out browser services (exchange browser services r.0 r.1)) stored
      ∙ return-or_sign_out _ (carried old answer) w₃ (rw (posted, written))

module _ {W Rest R Key Blob : Type 0} (browser : Browser W Failure Key Blob) (prefix : Url) where
  -- What `auth_interceptor` sends for an authenticated request.
  abbrev pub sent : Handler W Rest R → Handler W Rest R
  sent send req w = let (tokens, w') = read browser w in send (with_token tokens req) w'

  auth_interceptor-sent :
      (send : Handler W Rest R) (req : HttpRequest Rest) (w : W)
      → is_public prefix req.url ≡ false
      → auth_interceptor prefix browser send req w ≡ sent send req w
  unfolding auth_interceptor
  auth_interceptor-sent send req w authenticated = rw authenticated

  intercepted-recover :
      (send : Handler W Rest R) (req : HttpRequest Rest) (refresh : Io W Failure StoredTokens)
      (w : W)
      → is_public prefix req.url ≡ false
      → is_sign_out (gateway_path prefix req.url) ≡ false
      → let next = auth_interceptor prefix browser send req in
        intercepted prefix browser refresh send req w ≡ recover refresh next (next w)
  unfolding intercepted refresh_interceptor
  intercepted-recover send req refresh w authenticated stays = rw (authenticated, stays)

  intercepted-expired :
      (send : Handler W Rest R) (req : HttpRequest Rest) (refresh : Io W Failure StoredTokens)
      (body : Option ErrorBody) (message : String) (w w₁ : W)
      → is_public prefix req.url ≡ false
      → is_sign_out (gateway_path prefix req.url) ≡ false
      → sent send req w ≡ (threw (response unauthorized body message), w₁)
      → intercepted prefix browser refresh send req w
        ≡ or_original
            (response unauthorized body message)
            (continue (refresh w₁) (λ _. auth_interceptor prefix browser send req))
  intercepted-expired send req refresh body message w w₁ authenticated stays expired =
      let again = auth_interceptor prefix browser send req in
      intercepted-recover send req refresh w authenticated stays
      ∙ ap (recover refresh again) (auth_interceptor-sent send req w authenticated ∙ expired)

  intercepted-renewed :
      (send : Handler W Rest R) (req : HttpRequest Rest) (refresh : Io W Failure StoredTokens)
      (body : Option ErrorBody) (message : String) (tokens : StoredTokens) (w w₁ w₂ : W)
      → is_public prefix req.url ≡ false
      → is_sign_out (gateway_path prefix req.url) ≡ false
      → sent send req w ≡ (threw (response unauthorized body message), w₁)
      → refresh w₁ ≡ (returned tokens, w₂)
      → intercepted prefix browser refresh send req w
        ≡ or_original (response unauthorized body message) (sent send req w₂)
  intercepted-renewed send req refresh body message tokens w w₁ w₂ authenticated stays expired
        renewed =
      let again = auth_interceptor prefix browser send req in
      let error = response unauthorized body message in
      intercepted-expired send req refresh body message w w₁ authenticated stays expired
      ∙ ap (λ o. or_original error (continue o (λ _. again))) renewed
      ∙ ap (or_original error) (auth_interceptor-sent send req w₂ authenticated)

module _ {W Rest R Key Blob : Type 0} (browser : Browser W Failure Key Blob)
    (laws : IsBrowser browser) (services : Services W) (prefix : Url) where
  -- An authenticated request other than the sign-out that is answered 401 is sent again, once, after
  -- a refresh whose POST is answered and whose tokens are stored: the second time it carries the
  -- access token of the answer, the refresh token that was stored is kept, and whatever the second
  -- sending throws is reported as the first answer's 401.
  pub intercepted-request :
      (send : Handler W Rest R) (req : HttpRequest Rest) (body : Option ErrorBody)
      (message : String) (old : StoredTokens) (answer : RefreshResponse) (w w₁ w₂ w₃ w₄ : W)
      → is_public prefix req.url ≡ false
      → is_sign_out (gateway_path prefix req.url) ≡ false
      → sent browser prefix send req w ≡ (threw (response unauthorized body message), w₁)
      → read browser w₁ ≡ (some old, w₂)
      → services.post_refresh old.refresh_token w₂ ≡ (returned answer, w₃)
      → write browser (carried old answer) w₃ ≡ (returned tt, w₄)
      → (intercepted prefix browser (request browser services) send req w
          ≡ or_original
              (response unauthorized body message)
              (send (record req { authorization = some answer.access_token }) (read browser w₄).1))
        × ((read browser w₄).0
            ≡ some (record {
              id_token = answer.id_token;
              access_token = answer.access_token;
              refresh_token = old.refresh_token;
            }))
  intercepted-request send req body message old answer w w₁ w₂ w₃ w₄ authenticated stays expired
        stored posted written =
      let kept = read-written browser laws (carried old answer) w₃ w₄ written in
      let tokens =
        request-exchanged browser services old answer w₁ w₂ w₃ w₄ stored posted written in
      (
        intercepted-renewed browser prefix send req (request browser services) body message
              (carried old answer) w w₁ w₄ authenticated stays expired tokens
            ∙ ap
                (λ o.
                  or_original (response unauthorized body message)
                    (send (with_token o req) (read browser w₄).1))
                kept,
        kept,
      )

module _ {W R : Type 0} where
  threw-discarded :
      (error e : Failure) (o : Outcome Failure (Unit {0}) × W)
      (again : StoredTokens → Io W Failure R)
      → or_original error (continue (continue o (λ _. throw e)) again) ≡ (threw error, o.1)
  threw-discarded error e (returned _, w) again = refl
  threw-discarded error e (threw _, w) again = refl

module _ {W Rest R Key Blob : Type 0} (browser : Browser W Failure Key Blob) (services : Services W)
    (prefix : Url) where
  -- An authenticated request other than the sign-out that is answered 401 fails with that 401 when
  -- there are tokens and the POST of the refresh throws; the world is left as the teardown of the
  -- session leaves it, whether or not the teardown throws, and nothing is sent again.
  pub intercepted-discard :
      (send : Handler W Rest R) (req : HttpRequest Rest) (body : Option ErrorBody)
      (message : String) (old : StoredTokens) (e : Failure) (w w₁ w₂ w₃ : W)
      → is_public prefix req.url ≡ false
      → is_sign_out (gateway_path prefix req.url) ≡ false
      → sent browser prefix send req w ≡ (threw (response unauthorized body message), w₁)
      → read browser w₁ ≡ (some old, w₂)
      → services.post_refresh old.refresh_token w₂ ≡ (threw e, w₃)
      → intercepted prefix browser (request browser services) send req w
        ≡ (threw (response unauthorized body message), (discard browser services w₃).1)
  unfolding request
  intercepted-discard send req body message old e w w₁ w₂ w₃ authenticated stays expired stored
        refused =
      let again = auth_interceptor prefix browser send req in
      let error = response unauthorized body message in
      let settled = λ (o : Outcome Failure StoredTokens × W).
        or_original error (continue (or_sign_out browser services o) (λ _. again)) in
      intercepted-expired browser prefix send req (request browser services) body message w w₁
        authenticated stays expired
      ∙ ap (λ r. settled (exchange browser services r.0 r.1)) stored
      ∙ ap
          (λ r. settled (
            continue r
              (λ answer. write browser (carried old answer) >> return (carried old answer))))
          refused
      ∙ threw-discarded error e (discard browser services w₃) (λ _. again)
