-- ===== src/Checkout/Retries.antt =====
-- Paying with an expired access token: `pay`
-- (apps/web/src/app/features/checkout/checkout-payment.ts) over the interceptor chain
-- (core/auth/refresh-interceptor.ts).
use microservices_running.Prelude.{
  String, true, false, Option, none, some, List, [], ◌∷◌, ◌≡◌, refl, ap, ◌∙◌,
}
use microservices_running.Effects.{returned, threw}
use microservices_running.Session.{StoredTokens, codes}
use microservices_running.Session.Paths.{Url, url_of, gateway_path, is_public}
use microservices_running.Session.Routes.{IsPlain, gateway_path-url_of}
use microservices_running.Session.Tokens.{Browser, read, write}
use microservices_running.Session.Reading.{IsBrowser}
use microservices_running.Session.Requests.{
  Failure, ErrorBody, response, HttpRequest, Handler, unauthorized, or_original, intercepted,
  is_sign_out,
}
use microservices_running.Session.Refresh.{Services, RefreshResponse, carried, request}
use microservices_running.Session.Retry.{sent, intercepted-request}
use microservices_running.Session.Api.{post, map_error, to_api_error}
use microservices_running.Checkout.{
  CheckoutLine, CreateOrderLine, CardMetadata, OrderRequest, Order, Page,
}
use microservices_running.Checkout.Paying.{
  Shell, order_request, order_lines, order_options, create_order, placed, paying, pay,
}

module _ (prefix : Url) where
  -- `POST /orders`, as `pay` hands it to the interceptors.
  abbrev pub order_call :
      List CreateOrderLine → Option CardMetadata → Page → HttpRequest OrderRequest
  order_call lines card s = record {
    url = url_of prefix (codes "/orders");
    authorization = none;
    rest = order_request lines (order_options s card);
  }

  orders-private :
      IsPlain prefix
      → (is_public prefix (url_of prefix (codes "/orders")) ≡ false)
        × (is_sign_out (gateway_path prefix (url_of prefix (codes "/orders"))) ≡ false)
  orders-private plain =
      let (path, public) =
        gateway_path-url_of prefix 47 (codes "orders") 0 [] plain
          (refl, (refl, (refl, (refl, (refl, (refl, (refl, tt))))))) refl tt in
      (public, ap is_sign_out path)

module _ {W Key Blob : Type 0} (browser : Browser W Failure Key Blob) (laws : IsBrowser browser)
    (services : Services W) (shell : Shell W) (prefix : Url) where
  -- The order was refused with a 401, the session refreshed and the same request sent a second time;
  -- whatever the second sending throws, be it a 5xx status or a lost connection after which the
  -- order may have been placed, the key is replaced by a new one.
  pub pay-intercepted :
      (send : Handler W OrderRequest Order) (lines : List CheckoutLine) (line : CreateOrderLine)
      (rest : List CreateOrderLine) (card : Option CardMetadata) (s : Page)
      (body : Option ErrorBody) (message : String) (old : StoredTokens) (answer : RefreshResponse)
      (e : Failure) (w w₁ w₂ w₃ w₄ w₅ : W)
      → order_lines lines ≡ line ∷ rest
      → IsPlain prefix
      → sent browser prefix send (order_call prefix (line ∷ rest) card s) w
        ≡ (threw (response unauthorized body message), w₁)
      → read browser w₁ ≡ (some old, w₂)
      → services.post_refresh old.refresh_token w₂ ≡ (returned answer, w₃)
      → write browser (carried old answer) w₃ ≡ (returned tt, w₄)
      → send
          (record (order_call prefix (line ∷ rest) card s) {
            authorization = some answer.access_token;
          })
          (read browser w₄).1
        ≡ (threw e, w₅)
      → (pay prefix
          (intercepted prefix browser (request browser services) send)
          shell
          lines
          card
          s
          w).0.idempotency_key
        ≡ (shell.random_uuid w₅).0
  unfolding pay create_order post to_api_error
  pay-intercepted send lines line rest card s body message old answer e w w₁ w₂ w₃ w₄ w₅ some_lines
        plain expired stored posted written failed_again =
      let chain = intercepted prefix browser (request browser services) send in
      let req = order_call prefix (line ∷ rest) card s in
      let (authenticated, stays) = orders-private prefix plain in
      let (again, _) =
        intercepted-request browser laws services prefix send req body message old answer w w₁ w₂ w₃
          w₄ authenticated stays expired stored posted written in
      let error = response unauthorized body message in
      let s' = record s { placing = true; checkout_error = none } in
      ap (λ ls. (paying prefix chain shell ls card s w).0.idempotency_key) some_lines
      ∙ ap (λ o. (placed prefix chain shell (map_error o) s').0.idempotency_key)
          (again ∙ ap (or_original error) failed_again)
