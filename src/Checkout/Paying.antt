-- ===== src/Checkout/Paying.antt =====
-- Placing the order: `createOrder` of apps/web/src/app/core/api/orders-api.ts and `pay` of
-- features/checkout/checkout-payment.ts.
use microservices_running.Prelude.{
  ℕ, String, Bool, true, false, Option, none, some, List, [], ◌∷◌, keep, map, leb, ltb, ◌&&◌,
  if◌then◌else◌,
}
use microservices_running.Effects.{Outcome, returned, threw, Io}
use microservices_running.Cart.{load, enqueue, forget_after_checkout}
use microservices_running.Session.Paths.{Url}
use microservices_running.Session.Requests.{Handler}
use microservices_running.Session.Api.{Thrown, api_error, unknown, post, auth_error_message}
use microservices_running.Session.{codes}
use microservices_running.Checkout.{
  CheckoutLine, CreateOrderLine, CardMetadata, CreateOrderOptions, OrderRequest, Order, Page,
  truthy,
}

abbrev pub order_request : List CreateOrderLine → CreateOrderOptions → OrderRequest
order_request lines options = record {
  lines = lines;
  payment_method_id = truthy options.payment_method_id;
  card = options.card;
  idempotency_key = truthy options.idempotency_key;
}

-- What `pay` calls besides: `crypto.randomUUID` and the router.
pub record Shell (W : Type 0) : Type 0 where
  pub random_uuid : W → String × W
  pub navigate : (order : String) → Io W Thrown (Unit {0})

-- `.filter((line) => line.available).map(...)`
abbrev pub order_lines : List CheckoutLine → List CreateOrderLine
order_lines lines =
    map (λ (line : CheckoutLine). record { product_id = line.product_id; quantity = line.quantity })
      (keep (λ (line : CheckoutLine). line.available) lines)

abbrev pub order_options : Page → Option CardMetadata → CreateOrderOptions
order_options s card = record {
  payment_method_id = if s.stripe_enabled then s.selected_payment_method_id else none;
  card = if s.stripe_enabled then none else card;
  idempotency_key = some s.idempotency_key;
}

-- `error instanceof ApiError && error.status >= 400 && error.status < 500`
abbrev pub is_definitive : Thrown → Bool
is_definitive unknown = false
is_definitive (api_error e) = leb 400 e.status && ltb e.status 500

abbrev pub sold_out : List (ℕ × String)
sold_out =
    (
      409,
      "Someone bought the last one while you were checking out. Adjust your cart and try again.",
    )
    ∷ []

module _ {W : Type 0} (prefix : Url) (send : Handler W OrderRequest Order) (shell : Shell W) where
  unfoldable pub create_order : List CreateOrderLine → CreateOrderOptions → Io W Thrown Order
  create_order lines options = post prefix send (codes "/orders") (order_request lines options)

  abbrev pub fresh_key : Page → W → Page × W
  fresh_key s w = let (key, w') = shell.random_uuid w in (record s { idempotency_key = key }, w')

  -- The `catch` and the `finally`.
  abbrev pub refused : Thrown → Page → W → Page × W
  refused error s w =
      let (s', w') = if is_definitive error then fresh_key s w else (s, w) in
      (
        record s' {
          checkout_error = some (auth_error_message error sold_out);
          cart = enqueue load s'.cart;
          placing = false;
        },
        w',
      )

  abbrev pub navigated : Outcome Thrown (Unit {0}) × W → Page → Page × W
  navigated (returned _, w) s = (record s { placing = false }, w)
  navigated (threw error, w) s = refused error s w

  abbrev pub placed : Outcome Thrown Order × W → Page → Page × W
  placed (threw error, w) s = refused error s w
  placed (returned order, w) s =
      let (s', w') = fresh_key s w in
      navigated (shell.navigate order.id w') (record s' { cart = forget_after_checkout s'.cart })

  abbrev pub paying : List CreateOrderLine → Option CardMetadata → Page → W → Page × W
  paying [] card s w = (s, w)
  paying (line ∷ lines) card s w =
      placed (create_order (line ∷ lines) (order_options s card) w)
        (record s { placing = true; checkout_error = none })

  -- `card` is what `cardMetadata` reads off the form.
  unfoldable pub pay : List CheckoutLine → Option CardMetadata → Page → W → Page × W
  pay lines = paying (order_lines lines)
