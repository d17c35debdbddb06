-- ===== src/Checkout/Keys.antt =====
-- The idempotency key of an attempt to pay (`pay` of
-- apps/web/src/app/features/checkout/checkout-payment.ts).
use microservices_running.Prelude.{
  ◌&&◌, ltb, leb, String, Bool, true, false, Option, none, List, ◌∷◌, if◌then◌else◌, ◌≡◌, refl, sym,
  subst, ap, ◌∙◌, ◌⊎◌, inl, inr, Bool-cases,
}
use microservices_running.Effects.{Outcome, returned, threw}
use microservices_running.Session.Paths.{Url}
use microservices_running.Session.Requests.{Handler}
use microservices_running.Session.Api.{Thrown, api_error, unknown}
use microservices_running.Checkout.{
  CheckoutLine, CreateOrderLine, CardMetadata, OrderRequest, Order, Page,
}
use microservices_running.Checkout.Paying.{
  Shell, order_lines, order_options, is_definitive, create_order, refused, navigated, placed,
  paying, pay, fresh_key,
}

-- Whether the attempt is over: the order was placed, or it was refused with a 4xx status.
abbrev pub is_settled : Outcome Thrown Order → Bool
is_settled (returned _) = true
is_settled (threw unknown) = false
is_settled (threw (api_error e)) = leb 400 e.status && ltb e.status 500

threw-is_settled : (error : Thrown) → is_settled (threw error) ≡ is_definitive error
threw-is_settled unknown = refl
threw-is_settled (api_error e) = refl

module _ {W : Type 0} (prefix : Url) (send : Handler W OrderRequest Order) (shell : Shell W) where
  -- A key that `randomUUID` made.
  abbrev pub IsFresh : String → Type 0
  IsFresh key = (v : W) × (key ≡ (shell.random_uuid v).0)

  -- After the outcome of the order: `placing` is reset, and the key is the old one exactly if the
  -- attempt is not over.
  abbrev pub Ends : Outcome Thrown Order → (s s' : Page) → Type 0
  Ends o s s' =
      (s'.placing ≡ false)
      × (((is_settled o ≡ false) × (s'.idempotency_key ≡ s.idempotency_key))
          ⊎ ((is_settled o ≡ true) × IsFresh s'.idempotency_key))

  refused-definitive :
      (error : Thrown) (s : Page) (w : W)
      → is_definitive error ≡ true
      → Ends (threw error) s (refused prefix send shell error s w).0
  refused-definitive error s w over = (
    refl,
    inr (
      threw-is_settled error ∙ over,
      (w, ap (λ b. (if b then fresh_key prefix send shell s w else (s, w)).0.idempotency_key) over),
    ),
  )

  refused-open :
      (error : Thrown) (s : Page) (w : W)
      → is_definitive error ≡ false
      → Ends (threw error) s (refused prefix send shell error s w).0
  refused-open error s w pending = (refl, inl (threw-is_settled error ∙ pending, rw pending))

  refused-Ends :
      (error : Thrown) (s : Page) (w : W)
      → Ends (threw error) s (refused prefix send shell error s w).0
  refused-Ends error s w = elim (Bool-cases (is_definitive error)) [
    | inl over ↦ refused-definitive error s w over
    | inr pending ↦ refused-open error s w pending
  ]

  refused-IsFresh :
      (error : Thrown) (s : Page) (w : W)
      → IsFresh s.idempotency_key
      → IsFresh (refused prefix send shell error s w).0.idempotency_key
  refused-IsFresh error s w (v, fresh) = elim (refused-Ends error s w).1 [
    | inl (_, kept) ↦ (v, kept ∙ fresh)
    | inr (_, other) ↦ other
  ]

  navigated-Ends :
      (o : Outcome Thrown (Unit {0}) × W) (order : Order) (s s' : Page)
      → IsFresh s'.idempotency_key
      → Ends (returned order) s (navigated prefix send shell o s').0
  navigated-Ends (returned _, w) order s s' fresh = (refl, inr (refl, fresh))
  navigated-Ends (threw error, w) order s s' fresh =
      ((refused-Ends error s' w).0, inr (refl, refused-IsFresh error s' w fresh))

  placed-Ends :
      (o : Outcome Thrown Order × W) (s s' : Page)
      → s'.idempotency_key ≡ s.idempotency_key
      → Ends o.0 s (placed prefix send shell o s').0
  placed-Ends (threw error, w) s s' same = (
    refl,
    elim (refused-Ends error s' w).1 [
      | inl (pending, kept) ↦ inl (pending, kept ∙ same)
      | inr over ↦ inr over
    ],
  )
  placed-Ends (returned order, w) s s' same =
      navigated-Ends (shell.navigate order.id (shell.random_uuid w).1) order s _ (w, refl)

  -- Paying for at least one available line ends with `placing` reset whatever is thrown. The key of
  -- the next attempt is the same one exactly if the order was neither placed nor refused with a 4xx
  -- status; otherwise, also if only the navigation to the placed order throws, it is one that
  -- `randomUUID` made.
  pub pay-key :
      (lines : List CheckoutLine) (line : CreateOrderLine) (rest : List CreateOrderLine)
      (card : Option CardMetadata) (s : Page) (w : W)
      → order_lines lines ≡ line ∷ rest
      → Ends
          (create_order prefix send shell (line ∷ rest) (order_options s card) w).0
          s
          (pay prefix send shell lines card s w).0
  unfolding pay
  pay-key lines line rest card s w some_lines =
      subst
        (λ ls.
          Ends (create_order prefix send shell (line ∷ rest) (order_options s card) w).0 s
            (paying prefix send shell ls card s w).0)
        (sym some_lines)
        (placed-Ends (create_order prefix send shell (line ∷ rest) (order_options s card) w) s
          (record s { placing = true; checkout_error = none }) refl)
