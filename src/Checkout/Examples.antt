-- ===== src/Checkout/Examples.antt =====
-- The theorems on the checkout at a cart of two lines, one of which is not available.
use microservices_running.Prelude.{
  String, true, false, Option, none, some, List, [], ◌∷◌, str_eq, if◌then◌else◌, ◌≡◌, ◌⊎◌, refl,
}
use microservices_running.Effects.{returned, threw, Io}
use microservices_running.Session.{codes}
use microservices_running.Session.Paths.{Url}
use microservices_running.Session.Tokens.{read, write}
use microservices_running.Session.Requests.{Failure, response, HttpRequest, intercepted}
use microservices_running.Session.Refresh.{request}
use microservices_running.Session.Sample.{
  Cell, browser, browser-IsBrowser, tokens, signed_in, answer, renewed, services,
}
use microservices_running.Cart.{CartStore}
use microservices_running.Checkout.{CheckoutLine, CreateOrderLine, OrderRequest, Order, Page}
use microservices_running.Checkout.Paying.{Shell, order_options, create_order, pay}
use microservices_running.Checkout.Keys.{Ends, pay-key}
use microservices_running.Checkout.Retries.{pay-intercepted}
use microservices_running.Checkout.Address.{
  PostalAddress, AddressPage, Edit, suggested, line2_typed, street_typed, parse_address, edit_all,
  edit, on_address_suggested, on_street_typed,
}
use microservices_running.Checkout.Shown.{AsTyped, AsResolved, parse_address-edit_all}

abbrev lines : List CheckoutLine
lines =
    record { product_id = "mug"; quantity = 2; available = true }
    ∷ record { product_id = "cup"; quantity = 1; available = false }
    ∷ []

abbrev mug : CreateOrderLine
mug = record { product_id = "mug"; quantity = 2 }

abbrev cart : CartStore
cart = record {
  cart = none;
  loading = false;
  saving = false;
  pending = [];
  error = none;
  timers = [];
  queue = [];
  running = none;
}

abbrev page : Page
page = record {
  idempotency_key = "first";
  placing = false;
  checkout_error = none;
  stripe_enabled = true;
  selected_payment_method_id = some "pm_1";
  cart = cart;
}

abbrev prefix : Url
prefix = codes "/v1"

abbrev shell : Shell Cell
shell = record { random_uuid = λ w. ("second", w); navigate = λ order w. (returned tt, w) }

abbrev reply : Option String → Failure
reply none = response 401 none "bare"
reply (some token) =
    if str_eq token "new" then response 503 none "unavailable" else response 401 none "expired"

-- A server that refuses the old token and fails on the new one.
abbrev send : HttpRequest OrderRequest → Io Cell Failure Order
send req w = (threw (reply req.authorization), w)

pay-key_example :
    Ends prefix send shell
      (create_order prefix send shell (mug ∷ []) (order_options page none) signed_in).0
      page
      (pay prefix send shell lines none page signed_in).0
pay-key_example = pay-key prefix send shell lines mug [] none page signed_in refl

pay-intercepted_example :
    (pay prefix
      (intercepted prefix browser (request browser (services (returned answer))) send)
      shell
      lines
      none
      page
      signed_in).0.idempotency_key
    ≡ "second"
unfolding read write
pay-intercepted_example =
    pay-intercepted browser browser-IsBrowser (services (returned answer)) shell prefix send lines
      mug [] none page none "expired" tokens answer (response 503 none "unavailable") signed_in
      signed_in signed_in signed_in renewed renewed refl (refl, (refl, (refl, tt))) refl refl refl
      refl refl

abbrev trim : String → String
trim text = if str_eq text " " then "" else text

abbrev kennedy : PostalAddress
kennedy = record {
  line1 = "Av. Kennedy";
  line2 = none;
  city = "Santo Domingo";
  state = "DN";
  postal_code = "10604";
  country = "DO";
}

abbrev blank : AddressPage
blank = record {
  user = none;
  address_model = record {
    street = "";
    line2 = "";
    city = "";
    state = "";
    postal_code = "";
    phone_number = "";
  };
  resolved_address = none;
  editing_address = false;
  saving_address = false;
  address_error = none;
}

abbrev edits : List Edit
edits = suggested kennedy ∷ street_typed "Av. Kennedy 5" ∷ line2_typed "Apt 3" ∷ []

parse_address-edit_all_example :
    let s' = edit_all trim edits blank in
    let a = parse_address trim s' in
    (a.line1 ≡ trim s'.address_model.street)
    × (AsTyped trim a s'.resolved_address s'.address_model
        ⊎ AsResolved trim a s'.resolved_address s'.address_model)
parse_address-edit_all_example = parse_address-edit_all trim edits blank refl

-- The apartment that was typed after a suggestion is not saved.
line2_dropped : (parse_address trim (edit_all trim edits blank)).line2 ≡ none
unfolding parse_address edit_all edit on_address_suggested on_street_typed
line2_dropped = refl
