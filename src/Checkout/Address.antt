-- ===== src/Checkout/Address.antt =====
-- The address form of the checkout
-- (apps/web/src/app/features/checkout/checkout-payment.ts, bound in checkout-payment.html).
use microservices_running.Prelude.{
  String, Bool, true, false, Option, none, some, List, [], ◌∷◌, str_eq, get_or, if◌then◌else◌,
}
use microservices_running.Effects.{Outcome, returned, threw, Io}
use microservices_running.Session.Api.{Thrown, auth_error_message}

pub record PostalAddress : Type 0 where
  pub line1 : String
  pub line2 : Option String
  pub city : String
  pub state : String
  pub postal_code : String
  pub country : String

pub record AddressForm : Type 0 where
  pub street : String
  pub line2 : String
  pub city : String
  pub state : String
  pub postal_code : String
  pub phone_number : String

-- The part of the session's user that the page reads.
pub record User : Type 0 where
  pub address : Option PostalAddress
  pub phone_number : Option String

pub record UpdateUser : Type 0 where
  pub address : PostalAddress
  pub phone_number : Option String

pub record AddressPage : Type 0 where
  pub user : Option User
  pub address_model : AddressForm
  pub resolved_address : Option PostalAddress
  pub editing_address : Bool
  pub saving_address : Bool
  pub address_error : Option String

abbrev pub address_of : Option User → Option PostalAddress
address_of none = none
address_of (some user) = user.address

abbrev pub phone_of : Option User → Option String
phone_of none = none
phone_of (some user) = user.phone_number

-- What the buyer does: choosing a suggestion, typing into one of the inputs, and opening or leaving
-- the form. Typing sets the model and emits `valueChange`, which line 2 and the phone do not bind.
pub data Edit : Type 0 where
  suggested : PostalAddress → Edit
  street_typed line2_typed city_typed state_typed postal_code_typed phone_typed : String → Edit
  edit_started edit_cancelled : Edit

unfoldable pub on_address_suggested : PostalAddress → AddressPage → AddressPage
on_address_suggested address s = record s {
  resolved_address = some address;
  address_model = record s.address_model {
    street = address.line1;
    city = address.city;
    state = address.state;
    postal_code = address.postal_code;
  };
}

unfoldable pub on_resolved_field_typed : AddressPage → AddressPage
on_resolved_field_typed s = record s { resolved_address = none }

abbrev pub edited : Option PostalAddress → AddressPage → AddressPage
edited none s = s
edited (some saved) s = record s {
  resolved_address = none;
  address_error = none;
  address_model = record {
    street = saved.line1;
    line2 = get_or saved.line2 "";
    city = saved.city;
    state = saved.state;
    postal_code = saved.postal_code;
    phone_number = get_or (phone_of s.user) "";
  };
  editing_address = true;
}

unfoldable pub start_editing_address : AddressPage → AddressPage
start_editing_address s = edited (address_of s.user) s

unfoldable pub cancel_editing_address : AddressPage → AddressPage
cancel_editing_address s = record s {
  editing_address = false;
  address_error = none;
  resolved_address = none;
}

-- `trim` is `String.prototype.trim`.
module _ (trim : String → String) where
  unfoldable pub on_street_typed : String → AddressPage → AddressPage
  on_street_typed value s =
      if str_eq (trim value) "" then record s { resolved_address = none } else s

  -- `text.trim() || null`
  abbrev pub trimmed_or_null : String → Option String
  trimmed_or_null text = if str_eq (trim text) "" then none else some (trim text)

  abbrev pub address_from : Option PostalAddress → AddressForm → PostalAddress
  address_from (some resolved) values = record resolved { line1 = trim values.street }
  address_from none values = record {
    line1 = trim values.street;
    line2 = trimmed_or_null values.line2;
    city = trim values.city;
    state = trim values.state;
    postal_code = trim values.postal_code;
    country = "";
  }

  unfoldable pub parse_address : AddressPage → PostalAddress
  parse_address s = address_from s.resolved_address s.address_model

  unfoldable pub edit : Edit → AddressPage → AddressPage
  unfolding on_address_suggested on_street_typed on_resolved_field_typed start_editing_address
      cancel_editing_address
  edit (suggested address) s = on_address_suggested address s
  edit (street_typed v) s =
      on_street_typed v (record s { address_model = record s.address_model { street = v } })
  edit (line2_typed v) s = record s { address_model = record s.address_model { line2 = v } }
  edit (city_typed v) s =
      on_resolved_field_typed (record s { address_model = record s.address_model { city = v } })
  edit (state_typed v) s =
      on_resolved_field_typed (record s { address_model = record s.address_model { state = v } })
  edit (postal_code_typed v) s =
      on_resolved_field_typed
        (record s { address_model = record s.address_model { postal_code = v } })
  edit (phone_typed v) s = record s { address_model = record s.address_model { phone_number = v } }
  edit edit_started s = start_editing_address s
  edit edit_cancelled s = cancel_editing_address s

  unfoldable pub edit_all : List Edit → AddressPage → AddressPage
  edit_all [] s = s
  edit_all (e ∷ es) s = edit_all es (edit e s)

  abbrev pub update_of : AddressPage → UpdateUser
  update_of s = record {
    address = parse_address s;
    phone_number = trimmed_or_null s.address_model.phone_number;
  }

  abbrev pub saved : Outcome Thrown User → AddressPage → AddressPage
  saved (returned user) s = record s {
    user = some user;
    editing_address = false;
    saving_address = false;
  }
  saved (threw error) s = record s {
    address_error = some (auth_error_message error []);
    saving_address = false;
  }

  -- `can_save` is whether the form is valid, which the forms library answers.
  unfoldable pub save_address :
      {W : Type 0} (update_me : UpdateUser → Io W Thrown User) (can_save : Bool)
      → AddressPage
      → W
      → AddressPage × W
  save_address update_me false s w = (s, w)
  save_address update_me true s w =
      if s.saving_address
      then (s, w)
      else let (o, w') = update_me (update_of s) w in
        (saved o (record s { address_error = none }), w')
