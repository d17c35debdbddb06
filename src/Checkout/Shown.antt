-- ===== src/Checkout/Shown.antt =====
-- What the address form of the checkout saves against what it shows
-- (apps/web/src/app/features/checkout/checkout-payment.ts).
use microservices_running.Prelude.{
  String, Bool, true, false, Option, none, some, List, [], ◌∷◌, str_eq, if◌then◌else◌, ◌≡◌, refl,
  sym, ◌⊎◌, inl, inr, subst,
}
use microservices_running.Checkout.Address.{
  PostalAddress, AddressForm, AddressPage, Edit, suggested, street_typed, line2_typed, city_typed,
  state_typed, postal_code_typed, phone_typed, edit_started, edit_cancelled, address_of, edited,
  address_from, on_address_suggested, on_resolved_field_typed, start_editing_address,
  cancel_editing_address, on_street_typed, trimmed_or_null, parse_address, edit, edit_all,
}

-- A resolved address is the one whose city, state and postal code the form shows.
abbrev pub Agrees : Option PostalAddress → AddressForm → Type 0
Agrees none values = Unit
Agrees (some a) values =
    (a.city ≡ values.city) × (a.state ≡ values.state) × (a.postal_code ≡ values.postal_code)

abbrev pub IsShown : AddressPage → Type 0
IsShown s = Agrees s.resolved_address s.address_model

module _ (trim : String → String) where
  IsShown-cleared :
      (b : Bool) (s : AddressPage)
      → IsShown s
      → IsShown (if b then record s { resolved_address = none } else s)
  IsShown-cleared true s shown = tt
  IsShown-cleared false s shown = shown

  Agrees-street :
      (o : Option PostalAddress) (values : AddressForm) (v : String)
      → Agrees o values
      → Agrees o (record values { street = v })
  Agrees-street none values v agrees = tt
  Agrees-street (some a) values v agrees = agrees

  Agrees-line2 :
      (o : Option PostalAddress) (values : AddressForm) (v : String)
      → Agrees o values
      → Agrees o (record values { line2 = v })
  Agrees-line2 none values v agrees = tt
  Agrees-line2 (some a) values v agrees = agrees

  Agrees-phone_number :
      (o : Option PostalAddress) (values : AddressForm) (v : String)
      → Agrees o values
      → Agrees o (record values { phone_number = v })
  Agrees-phone_number none values v agrees = tt
  Agrees-phone_number (some a) values v agrees = agrees

  IsShown-edited : (o : Option PostalAddress) (s : AddressPage) → IsShown s → IsShown (edited o s)
  IsShown-edited none s shown = shown
  IsShown-edited (some a) s shown = tt

  edit-IsShown : (e : Edit) (s : AddressPage) → IsShown s → IsShown (edit trim e s)
  unfolding edit on_address_suggested on_street_typed on_resolved_field_typed start_editing_address
      cancel_editing_address
  edit-IsShown (suggested address) s shown = (refl, refl, refl)
  edit-IsShown (street_typed v) s shown =
      IsShown-cleared (str_eq (trim v) "") _
        (Agrees-street s.resolved_address s.address_model v shown)
  edit-IsShown (line2_typed v) s shown = Agrees-line2 s.resolved_address s.address_model v shown
  edit-IsShown (city_typed v) s shown = tt
  edit-IsShown (state_typed v) s shown = tt
  edit-IsShown (postal_code_typed v) s shown = tt
  edit-IsShown (phone_typed v) s shown =
      Agrees-phone_number s.resolved_address s.address_model v shown
  edit-IsShown edit_started s shown = IsShown-edited (address_of s.user) s shown
  edit-IsShown edit_cancelled s shown = tt

  edit_all-IsShown : (es : List Edit) (s : AddressPage) → IsShown s → IsShown (edit_all trim es s)
  unfolding edit_all
  edit_all-IsShown [] s shown = shown
  edit_all-IsShown (e ∷ es) s shown = edit_all-IsShown es _ (edit-IsShown e s shown)

  -- What is saved of what is shown: without a resolved address, each input trimmed and no country.
  abbrev pub AsTyped : (saved : PostalAddress) → Option PostalAddress → AddressForm → Type 0
  AsTyped a resolved values =
      (resolved ≡ none)
      × (a.line2 ≡ trimmed_or_null trim values.line2)
      × (a.city ≡ trim values.city)
      × (a.state ≡ trim values.state)
      × (a.postal_code ≡ trim values.postal_code)
      × (a.country ≡ "")

  -- With one, the inputs as they are, and line 2 and the country of the resolved address.
  abbrev pub AsResolved : (saved : PostalAddress) → Option PostalAddress → AddressForm → Type 0
  AsResolved a resolved values =
      (r : PostalAddress) × ((resolved ≡ some r)
        × (a.line2 ≡ r.line2)
        × (a.city ≡ values.city)
        × (a.state ≡ values.state)
        × (a.postal_code ≡ values.postal_code)
        × (a.country ≡ r.country))

  address_from-shown :
      (resolved : Option PostalAddress) (values : AddressForm)
      → Agrees resolved values
      → let a = address_from trim resolved values in
        (a.line1 ≡ trim values.street) × (AsTyped a resolved values ⊎ AsResolved a resolved values)
  address_from-shown none values agrees = (refl, inl (refl, refl, refl, refl, refl, refl))
  address_from-shown (some r) values (city, state, code) =
      (refl, inr (r, (refl, refl, city, state, code, refl)))

  -- Whatever the buyer chose and typed since the form was last without a chosen suggestion, the
  -- address that is saved has the street as it is shown. With no suggestion in force the rest is what
  -- the inputs show and the country is empty; with one, city, state and postal code are those shown,
  -- while line 2 and the country are the suggestion's, so a line 2 that was typed is not saved.
  pub parse_address-edit_all :
      (es : List Edit) (s : AddressPage)
      → s.resolved_address ≡ none
      → let s' = edit_all trim es s in
        let a = parse_address trim s' in
        (a.line1 ≡ trim s'.address_model.street)
        × (AsTyped a s'.resolved_address s'.address_model
            ⊎ AsResolved a s'.resolved_address s'.address_model)
  unfolding parse_address
  parse_address-edit_all es s unresolved =
      let s' = edit_all trim es s in
      address_from-shown s'.resolved_address s'.address_model
        (edit_all-IsShown es s (subst (λ o. Agrees o s.address_model) (sym unresolved) tt))
