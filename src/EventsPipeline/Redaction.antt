-- ===== src/EventsPipeline/Redaction.antt =====
-- What redaction takes from a payload (functions/events-pipeline/src/domain/redact-payload.ts).
use microservices_running.Prelude.{
  String, Option, none, some, List, [], ◌∷◌, ◌≡◌, refl, arith, str_eq, str_eq_iff, if◌then◌else◌,
  any,
}
use microservices_running.EventsPipeline.Domain.{
  Payload, redacted_fields, delete_field, delete_fields, redact_payload,
}

-- The value of a field of a payload.
abbrev pub field_value : String → Payload → Option String
field_value name [] = none
field_value name ((key, value) ∷ fields) =
    if str_eq key name then some value else field_value name fields

field_value-delete_field :
    (name gone : String) (fields : Payload)
    → field_value name (delete_field gone fields)
      ≡ (if str_eq gone name then none else field_value name fields)
unfolding delete_field
field_value-delete_field name gone [] = ground arith
field_value-delete_field name gone ((key, value) ∷ fields) = ground (
  arith,
  str_eq_iff key gone,
  str_eq_iff key name,
  str_eq_iff gone name,
  field_value-delete_field name gone fields,
)

field_value-delete_fields :
    (name : String) (gone : List String) (fields : Payload)
    → field_value name (delete_fields gone fields)
      ≡ (if any (λ g. str_eq g name) gone then none else field_value name fields)
unfolding delete_fields
field_value-delete_fields name [] fields = refl
field_value-delete_fields name (g ∷ gone) fields = ground (
  arith,
  field_value-delete_fields name gone (delete_field g fields),
  field_value-delete_field name g fields,
)

-- A redacted payload has no field that its type lists, and every other field as it was.
pub field_value-redact_payload :
    (type name : String) (fields : Payload)
    → field_value name (redact_payload type fields)
      ≡ (if any (λ g. str_eq g name) (redacted_fields type) then none else field_value name fields)
unfolding redact_payload
field_value-redact_payload type name fields =
    field_value-delete_fields name (redacted_fields type) fields
