-- ===== src/Identity/Classified.antt =====
-- Which errors count as a known event (`isMessageIdConflict`).
use microservices_running.Prelude.{
  Bool, true, false, Option, none, some, List, [], ◌∷◌, ◌&&◌, ◌||◌, any, ◌≡◌, refl, sym, subst, ◌⊎◌,
  inl, inr, arith, if◌then◌else◌,
}
use microservices_running.Prelude.Texts.{
  Text, same_text, same_text_sound, same_text_self, includes_sound, includes_complete,
}
use microservices_running.Session.{codes}
use microservices_running.Identity.{
  Target, no_target, one_target, targets, CaptureError, no_matching_user, prisma_error, other_error,
}
use microservices_running.Identity.Reports.{Listed, Targets, Constrains, Mentions, Reports}
use microservices_running.Identity.Capture.{
  message_id, names, has_field, says, is_message_id_conflict,
}

||-true : (a b : Bool) → (a || b) ≡ true → (a ≡ true) ⊎ (b ≡ true)
||-true true b either = inl refl
||-true false b either = inr either

if-true : (a b : Bool) → (if a then true else b) ≡ true → (a ≡ true) ⊎ (b ≡ true)
if-true true b either = inl refl
if-true false b either = inr either

Listed-sound :
    (name : Text) (columns : List Text) → any (same_text name) columns ≡ true → Listed name columns
Listed-sound name [] has = ground (arith, has)
Listed-sound name (first ∷ rest) has =
    elim (if-true (same_text name first) (any (same_text name) rest) has) [
      | inl same ↦ inl (sym (same_text_sound name first same))
      | inr later ↦ inr (Listed-sound name rest later)
    ]

Listed-complete :
    (name : Text) (columns : List Text) → Listed name columns → any (same_text name) columns ≡ true
Listed-complete name [] impossible = absurd impossible
Listed-complete name (first ∷ rest) (inl same) =
    ground (arith, subst (λ n. same_text name n ≡ true) (sym same) (same_text_self name))
Listed-complete name (first ∷ rest) (inr later) = ground (arith, Listed-complete name rest later)

names_sound : (target : Target) → names target ≡ true → Targets (codes "message_id") target
names_sound no_target has = ground (arith, has)
names_sound (one_target text) has = includes_sound message_id text has
names_sound (targets columns) has = Listed-sound message_id columns has

names_complete : (target : Target) → Targets (codes "message_id") target → names target ≡ true
names_complete no_target impossible = absurd impossible
names_complete (one_target text) has = includes_complete message_id text has
names_complete (targets columns) has = Listed-complete message_id columns has

has_field_sound :
    (fields : Option (List Text)) → has_field fields ≡ true → Constrains (codes "message_id") fields
has_field_sound none has = ground (arith, has)
has_field_sound (some columns) has = Listed-sound message_id columns has

has_field_complete :
    (fields : Option (List Text)) → Constrains (codes "message_id") fields → has_field fields ≡ true
has_field_complete none impossible = absurd impossible
has_field_complete (some columns) has = Listed-complete message_id columns has

says_sound : (message : Option Text) → says message ≡ true → Mentions (codes "message_id") message
says_sound none has = ground (arith, has)
says_sound (some message) has = includes_sound message_id message has

says_complete :
    (message : Option Text) → Mentions (codes "message_id") message → says message ≡ true
says_complete none impossible = absurd impossible
says_complete (some message) has = includes_complete message_id message has

pub conflict_sound :
    (err : CaptureError) → is_message_id_conflict err ≡ true → Reports (codes "message_id") err
unfolding is_message_id_conflict
conflict_sound (no_matching_user email_hash) conflict = ground (arith, conflict)
conflict_sound (other_error message) conflict = ground (arith, conflict)
conflict_sound (prisma_error code target fields message) conflict =
    let (same, speaks) = both (same_text code (codes "P2002")) _ conflict in
    (
      same_text_sound code (codes "P2002") same,
      elim (||-true (names target || has_field fields) (says message) speaks) [
        | inl either ↦ elim (||-true (names target) (has_field fields) either) [
          | inl named ↦ inl (names_sound target named)
          | inr field ↦ inr (inl (has_field_sound fields field))
        ]
        | inr said ↦ inr (inr (says_sound message said))
      ],
    )
  where
    both : (a b : Bool) → (a && b) ≡ true → (a ≡ true) × (b ≡ true)
    both true b eq = (refl, eq)
    both false b eq = ground (arith, eq)

pub conflict_complete :
    (err : CaptureError) → Reports (codes "message_id") err → is_message_id_conflict err ≡ true
unfolding is_message_id_conflict
conflict_complete (no_matching_user email_hash) impossible = absurd impossible
conflict_complete (other_error message) impossible = absurd impossible
conflict_complete (prisma_error code target fields message) (same, speaks) =
    let known = subst (λ c. same_text code c ≡ true) same (same_text_self code) in
    elim speaks [
      | inl target_speaks ↦ ground (arith, known, names_complete target target_speaks)
      | inr others ↦ elim others [
        | inl field ↦ ground (arith, known, has_field_complete fields field)
        | inr said ↦ ground (arith, known, says_complete message said)
      ]
    ]
