-- ===== src/Identity/Examples.antt =====
-- The theorem on captures, with a table of at most one event.
use microservices_running.Prelude.{
  ◌≤◌, Bool, true, false, Option, none, some, List, [], ◌∷◌, ◌≡◌, refl, arith, keep, length,
}
use microservices_running.Prelude.Texts.{Text, same_text}
use microservices_running.Effects.{Outcome, returned, threw}
use microservices_running.Session.{codes}
use microservices_running.Identity.{
  CognitoWebhookPayload, CaptureError, prisma_error, other_error, targets, duplicate,
}
use microservices_running.Identity.MessageId.{encoded, derive_message_id}
use microservices_running.Identity.Capture.{
  IdentityEvent, IdentityServices, IsIdentity, Upserted, has_message_id, message_id,
  is_message_id_conflict, execute,
}
use microservices_running.Identity.Recorded.{Recorded, execute-Recorded}

abbrev Table : Type 0
Table = Option IdentityEvent

abbrev rows : Table → List IdentityEvent
rows none = []
rows (some event) = event ∷ []

abbrev conflict : CaptureError
conflict = prisma_error (codes "P2002") (targets (message_id ∷ [])) none none

abbrev refusal : Bool → CaptureError
refusal true = conflict
refusal false = other_error (codes "full")

abbrev insert : IdentityEvent → Table → Outcome CaptureError (Unit {0}) × Table
insert event none = (returned tt, some event)
insert event (some old) = (threw (refusal (has_message_id event.message_id old)), some old)

abbrev one_event : IdentityServices Table
one_event = record {
  events = rows;
  sha256 = λ text. text;
  hash_email = λ email. email;
  generate_id = λ prefix w. (prefix, w);
  find_user = λ email w. (returned (some (codes "usr_1")), w);
  upsert = λ snapshot event w. insert event w;
}

refused :
    (b : Bool) (event old : IdentityEvent)
    → has_message_id event.message_id old ≡ b
    → Upserted (threw (refusal b)) event (old ∷ []) (old ∷ [])
unfolding is_message_id_conflict same_text
refused true event old same = (refl, λ _. ground (arith, same))
refused false event old same = (refl, λ reports. absurd reports)

inserted :
    (event : IdentityEvent) (w : Table)
    → Upserted (insert event w).0 event (rows w) (rows (insert event w).1)
inserted event none = refl
inserted event (some old) = refused (has_message_id event.message_id old) event old refl

unique : (id : Text) (w : Table) → length (keep (has_message_id id) (rows w)) ≤ 1
unique id none = omega arith
unique id (some event) = ground arith

one_event-IsIdentity : IsIdentity one_event
one_event-IsIdentity = record {
  generate_reads = λ prefix w. refl;
  find_reads = λ email w. refl;
  find_reports = λ email err w thrown. ground (arith, thrown);
  upsert_writes = λ snapshot event w. inserted event w;
  unique_message_id = unique;
}

abbrev payload : CognitoWebhookPayload
payload = record {
  trigger_source = codes "PostConfirmation_ConfirmSignUp";
  client_id = codes "client";
  sub = codes "sub-1";
  email = codes "ana@example.com";
  raw = codes "{}";
}

-- The second delivery of the event.
abbrev after_first : Table
unfolding execute
after_first = (execute one_event payload none).1

answered_duplicate : (execute one_event payload after_first).0 ≡ returned duplicate
unfolding execute after_first is_message_id_conflict same_text derive_message_id encoded
answered_duplicate = refl

execute-Recorded_example :
    Recorded one_event one_event-IsIdentity payload
      (λ _ _ same. same)
      (execute one_event payload after_first)
      (one_event.events after_first)
unfolding after_first execute
execute-Recorded_example =
    execute-Recorded one_event one_event-IsIdentity payload (λ _ _ same. same) after_first
      (refl, tt)
