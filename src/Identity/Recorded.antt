-- ===== src/Identity/Recorded.antt =====
-- A Cognito event is recorded once (services/users/src/features/users/webhooks).
use microservices_running.Prelude.{
  ℕ, suc, ◌≤◌, ◌<◌, Bool, true, false, Option, none, some, List, [], ◌∷◌, ◌&&◌, any, keep, length,
  All, if◌then◌else◌, ◌≡◌, refl, sym, ap, ◌∙◌, subst, arith,
}
use microservices_running.Prelude.Texts.{Text, same_text, same_text_sound, same_text_self}
use microservices_running.Effects.{Outcome, returned, threw, continue}
use microservices_running.Session.{codes}
use microservices_running.Identity.{
  CognitoWebhookPayload, CaptureError, CaptureResult, captured, duplicate,
}
use microservices_running.Identity.Reports.{Reports}
use microservices_running.Identity.Classified.{conflict_sound, conflict_complete}
use microservices_running.Identity.MessageId.{encoded, derive_message_id, encoded-injective}
use microservices_running.Identity.Capture.{
  IdentityEvent, IdentityServices, IsIdentity, Upserted, is_event, has_message_id, message_id_of,
  event_of, snapshot_of, is_message_id_conflict, concluded, write_for, execute,
}

false-not-true : ¬ (◌≡◌ {A = Bool} false true)
false-not-true same = ground (arith, same)

Bool-iff : (a b : Bool) → (a ≡ true → b ≡ true) → (b ≡ true → a ≡ true) → a ≡ b
Bool-iff true b f g = sym (f refl)
Bool-iff false true f g = g refl
Bool-iff false false f g = refl

&&-true : (a b : Bool) → (a && b) ≡ true → (a ≡ true) × (b ≡ true)
&&-true true b both = (refl, both)
&&-true false b both = ground (arith, both)

module _ {W : Type 0} (services : IdentityServices W) (laws : IsIdentity services) where
  -- Every key is the one that its user and trigger give.
  abbrev pub IsDerived : IdentityEvent → Type 0
  IsDerived event =
      event.message_id ≡ derive_message_id services.sha256 event.cognito_sub event.event_type

  abbrev pub IsLog : List IdentityEvent → Type 0
  IsLog = All IsDerived

  module _ (payload : CognitoWebhookPayload)
      (no_collision : (sub trigger_source : Text)
        → services.sha256 (encoded sub trigger_source)
          ≡ services.sha256 (encoded payload.sub payload.trigger_source)
        → encoded sub trigger_source ≡ encoded payload.sub payload.trigger_source) where
    -- How many events of the user and the trigger of the payload there are.
    abbrev pub count : List IdentityEvent → ℕ
    count events = length (keep (is_event payload.sub payload.trigger_source) events)

    abbrev has_id : IdentityEvent → Bool
    has_id = has_message_id (message_id_of services payload)

    is_event-has_id :
        (event : IdentityEvent)
        → IsDerived event
        → is_event payload.sub payload.trigger_source event ≡ has_id event
    unfolding derive_message_id
    is_event-has_id event derived =
        Bool-iff (is_event payload.sub payload.trigger_source event) (has_id event)
          (λ both.
            let (sub, type) =
              &&-true (same_text event.cognito_sub payload.sub)
                (same_text event.event_type payload.trigger_source) both in
            let same =
              derived
              ∙ ap (λ s. services.sha256 (encoded s event.event_type))
                  (same_text_sound event.cognito_sub payload.sub sub)
              ∙ ap (λ t. services.sha256 (encoded payload.sub t))
                  (same_text_sound event.event_type payload.trigger_source type) in
            subst (λ id. same_text event.message_id id ≡ true) same
              (same_text_self event.message_id))
          (λ one_id.
            let (subs, types) =
              encoded-injective event.cognito_sub event.event_type payload.sub
                payload.trigger_source
                (no_collision event.cognito_sub event.event_type (
                  sym derived
                  ∙ same_text_sound event.message_id (message_id_of services payload) one_id)) in
            ground (
              arith,
              subst (λ s. same_text event.cognito_sub s ≡ true) subs
                  (same_text_self event.cognito_sub),
              subst (λ t. same_text event.event_type t ≡ true) types
                  (same_text_self event.event_type),
            ))

    keep-is_event :
        (events : List IdentityEvent)
        → IsLog events
        → keep (is_event payload.sub payload.trigger_source) events ≡ keep has_id events
    keep-is_event [] log = refl
    keep-is_event (e ∷ es) (derived, log) =
        ap
          (λ b.
            if b
            then e ∷ keep (is_event payload.sub payload.trigger_source) es
            else keep (is_event payload.sub payload.trigger_source) es)
          (is_event-has_id e derived)
        ∙ ap (λ r. if has_id e then e ∷ r else r) (keep-is_event es log)

    -- What an answer says of the events before and after it.
    abbrev pub Recorded : Outcome CaptureError CaptureResult × W → List IdentityEvent → Type 0
    Recorded (returned captured, w) old =
        ((event : IdentityEvent) × (services.events w ≡ event ∷ old))
        × (count old ≡ 0)
        × (count (services.events w) ≡ 1)
        × IsLog (services.events w)
    Recorded (returned duplicate, w) old =
        (services.events w ≡ old) × (count (services.events w) ≡ 1) × IsLog (services.events w)
    Recorded (threw err, w) old = (services.events w ≡ old) × (¬ Reports (codes "message_id") err)

    any-keep :
        (events : List IdentityEvent) → any has_id events ≡ true → 0 < length (keep has_id events)
    any-keep [] some_event = ground (arith, some_event)
    any-keep (e ∷ es) some_event = ground (arith, any-keep es, some_event)

    count-le : (w : W) → IsLog (services.events w) → count (services.events w) ≤ 1
    count-le w log =
        subst (λ kept. length kept ≤ 1) (sym (keep-is_event (services.events w) log))
          (laws.unique_message_id (message_id_of services payload) w)

    event-counts :
        (event_id : Text)
        → is_event payload.sub payload.trigger_source (event_of services payload event_id) ≡ true
    event-counts event_id =
        ground (arith, same_text_self payload.sub, same_text_self payload.trigger_source)

    added-count :
        (event : IdentityEvent) (old : List IdentityEvent)
        → is_event payload.sub payload.trigger_source event ≡ true
        → count (event ∷ old) ≡ suc (count old)
    added-count event old is = ground (arith, is)

    written-Recorded :
        (event_id : Text) (old : List IdentityEvent) (o : Outcome CaptureError (Unit {0})) (w : W)
        → IsLog old
        → Upserted o (event_of services payload event_id) old (services.events w)
        → Recorded (concluded services (o, w)) old
    written-Recorded event_id old (returned _) w log new =
        let event = event_of services payload event_id in
        let now : IsLog (services.events w) = subst IsLog (sym new) (refl, log) in
        let counted = ap count new ∙ added-count event old (event-counts event_id) in
        (
          (event, new),
          omega (arith, counted, count-le w now),
          omega (arith, counted, count-le w now),
          now,
        )
    written-Recorded event_id old (threw err) w log (same, conflict) =
        answered (is_message_id_conflict err)
          (λ classified. conflict (conflict_sound err classified)) (conflict_complete err)
      where
        answered :
            (b : Bool)
            → (b ≡ true → any has_id old ≡ true)
            → (Reports (codes "message_id") err → b ≡ true)
            → Recorded (if b then returned duplicate else threw err, w) old
        answered true conflict complete =
            let now : IsLog (services.events w) = subst IsLog (sym same) log in
            let kept = ap length (keep-is_event old log) in
            (
              same,
              omega (arith, ap count same, kept, any-keep old (conflict refl), count-le w now),
              now,
            )
        answered false conflict complete =
            (same, λ reports. absurd (false-not-true (complete reports)))

    found-Recorded :
        (snapshot_id event_id : Text) (old : List IdentityEvent)
        (o : Outcome CaptureError (Option Text) × W)
        → IsLog old
        → services.events o.1 ≡ old
        → ((err : CaptureError) → o.0 ≡ threw err → ¬ Reports (codes "message_id") err)
        → Recorded (continue o (write_for services payload snapshot_id event_id)) old
    found-Recorded snapshot_id event_id old (returned none, w) log same silent =
        (same, λ reports. reports)
    found-Recorded snapshot_id event_id old (returned (some user_id), w) log same silent =
        let snapshot = snapshot_of services payload snapshot_id user_id in
        let event = event_of services payload event_id in
        let (o, w') = services.upsert snapshot event w in
        written-Recorded event_id old o w' log (
          subst (λ before. Upserted o event before (services.events w')) same
            (laws.upsert_writes snapshot event w))
    found-Recorded snapshot_id event_id old (threw err, w) log same silent = (same, silent err refl)

    -- Where the key of every event is the one of its user and trigger, and no other pair has the digest
    -- of the payload's: a capture answers `captured` only if it added the one event of the payload's
    -- user and trigger, of which there was none, and `duplicate` only if there is exactly one
    -- and nothing was added; if it throws, the events are as they were and the error is no report of
    -- the unique constraint on `message_id`. After an answer every key is
    -- again that of its user and trigger.
    pub execute-Recorded :
        (w : W)
        → IsLog (services.events w)
        → Recorded (execute services payload w) (services.events w)
    unfolding execute
    execute-Recorded w log =
        let w₁ = (services.generate_id (codes "ucd_") w).1 in
        let w₂ = (services.generate_id (codes "cge_") w₁).1 in
        found-Recorded _ _ (services.events w) (services.find_user payload.email w₂) log
          (laws.find_reads payload.email w₂
            ∙ laws.generate_reads (codes "cge_") w₁
            ∙ laws.generate_reads (codes "ucd_") w)
          (λ err thrown. laws.find_reports payload.email err w₂ thrown)
