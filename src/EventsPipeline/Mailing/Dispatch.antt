-- ===== src/EventsPipeline/Mailing/Dispatch.antt =====
-- Which emails the handlers of the dispatch table send
-- (functions/events-pipeline/src/handlers).
use microservices_running.Prelude.{
  String, Bool, true, false, Option, none, some, List, [], ◌∷◌, ◌≡◌, refl, ap, ◌∙◌, subst, arith,
  str_eq, if◌then◌else◌,
}
use microservices_running.Effects.{Outcome, returned, threw, Io, continue}
use microservices_running.EventsPipeline.Domain.{Envelope, Payload, Failure}
use microservices_running.EventsPipeline.Record.{HandlerMap, find_handler}
use microservices_running.EventsPipeline.Wire.{Reader, Addressed, addressed}
use microservices_running.EventsPipeline.Email.{Props, SesMessage, MailServices}
use microservices_running.EventsPipeline.Push.{StatusMessage, PushServices, publish_to_user}
use microservices_running.EventsPipeline.Handlers.Schemas.{
  UserCreatedPayload, OrderCreatedPayload, CodePayload, TrackingStatusChangedPayload, recipient,
  user_created_schema, order_created_schema, code_schema, tracking_status_changed_schema,
}
use microservices_running.EventsPipeline.Handlers.{
  deliver, user_created_for, user_created_handler, order_created_for, order_created_handler,
  code_for, auth_otp_requested_handler, password_reset_requested_handler, pushed, pushed_to,
  tracking_for, tracking_status_changed_handler, handlers,
}
use microservices_running.EventsPipeline.Mailing.{
  IsMail, OneTo, Mailed, deliver-Mailed, publish_to_user-keeps,
}

addressed-email :
    {A : Type 0} (email : Option String) (rest : Option A) (a : Addressed A)
    → addressed email rest ≡ some a
    → email ≡ some a.email
addressed-email none rest a same = ground (arith, same)
addressed-email (some email) none a same = ground (arith, same)
addressed-email (some email) (some rest) a same = ap (address email) same
  where
    address : {A : Type 0} → String → Option (Addressed A) → Option String
    address email none = some email
    address email (some a) = some a.email

-- Every handler of a map satisfies a predicate.
abbrev AllHandlers :
    {W : Type 0} → ((Envelope → Io W Failure (Unit {0})) → Type 0) → HandlerMap W → Type 0
AllHandlers P [] = Unit {0}
AllHandlers P ((name, handler) ∷ rest) = P handler × AllHandlers P rest

find_handler-AllHandlers :
    {W : Type 0} (P : (Envelope → Io W Failure (Unit {0})) → Type 0) (type : String)
    (map : HandlerMap W) (handler : Envelope → Io W Failure (Unit {0}))
    → AllHandlers P map
    → find_handler type map ≡ some handler
    → P handler
unfolding find_handler
find_handler-AllHandlers P type [] handler all found = ground (arith, found)
find_handler-AllHandlers {W = W} P type ((name, first) ∷ rest) handler (here, there) found =
    either (str_eq name type) (λ later. find_handler-AllHandlers P type rest handler there later)
      found
  where
    or_first : Option (Envelope → Io W Failure (Unit {0})) → Envelope → Io W Failure (Unit {0})
    or_first none = first
    or_first (some h) = h

    either :
        (b : Bool)
        → (find_handler type rest ≡ some handler → P handler)
        → (if b then some first else find_handler type rest) ≡ some handler
        → P handler
    either true later same = subst P (ap or_first same) here
    either false later same = later same

module _ {W : Type 0} (reader : Reader) (sent : W → List SesMessage) where
  -- A step for a payload that returned has sent one email, to the address of the payload; one that
  -- threw has sent none.
  abbrev pub MailedFor : Payload → (old : List SesMessage) → Outcome Failure (Unit {0}) × W → Type 0
  MailedFor payload old (returned _, w) =
      (to : String) × (recipient reader payload ≡ some to) × OneTo to old (sent w)
  MailedFor payload old (threw _, w) = sent w ≡ old

  Mailed-MailedFor :
      (payload : Payload) (to : String) (old : List SesMessage)
      → recipient reader payload ≡ some to
      → (o : Outcome Failure (Unit {0}) × W) → Mailed sent to old o
      → MailedFor payload old o
  Mailed-MailedFor payload to old here (returned _, w) mailed = (to, here, mailed)
  Mailed-MailedFor payload to old here (threw _, w) mailed = mailed

module _ {W : Type 0} (reader : Reader) (invalid_fields : Payload → String) (mail : MailServices W)
    (push : PushServices W) (sent : W → List SesMessage) (laws : IsMail mail push sent) where
  delivered-MailedFor :
      (payload : Payload) (key : String) (props : Props) (to subject : String)
      (code : Option String) (w : W)
      → recipient reader payload ≡ some to
      → MailedFor reader sent payload
          (sent w)
          (deliver reader invalid_fields mail push key props to subject code w)
  delivered-MailedFor payload key props to subject code w here =
      Mailed-MailedFor reader sent payload to (sent w) here _
        (deliver-Mailed mail push sent laws reader invalid_fields key props to subject code w)

  user_created_for-MailedFor :
      (payload : Payload) (checked : Option (Addressed UserCreatedPayload)) (w : W)
      → ((a : Addressed UserCreatedPayload)
          → checked ≡ some a
          → recipient reader payload ≡ some a.email)
      → MailedFor reader sent payload
          (sent w)
          (user_created_for reader invalid_fields mail push payload checked w)
  unfolding user_created_for
  user_created_for-MailedFor payload none w email = refl
  user_created_for-MailedFor payload (some a) w email =
      delivered-MailedFor payload _ _ a.email _ _ w (email a refl)

  order_created_for-MailedFor :
      (payload : Payload) (checked : Option (Addressed OrderCreatedPayload)) (w : W)
      → ((a : Addressed OrderCreatedPayload)
          → checked ≡ some a
          → recipient reader payload ≡ some a.email)
      → MailedFor reader sent payload
          (sent w)
          (order_created_for reader invalid_fields mail push payload checked w)
  unfolding order_created_for
  order_created_for-MailedFor payload none w email = refl
  order_created_for-MailedFor payload (some a) w email =
      delivered-MailedFor payload _ _ a.email _ _ w (email a refl)

  code_for-MailedFor :
      (type key subject : String) (payload : Payload) (checked : Option (Addressed CodePayload))
      (w : W)
      → ((a : Addressed CodePayload) → checked ≡ some a → recipient reader payload ≡ some a.email)
      → MailedFor reader sent payload
          (sent w)
          (code_for reader invalid_fields mail push type key subject payload checked w)
  unfolding code_for
  code_for-MailedFor type key subject payload none w email = refl
  code_for-MailedFor type key subject payload (some a) w email =
      delivered-MailedFor payload _ _ a.email _ _ w (email a refl)

  pushed_to-keeps :
      (envelope : Envelope) (changed : TrackingStatusChangedPayload) (w : W) (sub : Option String)
      → sent (pushed_to reader invalid_fields mail push envelope changed sub w) ≡ sent w
  pushed_to-keeps envelope changed w none = refl
  pushed_to-keeps envelope changed w (some sub) = either (str_eq sub "") _
    where
      either :
          (empty : Bool) (message : StatusMessage)
          → sent (if empty then w else publish_to_user push sub message w) ≡ sent w
      either true message = refl
      either false message = publish_to_user-keeps mail push sent laws sub message w

  pushed-keeps :
      (envelope : Envelope) (changed : TrackingStatusChangedPayload) (w : W)
      → sent (pushed reader invalid_fields mail push envelope changed w) ≡ sent w
  unfolding pushed
  pushed-keeps envelope changed w = pushed_to-keeps envelope changed w envelope.author.cognito_sub

  pushed_after :
      (envelope : Envelope) (changed : TrackingStatusChangedPayload) (old : List SesMessage)
      (o : Outcome Failure (Unit {0}) × W)
      → MailedFor reader sent envelope.payload old o
      → MailedFor reader sent envelope.payload old (
          continue o
            (λ _ w. (returned tt, pushed reader invalid_fields mail push envelope changed w)))
  pushed_after envelope changed old (returned _, w) (to, here, (message, same, one)) =
      (to, here, (message, same, pushed-keeps envelope changed w ∙ one))
  pushed_after envelope changed old (threw _, w) mailed = mailed

  tracking_for-MailedFor :
      (envelope : Envelope) (checked : Option (Addressed TrackingStatusChangedPayload)) (w : W)
      → ((a : Addressed TrackingStatusChangedPayload)
          → checked ≡ some a
          → recipient reader envelope.payload ≡ some a.email)
      → MailedFor reader sent envelope.payload
          (sent w)
          (tracking_for reader invalid_fields mail push envelope checked w)
  unfolding tracking_for
  tracking_for-MailedFor envelope none w email = refl
  tracking_for-MailedFor envelope (some a) w email =
      pushed_after envelope a.rest (sent w) _
        (delivered-MailedFor envelope.payload _ _ a.email _ _ w (email a refl))

  -- Every handler of the dispatch table.
  handlers-AllHandlers :
      AllHandlers
        (λ handler.
          (envelope : Envelope) (w : W)
          → MailedFor reader sent envelope.payload (sent w) (handler envelope w))
        (handlers reader invalid_fields mail push)
  unfolding handlers user_created_handler order_created_handler tracking_status_changed_handler
      auth_otp_requested_handler password_reset_requested_handler user_created_schema
      order_created_schema code_schema tracking_status_changed_schema
  handlers-AllHandlers = (
    (λ envelope w.
        user_created_for-MailedFor envelope.payload _ w (λ a same. addressed-email _ _ a same)),
    (
      (λ envelope w.
          order_created_for-MailedFor envelope.payload _ w (λ a same. addressed-email _ _ a same)),
      (
        (λ envelope w. tracking_for-MailedFor envelope _ w (λ a same. addressed-email _ _ a same)),
        (
          (λ envelope w.
              code_for-MailedFor _ _ _ envelope.payload _ w (λ a same. addressed-email _ _ a same)),
          (
            (λ envelope w.
                code_for-MailedFor _ _ _ envelope.payload _ w
                  (λ a same. addressed-email _ _ a same)),
            tt,
          ),
        ),
      ),
    ),
  )

  -- Let SES send the email of a call that returned and no email for one that threw, and nothing else
  -- that the handlers call send one. A handler of the dispatch table that returned has sent one email,
  -- to the address in the payload; one that threw has sent none.
  pub handlers-MailedFor :
      (type : String) (handler : Envelope → Io W Failure (Unit {0}))
      → find_handler type (handlers reader invalid_fields mail push) ≡ some handler
      → (envelope : Envelope) (w : W)
      → MailedFor reader sent envelope.payload (sent w) (handler envelope w)
  handlers-MailedFor type handler found =
      find_handler-AllHandlers
        (λ handler.
          (envelope : Envelope) (w : W)
          → MailedFor reader sent envelope.payload (sent w) (handler envelope w))
        type (handlers reader invalid_fields mail push) handler handlers-AllHandlers found
