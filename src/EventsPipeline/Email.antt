-- ===== src/EventsPipeline/Email.antt =====
-- The emails of the pipeline: functions/events-pipeline/src/email/renderer.ts and sender.ts, the keys
-- of catalog.ts and the counters of shared/metrics/cloudwatch-metrics.ts. Spans, log lines and the
-- clients are left out; the components that react-email renders are a parameter.
use Prim.Native.String
use microservices_running.Prelude.{
  ℕ, String, Bool, Option, none, some, List, [], ◌∷◌, str_eq, any, if◌then◌else◌,
}
use microservices_running.Effects.{Outcome, returned, threw, Io, throw}
use microservices_running.EventsPipeline.Domain.{Failure, permanent, transient}
use microservices_running.EventsPipeline.Wire.{Members, OrderNumber}

pub record EmailItem : Type 0 where
  pub name : String
  pub quantity : ℕ
  pub unit_price_cents : ℕ

pub record HistoryEntry : Type 0 where
  pub status : String
  pub datetime : String

pub record OrderCreatedEmailProps : Type 0 where
  pub order_id : String
  pub order_number : Option OrderNumber
  pub full_name : String
  pub subtotal_cents : ℕ
  pub tax_cents : ℕ
  pub shipping_cents : ℕ
  pub total_cents : ℕ
  pub shipping_address : Option Members
  pub items : List EmailItem
  pub created_at : String

pub record TrackingStatusChangedEmailProps : Type 0 where
  pub order_id : String
  pub order_number : Option OrderNumber
  pub status : String
  pub previous_status : String
  pub changed_at : String
  pub full_name : String
  pub tracking_number : String
  pub shipping_address : Option Members
  pub history : List HistoryEntry

-- The props of the templates; the last is for the two that carry a code.
pub data Props : Type 0 where
  user_created_props : (full_name email user_id created_at : String) → Props
  order_created_props : OrderCreatedEmailProps → Props
  tracking_status_changed_props : TrackingStatusChangedEmailProps → Props
  code_props : (code : String) (ttl_minutes : ℕ) (full_name : String) → Props

pub record SesMessage : Type 0 where
  pub source : String
  pub to : String
  pub subject : String
  pub html : String

-- A data point; every one has the value 1 and the dimension `Service`.
pub record Metric : Type 0 where
  pub name : String
  pub email_type : String
  pub failure_kind : Option String

pub record SendEmailParams : Type 0 where
  pub to : String
  pub subject : String
  pub html : String
  pub template_key : String
  pub code : Option String

-- SES, CloudWatch, react-email and the hook of the store of the end-to-end tests. What they throw is
-- the message of the error, but for the render, whose error goes through.
pub record MailServices (W : Type 0) : Type 0 where
  pub from_address : String
  pub metrics_enabled : Bool
  pub ses_send : SesMessage → Io W String (Unit {0})
  pub put_metric : Metric → Io W String (Unit {0})
  pub render : (template_key : String) → Props → Io W Failure String
  pub record_email : Option (SendEmailParams → Io W String (Unit {0}))

-- The own keys of `catalog`.
abbrev pub catalog : List String
catalog =
    "user-created" ∷ "order-created" ∷ "tracking-status-changed-placed"
    ∷ "tracking-status-changed-processing" ∷ "tracking-status-changed-shipped"
    ∷ "tracking-status-changed-out-for-delivery" ∷ "tracking-status-changed-delivered" ∷ "auth-otp"
    ∷ "forgot-password" ∷ []

module _ {W : Type 0} (services : MailServices W) where
  -- What `put_metric` throws is swallowed.
  unfoldable pub publish_metric : Metric → W → W
  publish_metric metric w = if services.metrics_enabled then (services.put_metric metric w).1 else w

  unfoldable pub publish_email_metric :
      (name template_key : String) (failure_kind : Option String) → W → W
  unfolding publish_metric
  publish_email_metric name template_key failure_kind w =
      publish_metric (record { name = name; email_type = "ALL"; failure_kind = failure_kind })
        (publish_metric
          (record { name = name; email_type = template_key; failure_kind = failure_kind }) w)

  unfoldable pub render_template : (template_key : String) → Props → Io W Failure String
  unfolding publish_email_metric
  render_template template_key props w =
      if any (λ key. str_eq key template_key) catalog
      then services.render template_key props w
      else throw (permanent (String.◌++◌ "missing template: " template_key))
          (publish_email_metric "emails_failed_total" template_key (some "permanent") w)

  -- The copy for the store; what it throws is swallowed.
  unfoldable pub recorded :
      Option (SendEmailParams → Io W String (Unit {0})) → SendEmailParams → W → W
  recorded none params w = w
  recorded (some record_email) params w = (record_email params w).1

  -- What follows the answer of SES.
  unfoldable pub after_send :
      SendEmailParams → Outcome String (Unit {0}) × W → Outcome Failure (Unit {0}) × W
  unfolding publish_email_metric recorded
  after_send params (threw message, w) = (
    threw (transient (String.◌++◌ "SES send failed: " message)),
    publish_email_metric "emails_failed_total" params.template_key (some "transient") w,
  )
  after_send params (returned _, w) = (
    returned tt,
    recorded services.record_email params
        (publish_email_metric "emails_sent_total" params.template_key none w),
  )

  unfoldable pub send_email : SendEmailParams → Io W Failure (Unit {0})
  unfolding after_send
  send_email params w = after_send params (
      services.ses_send
        (record {
          source = services.from_address;
          to = params.to;
          subject = params.subject;
          html = params.html;
        })
        w)
