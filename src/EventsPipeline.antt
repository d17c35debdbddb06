-- ===== src/EventsPipeline.antt =====
-- The events pipeline, functions/events-pipeline/src: a Lambda that consumes SQS batches.
pub mod Domain
pub mod Record
pub mod Repository
pub mod Quarantine
pub mod Batch
pub mod Delivery
pub mod Batches
pub mod Lifecycle
pub mod Redaction
pub mod Wire
pub mod Email
pub mod Push
pub mod Handlers
pub mod Mailing
mod Examples
