-- ===== src/OtpChallenge.antt =====
-- The Lambda behind Cognito's custom login challenges
-- (infra/modules/cognito/otp-challenge-lambda/index.mjs). A text is the list of its code points.
pub mod Code
pub mod Events
pub mod Traceparent
pub mod Publishing
pub mod Handlers
pub mod Flow
pub mod Rounds
pub mod Login
mod Examples
use microservices_running.Prelude.{ℕ, List}

abbrev pub Text : Type 0
Text = List ℕ
