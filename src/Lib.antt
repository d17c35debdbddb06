-- ===== src/Lib.antt =====
-- Verification of the TypeScript code of a shop that runs as microservices on AWS.
--
-- Parts and how they interact
--
-- functions/events-pipeline is a Lambda that consumes domain events from SQS. A batch
-- (src/handler.ts) is a list of records; each is parsed, stored in DocumentDB
-- (src/shared/db/events-repository.ts), dispatched to the handler of its type
-- (src/pipeline/process-record.ts) and either acknowledged or reported for redelivery; what is
-- refused for good is copied to a dead-letter queue (src/pipeline/quarantine.ts).
--   EventsPipeline/Domain: domain/envelope.ts, domain/event.ts, domain/redact-payload.ts,
--     pipeline/errors.ts.
--   EventsPipeline/Record: `processRecord`. EventsPipeline/Repository: `MongoEventsRepository`,
--     `ensureIndexes`. EventsPipeline/Quarantine: `quarantine`. EventsPipeline/Batch: `observe`,
--     `processOneRecord`, `processRecordSafely`, `processBatch`.
--   EventsPipeline/Wire, Handlers, Handlers/Schemas: src/handlers, the handlers with the payloads that
--     they accept. EventsPipeline/Email: src/email and the counters of src/shared/metrics.
--     EventsPipeline/Push: src/shared/realtime.
--   EventsPipeline/{Batches, Delivery, Lifecycle, Redaction, Mailing}: the proofs.
-- apps/web/src/app is the web client.
--   CardValidation: shared/ui/card-validation.ts.
--   Notifications/Toasts: core/notifications/toast-queue.ts. Notifications/Socket:
--     notifications-socket.ts. Notifications/Store: notifications-store.ts.
--   Cart, Cart/Queue: core/cart/cart-store.ts with core/api/cart-api.ts.
--   Session/{Paths, Tokens, Requests, Refresh, Flights, Api}: core/auth/auth-interceptor.ts,
--     token-store.ts, refresh-interceptor.ts, core/http/api-client.ts, features/auth/sign-out.ts
--     (`discard`) and auth-errors.ts. Every request of the client passes `refreshInterceptor`,
--     which runs one shared refresh on a 401, and inside it `authInterceptor`.
--     Session/{Routes, Reading, Retry}: the proofs. Session/Sample: a browser for the tests.
--   Checkout, Checkout/{Paying, Address}: features/checkout/checkout-payment.ts with `createOrder`
--     of core/api/orders-api.ts, over the interceptors. Checkout/{Keys, Retries, Shown}: the proofs.
-- infra/modules/cognito/otp-challenge-lambda/index.mjs serves Cognito's three login triggers.
--   OtpChallenge/{Code, Events, Traceparent, Publishing, Handlers}: its functions.
--   OtpChallenge/Flow: the rounds that Cognito runs over them, as a relation.
--   OtpChallenge/{Rounds, Login}: the proofs.
-- functions/realtime-events is the Lambda of the socket API: it records the connections of a user,
-- to which services/users pushes. Realtime/Connections: src/{authorizer, connect, disconnect,
-- default}.ts and src/shared/connections-repository.ts. Realtime/{Handshake, FanOut}: the proofs.
-- services/users is the service of accounts; its stored cards mirror Stripe's.
--   PaymentMethods: the rows and errors. PaymentMethods/Table: the Prisma client and the rules of
--     src/shared/db/prisma-extensions.ts. PaymentMethods/Stripe: Stripe's client.
--     PaymentMethods/{Commands, Reconcile, Attach}: the files of src/payment-methods/commands.
--     PaymentMethods/Customers: src/payment-methods/ensure-stripe-customer.ts.
--   Accounts/ResetCodes: src/shared/auth/reset-code.ts, src/shared/cache/reset-code-store.ts.
--     Accounts/Resets, Accounts/Deletion: forgot-password, confirm-password-reset and
--     delete-account of src/users/commands, with src/shared/http/cascade-client.ts.
--     Accounts/{SingleUse, Deleted}: the proofs.
--   CognitoAuth: src/shared/auth/cognito-auth-provider.ts, over which the accounts work.
--   Registration/Commands, Registration/Publishing: register.command.ts and
--     register-passwordless.command.ts of src/users/commands, with the events of
--     src/shared/messaging/event-publisher.ts. Registration/{Essential, Orphans}: the proofs.
--   Credentials: login, change-password, update-profile, start-otp-challenge and
--     verify-otp-challenge of src/users/commands. Credentials/{Refusals, Passwords}: the proofs.
--   Identity/{MessageId, Capture}: src/features/users/webhooks, the record of what Cognito reported.
--     Identity/Reports: what Prisma reports of a unique constraint. Identity/{Classified, Recorded}: the
--     proofs.
--   UserNotifications/{Copy, Mapping, Consumer, Inbox}: the consumer, the commands and the query of
--     src/notifications, with src/features/notifications/domain. UserNotifications/{Stored, Marking}:
--     the proofs. Writes go to the primary, counts and lists are read from a replica that may lag.
--   SoftDelete: the filter that reads get down their relations, in src/shared/db/prisma-extensions.ts.
--     SoftDelete/Rewritten: the proof.
--   Realtime/Publishing: src/shared/realtime.
--   MeCache, MeCache/Interceptor: src/shared/cache, the cached profile. MeCache/Held: what is said
--     of it. MeCache/{Served, Again}: the proofs.
--   PaymentMethods/{Defaults, Steps, SetDefault, Detach, Invariant, Events, Sequences, FirstCard,
--     CustomerKept, Attached}: the proofs.
--
-- How the code is read
--
-- Asynchronous code that throws is a step from a world to an outcome and the next world (Effects).
-- A store, a queue or a socket is a record, and each method, timer callback and reply is a
-- function on it; where the code awaits, the part before and the part after are two functions, so
-- that other calls may come between. Time is a natural number of milliseconds, a timer the instant
-- at which it is due. Names are the source's, in snake_case. The decimal digits of a number run on
-- that number as fuel, which is enough as a tenth of it is smaller; every other function is
-- structurally recursive.
--
-- What is a parameter: the MongoDB driver (its unique index and `updateOne` as the laws
-- `IsMongo`), the SQS client, the event handlers where a record is processed, the clock, the JSON
-- and Zod parser of an envelope, what JSON.parse made of a payload and the address test of Zod,
-- react-email, SES and the socket API under the handlers (laws `IsMail`, and `KeepsMail` of the
-- collection of events), Cognito's client (laws `IsCognito`), the table of users (laws `IsUsers`),
-- of identities (laws `IsIdentity`) and of notifications (laws `IsInbox`), the cart's HTTP API,
-- the Prisma client (transactions, unique columns and statements as the laws `IsPrisma`), Stripe's
-- client (laws `IsRemote`, `IsAttaching`), the users' rows (laws `IsCustomers`), the browser's
-- IndexedDB, WebCrypto and JSON (laws `IsBrowser`), Redis (laws `IsRedis`, `IsInTime`), DynamoDB and its
-- socket API (laws `IsDynamo`), the JWT verifier, SQS, JSON and node:crypto under the challenge
-- Lambda (laws `IsRuntime`), `fetch`, the router, and of the web client the socket and the stores
-- that a teardown calls. What is not modelled: logs, spans and most metrics; the records of one
-- batch, and the posts of one push, run one after another, where the code runs them concurrently;
-- the frames of the socket; what the email templates draw; the signing of the challenge Lambda's
-- SQS request; what else the Users service does (its controllers, queries and webhooks of Stripe);
-- the services in other languages.
pub mod Prelude
pub mod Effects
pub mod EventsPipeline
pub mod CardValidation
pub mod MeCache
pub mod Notifications
pub mod Cart
pub mod PaymentMethods
pub mod Session
pub mod Checkout
pub mod OtpChallenge
pub mod Accounts
pub mod UserNotifications
pub mod Realtime
pub mod Identity
pub mod SoftDelete
pub mod CognitoAuth
pub mod Registration
pub mod Credentials
