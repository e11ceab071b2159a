-- ===== src/Lib.antt =====
-- A model of the core of the notification API: the workers that save, queue and deliver
-- notifications, the choice of a provider, the clients of the providers, the queue, the signatures
-- that the parts exchange, the authentication of requests, and the keys, callbacks, contacts and
-- lifecycle of services.
--
-- How the parts interact. A signed batch arrives as a message of a queue. The consumer
-- (queue/consumer.go) hands it to the save worker (internal/worker/savenotify), which checks the
-- signatures (pkg/signing), inserts the notifications and sends their ids to the delivery queues.
-- The manager (internal/worker/manager.go) decides which queues are consumed. The delivery workers
-- (internal/worker/delivery) read a notification, ask the provider service
-- (internal/service/providers) for a client, send by it (internal/client), and write the status.
-- After a failure the SMS worker toggles the providers (internal/repository/providers).
-- A request of the API passes the middleware (internal/middleware), which reads the service and its
-- keys through a cache (internal/service/auth). The keys are made and revoked, and the services
-- suspended and archived, by the repository of services (internal/repository/services).
--
-- Which file models which part:
--   Base: Go's errors and results, the calls through interfaces, and the functions of `strings`.
--   Smsutil: pkg/smsutil (Normalize, ApplyPrefix).
--   Delivery: the rows and helpers that the delivery workers share. Delivery.Sms is
--     deliver_sms.go, Delivery.Email is deliver_email.go, Delivery.Pii is containsValidSIN and
--     luhnValid of that file, Delivery.Throttled is deliver_throttled_sms.go.
--   Providers: internal/service/providers/service.go. Providers.Toggle is
--     internal/repository/providers/wrappers.go.
--   Clients: internal/client/pinpoint/client.go, internal/client/sns/client.go and, in Clients.Ses,
--     internal/client/ses/client.go.
--   Queue: queue/consumer.go and queue/producer.go.
--   SaveNotify: internal/worker/savenotify/worker.go.
--   Workers: internal/worker/manager.go.
--   Contacts: internal/repository/services/dao.go (the SMS senders of services and, in
--     Contacts.ReplyTos, their reply-to addresses), with the queries that it calls
--     (services.sql.go).
--   Auth.Jwt and Auth.Requests: internal/middleware/auth.go and auth_context.go.
--     Auth.Cache: internal/service/auth/cache.go.
--   Limits: internal/middleware/ratelimit.go.
--   Services: internal/repository/services/dao.go. Services.ApiKeys is CreateAPIKey and RevokeAPIKey,
--     with the queries of api_keys.sql.go; Services.Lifecycle is UpdateService, SuspendService,
--     ResumeService and ArchiveService, with those of templates.sql.go; Services.Callbacks is the
--     callbacks of services, and Services.Tokens their signed bearer tokens.
--   Signing: pkg/signing/signing.go, pkg/signing/api_keys.go and pkg/crypto/crypto.go.
--
-- State and operations. A worker is a record of the answers of its interfaces, each of which may
-- depend on all the calls made before: a procedure takes the log of the calls, the newest first, and
-- gives its result and the longer log. So a theorem about a procedure holds for every behaviour of
-- the stores, queues and providers, but for the hypotheses that it names. A function of Go that is
-- long is a chain of definitions here, one for each part between two calls. An error is the chain
-- of values that `Unwrap` gives, and `errors.Is` and `errors.As` search it. The table of providers
-- and those of a service are lists of rows, and an operation on one gives the new table; an error
-- of a transaction leaves the old one, and any of its statements may be refused. The updates of the
-- providers have no transaction: what was written before a refusal stays. The middleware maps the
-- text of the header of a request to the answer, or to the context for the next handler.
--
-- Numbers are natural numbers. An int32 of the database is its bit pattern, so its order and its
-- sum wrap around; the receive count of the save worker wraps around at 64 bits. A text is a list
-- of code points, and becomes bytes (UTF-8) where it is signed. The loops over lists are structural.
-- The loop of the consumer has no end of its own: it is run for a number of rounds, and its theorems
-- hold for every number. The five tries of a download are counted down from five.
--
-- Not modelled: SHA-1, SHA-256, HMAC, JSON and zlib, which are parameters; the services of Amazon
-- and the database, which answer as they like; log messages; times; goroutines and the shutdown of
-- the manager; the HTTP handlers, the limits of size, CORS, the other repositories and the
-- generated queries that no operation here calls.
pub mod Auth
pub mod Base
pub mod Clients
pub mod Contacts
pub mod Delivery
pub mod Limits
pub mod Providers
pub mod Queue
pub mod SaveNotify
pub mod Services
pub mod Signing
pub mod Smsutil
pub mod Workers
