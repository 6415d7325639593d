-- ===== src/Lib.antt =====
-- A verification library for the TypeScript services of the audiobook generator: the NestJS API
-- (apps/api), the CPU worker (apps/worker-cpu), the web studio (apps/web) and the packages that they
-- share (packages/*). A book runs through five stages: ingestion, analysis, director, TTS and
-- assembly. Each stage is work in rows of `processing_job`; the API creates the rows and puts them
-- on a queue, workers run them, and what happened is told through an outbox of events. The library
-- models the parts that hold this together: the life of a job between API, queue and worker, the
-- listings that clients page through, the progress that they read, and the registries that make a
-- request or an event take effect once.
--
-- Parts, with the code that each file models:
--   * Base and its children: native numbers and their Boolean tests, lists, results of code that
--     throws, and the splitting and trimming of texts.
--   * Errors: packages/errors/src/index.ts. Categories, `AppError`, `toErrorEnvelope`,
--     `httpStatusForError`.
--   * Paging: apps/api/src/common/pagination.ts. Cursors, `parseLimit`, `paginate`. A cursor's
--     Base64 JSON is an interface `Codec` of an encoder, a decoder and their round trip. Paging/Keyset
--     walks any endpoint that filters, sorts and paginates by such a cursor; Paging/Tally is a codec.
--   * Jobs/Model and Jobs/Dto: the rows of `processing_job`, the world of tables, outbox, Redis
--     flags and queue calls that the operations pass on, and `toJobDto`.
--   * Jobs/Cancel: `cancelJob` of apps/api/src/jobs/jobs.service.ts. Cancel/Rows, Cancel/Outcome and
--     Cancel/Race are about its loop, its answer, and writes between its read and its commit.
--   * Jobs/Gate: `isCancellationRequested` of packages/queue/src/cancellation.ts and
--     `haltIfCancelled` of apps/worker-cpu/src/cancellation-gate.ts.
--   * Jobs/Listing: `listJobs` and the filters of its query string. Listing/Pages walks its pages, and
--     Listing/Milliseconds is about the dates in its cursors.
--   * Jobs/Dispatch: packages/queue/src (names, payload ceiling, backoff, `enqueue`,
--     `enqueueProcessingJob`); Dispatch/Sweep is `pollOnce` of
--     apps/worker-cpu/src/processing-job-sweeper.ts and Dispatch/Replay is `replayJob`.
--   * Progress: apps/api/src/progress/progress.service.ts. Progress/Counts has the aggregates and
--     the rounding, Progress the five stages, Progress/Overview the overall figure and the estimate.
--   * Idempotency: `IdempotencyService.run` of apps/api/src/common/idempotency.service.ts.
--   * RateLimit: apps/api/src/common/rate-limit/rate-limiter.ts. The counters of Redis are a function
--     of the parts of their key.
--   * Events: packages/events/src. The outbox rows and `OutboxPublisher.pollOnce`, whose statements and
--     commit may fail, and in Events/Inbox `withInbox` within the transaction of its caller.
--   * Auth: apps/api/src/auth/auth.service.ts. Auth/Model has the rows and the library code as a record
--     of functions, Auth/Sessions `issueSession`, `refresh`, `revokeFamily` and `logout`, Auth/Login
--     the sign-in and its lockout, Auth/Accounts registration and password reset. Auth/Reach makes
--     the requests the steps of a relation; Auth/Race runs two refreshes into each other, and
--     Auth/Refused follows a token that is revoked.
--   * Books: apps/api/src/books/books.service.ts. Books/Model has the rows, the checks of
--     apps/api/src/common/tenant.ts and the limits of apps/api/src/common/quota.service.ts,
--     Books/Library the life of a book with its purge, Books/Listing `listBooks` with its pages, and
--     Books/Uploads the upload sessions and `requestIngestion`. The jobs are rows of Jobs/Model,
--     dispatched by Jobs/Dispatch; of `runPurgeBook` in
--     apps/worker-cpu/src/processors/maintenance.ts it has the rows of files, jobs and books.
--   * Ingestion: packages/ingestion/src. Ingestion/Model has its data, Normalize `normalizeText` and
--     `dehyphenate`, Noise `detectNoise` and `isPageNumberLike`, Headings the patterns of chapter
--     titles, Structure `splitIntoChapters` and `splitChapterIntoSections`, Structure/Place
--     `detectStructure`, Quality `buildQualityReport`, Markdown `renderMarkdown`, Failure the errors,
--     and Pipeline `detectFormat` and `runIngestionPipeline`. A text is a list of code points; a
--     regular expression is a function by recursion on it.
--   * Studio: `buildGenerationPlan` of apps/web/src/lib/generation.ts, which reads what Progress
--     computes. Studio/PartialOcr compares it with the test of
--     apps/api/src/analysis/analysis.service.ts. Studio/Redirect is `safeReturnPath` of
--     apps/web/src/lib/safe-redirect.ts.
--   * The modules called Tests run the definitions on concrete input and apply the theorems to it.
--
-- Conventions. An identifier is a UUID that the code compares only, so it is a number, as is a
-- date in milliseconds; the dates of jobs are in microseconds, as their columns keep them. JSON
-- columns are opaque texts. State is passed on explicitly; a thrown error is `err` of a `Result`.
-- Postgres, Redis, BullMQ, `publish`, the handler of a request, the digest of a body and the
-- generator of identifiers are arguments, with whether their calls succeed. A transaction that
-- throws leaves what stood before. Loops over rows are by recursion on the list. The walk of a
-- listing is on fuel, one unit for each page; as many units as there are rows and one more are
-- enough, since a page that is followed by another holds at least one row. A fraction of the
-- progress model is counted in 1/10000, the unit to which the source rounds; quotients are exact
-- where the source divides doubles.
--
-- Not modelled: the services of the single stages, the parsers of PDF, EPUB
-- and image files, the processors of the worker, storage and logging, the React views, and the Python
-- services. Timers and the life cycles of servers are left out.
pub mod Base
pub mod Errors
pub mod Paging
pub mod Jobs
pub mod Progress
pub mod Idempotency
pub mod RateLimit
pub mod Auth
pub mod Books
pub mod Ingestion
pub mod Events
pub mod Studio
