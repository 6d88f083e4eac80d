-- ===== src/Lib.antt =====
-- MaroonLedger: the server of a personal ledger, app/internal and its commands, in Go.
--
-- A request passes the middleware of app/internal/auth (a bearer token becomes claims), that of
-- app/internal/ratelimit (one token bucket per subject), and reaches a handler of
-- app/internal/handlers, which reads and writes PostgreSQL (app/internal/database/migrations), asks
-- a provider of app/internal/ai to categorise and assess a new transaction, and hands the stored
-- transaction to the emitter of app/internal/pipeline, whose worker sends batches to Firehose.
--
-- Which file models what:
--   Base, Base/*          shared notation, Boolean tests, lists and integers over native numbers
--   Go/*                  what the code uses of Go: byte strings (strings, unicode/utf8), strconv,
--                         time.Time in UTC, the environment, response writers of net/http, big-endian
--                         numbers and base64url, and float64, which is a parameter
--   Models                app/internal/models/models.go
--   Ai/Category, Ai/Severity, Ai/Types
--                         app/internal/ai/ai.go: ValidCategory, IsCategory, CategoryNames,
--                         ValidSeverity, the provider interface, truncate
--   Ai/Stub               app/internal/ai/stub.go: Categorize and DetectAnomaly; Ai/Stub/Insights and
--                         Ai/Stub/Usd: GenerateInsights and usd
--   Ai/Bedrock, Ai/Prompts
--                         app/internal/ai/bedrock.go: NewBedrock, complete, the three operations
--                         and what they write to the model; Ai/Bedrock/Schemas: the JSON schemas
--   Auth/*                app/internal/auth/auth.go: Claims, NewVerifier, Verify, Middleware
--   Ratelimit             app/internal/ratelimit/ratelimit.go: New, Allow, evictLoop, Middleware
--   Pipeline/Event, Pipeline/Encode, Pipeline/Firehose
--                         app/internal/pipeline: Event, encode, Emit, Close, run, deliver
--   Pipeline/Firehose/Steps
--                         the worker's select and the callers of Emit and Close as a step relation;
--                         Pipeline/Firehose/Drain follows it through the shutdown
--   Pipeline/Firehose/Open, Pipeline/Emitter
--                         NewFirehose, and app/internal/pipeline/pipeline.go: the two emitters
--   Database              the tables of app/internal/database/migrations; Database/Insert and
--                         Database/Select are the SQL that the handlers send
--   Database/Migrate      app/internal/database/migrate.go: Migrate
--   Database/Connect      app/internal/database/database.go: Connect; Database/Connect/Conninfo reads
--                         its connection string as the driver does
--   Handlers/World        the database, the faults that it will show and the events emitted so far,
--                         which every handler takes and returns; Handlers/World/Rules reasons on it
--   Handlers/Http         app/internal/handlers/handlers.go
--   Handlers/Accounts, Handlers/Transactions, Handlers/Enrich, Handlers/Aggregate,
--   Handlers/Summary, Handlers/Insights
--                         the files of the same names; Enrich is the part of transactions.go from
--                         `enrichment` on
--   Server                the routes of app/cmd/server/main.go, behind authentication and limiters;
--                         Server/Change and below say what requests do to the whole state, and
--                         Server/Books is an abstract ledger, one book per user, that it refines;
--                         Server/Confidential is about what an answer may depend on
--   Server/Setup, Server/Startup, Server/Shutdown
--                         the rest of app/cmd/server/main.go: buildAIProvider, buildEmitter,
--                         connectDatabase and their helpers; main up to ListenAndServe, and its end
--   Server/Mux, Server/Handle
--                         the muxes by method and path, the health check, securityHeaders and
--                         requestLogger around them, with the responses as they are written
--   Devidp                app/cmd/devidp/main.go: the issuer of tokens for development
--   BedrockCheck          app/cmd/bedrockcheck/main.go
--   Tests/*               concrete parameters, runs, and the theorems at concrete inputs
--
-- State. A handler is an action: it takes a world and returns a value or an HTTP error, and the
-- world. A query may fail before it runs, at a row, or behind the last row; an INSERT may fail after
-- the row was stored. The faults of a world list what goes wrong, statement by statement, so a
-- theorem for every world covers every failure. The emitter's state holds the queue, the batch that
-- is pending, the batches sent, and the counters modulo 2^64; the service's replies are arguments of
-- the steps. A limiter's operations are atomic, as its mutex makes them.
--
-- Bounds. Amounts in the database are whole cents, times are nanoseconds from year 0 (numbers, which
-- every date that the API can name fits), bytes are numbers. Loops are structural recursion. Two
-- helpers of Go count their steps: itoa writes a number with as many steps as the number is large,
-- each of which leaves a tenth of it, and the month of a day is looked for in eleven steps, behind
-- which December is left.
--
-- Parameters: float64 (Float64), letters and spaces outside ASCII (Unicode), the encoding of values
-- in JSON (Writer), the parser of tokens (Parser), rate.Limiter (TokenBucket), the model's
-- message service and the decoding of its answers (MessageService, Unmarshal), what a migration's
-- script does, the database's driver, the keys behind a URL, the decoding of the database's secret,
-- SHA-256 and the development issuer's signature, and the provider (Provider), whose deadline is one
-- of its errors. A parsed JSON body is given with its size.
--
-- An account's number beyond 32 bits, which the driver refuses with an error, finds nothing in the
-- model unless a fault is given. read_conninfo reads what the driver reads of values without quotes
-- and blanks.
--
-- Not modelled: what is logged but for the line of each request; the listener's timeouts; paths that
-- a mux redirects to a clean form first; the text of JSON responses; the system prompts; the frontend,
-- the infrastructure and the analytics job.
pub mod Base
pub mod Go
pub mod Models
pub mod Ai
pub mod Auth
pub mod Pipeline
pub mod Ratelimit
pub mod Database
pub mod Handlers
pub mod Server
pub mod Devidp
pub mod BedrockCheck
pub mod Tests
