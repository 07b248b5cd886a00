-- ===== src/Lib.antt =====
-- Verification of drogon-api-starter, a REST service in C++ on Drogon: users and roles in PostgreSQL,
-- pages cached in Redis, login with JWT, and error reports sent in batches over HTTP.
--
-- How the program is put together. main.cc loads the configuration (config/), registers the tables,
-- sets up the observability (observability/) and starts Drogon. Drogon routes a request through the
-- rate limiter (observability/RateLimiter.cc) and, on protected routes, through the auth filter
-- (filters/AuthFilter.cc) to a controller (controllers/). A controller asks a service (services/),
-- which uses the persistence models (models/) and a mapper of Drogon, and keeps pages (pagination/) in
-- the cache (cache/). Exceptions are captured and queued by the error reporter
-- (observability/ErrorReporter.cc), which sends batches behind a circuit breaker.
--
-- Which file models what:
--   Prelude, Prelude/Dict   shared names, lists measured by native numbers, finite maps
--   Text, Text/Number       std::string as the source uses it, std::stoi and std::to_string
--   Result, Action          exceptions as values; code that changes state and may throw
--   Json, Platform          the libraries as parameters: jsoncpp, drogon's mappers, dates, bcrypt
--   Config                  config/AppConfig.cc: fromValues, load and the readers
--   Pagination              pagination/: PageRequest::from, offset, hasNext, cacheKey, toJson
--   Cache                   cache/RedisCache.cc: get, set, erase, erasePrefix
--   Models                  models/, a module for each of the five tables: rows with dirty flags,
--                           statements, validation, reading of JSON and of results, masqueraded variants
--   Services                services/UserService.cc, services/RoleService.cc
--   Controllers             controllers/UserController.cc, controllers/RoleController.cc
--   Auth                    controllers/AuthController.cc, filters/AuthFilter.cc, helpers/
--   Observability           observability/: metrics, rate limiter, circuit breaker, deliveries, reporter,
--                           request ids and trace contexts, the set-up of a reporter
--   AuthSchema              schemas/AuthSchema.cc
--   Server                  main.cc: the command line, the routes, the advices around the handlers
--   Samples                 concrete libraries for the tests
--
-- State is passed on: an operation is a function from a state to a result and the state after it,
-- and an exception leaves the state that it found. The clock, the salt of a hash, the replies of
-- the network and the times at which timers fire are arguments, so every schedule is a sequence of
-- steps. Mutexes make the calls of the rate limiter and the circuit breaker such a sequence. A
-- flush of the reporter is one step: the code holds the queue's lock only while it takes the
-- events, and asks the circuit breaker and sends after it, so the model leaves out what other
-- threads do between the two. A handler of users or roles is modelled by the one response that it
-- gives its callback, or the exception that leaves it, so that a handler which calls the callback
-- twice, or a callback that throws, is not expressed; the login is modelled by the list of the
-- responses that it gives. Counters are taken modulo 2^64 and `int` is 32 bits wide; what an
-- overflow of int gives, which C++ leaves undefined, is a parameter. Every loop of the source is
-- structural recursion on the list that it runs over, so no model has fuel but randomHex, where a
-- round for each wanted digit is enough as a round adds sixteen; the retries of a delivery are
-- bounded by its attempts, and a run of them is a recursion on the outcomes that the network gives.
--
-- A library is a record of operations; what a theorem needs of one is a named hypothesis
-- (Json.Laws, Json.Objects, Json.RoundTrip, Models.Dates.Laws.IsWritten, Cache.Laws.ThrowsStd,
-- Cache.Store.Store, Controllers.Answers.QueriesStd, Auth.Tokens.Accepts), which the tests fill
-- with a concrete one. A time to live in Redis does not run out in the model: Store speaks of the
-- time before that, and of KEYS only for a prefix without the characters of a pattern.
--
-- Not modelled: the SQL of tables/, the Prometheus text, the OTLP and Sentry payloads, the routes
-- of main.cc that serve documents and metrics, the gRPC server. Logging has no effect on what is
-- modelled and is left out.
pub mod Prelude
pub mod Text
pub mod Result
pub mod Action
pub mod Json
pub mod Cache
pub mod Models
pub mod Samples
pub mod Platform
pub mod Services
pub mod Controllers
pub mod Auth
pub mod AuthSchema
pub mod Server
pub mod Config
pub mod Pagination
pub mod Observability
