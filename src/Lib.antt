-- ===== src/Lib.antt =====
-- A model of the ImageDescriptor service (COGnito Image Descriptor), a FastAPI application under app/
-- that describes satellite images: it takes the coordinates and a thumbnail of an image, asks five
-- services about them, composes their answers and stores the result.
--
-- The parts and their files. Paths are from the repository's root.
--
-- * Schemas (app/api/schemas.py): the request and response models as records, and the validators as
--   functions into Bool. Schemas/Validate has the coordinates, the bounding box, the thumbnail's
--   size and the image id; Schemas/Date the ISO 8601 pattern, its grammar beneath it; Schemas/Request
--   a whole request, and the body of a batch, whose items are validated twice.
-- * Breaker (app/utils/circuit_breaker.py): `CircuitBreaker` as a record and its methods as
--   functions of the clock's readings.
-- * Cache (app/cache/store.py): `CacheStore` over a table of rows. Each statement may fail by a
--   fault that is an argument, and `except` clauses decide by the error's class. Cache/Rows has the
--   SQL statements, Cache/Ideal a store that forgets nothing, against which the real one is held,
--   Cache/Statistics `stats`, and Cache/Life the opening and the closing.
-- * Migrator (app/cache/migrator.py): the discovery of migrations and the loop that applies them.
-- * Composer (app/services/composer.py): `_safe_call` over the five breakers, the two phases of
--   `compose_description` (Composer/Phases), and `get_breaker_statuses`. The services are
--   arguments: actions on a world, of which Geocoder, Landcover, Mission, Describer and Research
--   below are the five. Composer/Effect has a guarded call by what it adds to the state, and
--   Composer/Order two of them in either order.
-- * Supabase (app/db/supabase.py): the shared client, its reconnect backoff and the five queries.
--   The supabase library is an argument: the outcome of `acreate_client` and the queries' answers.
-- * Routes (app/api/routes.py): `_describe_and_save` (Routes/Describe), `describe` (Routes/Respond),
--   `describe_batch` (Routes/Batch), the health endpoints (Routes/Health), the endpoints over stored
--   descriptions (Routes/Descriptions), and those over one module, with app/utils/timeout.py
--   (Routes/Timed).
-- * Server (app/main.py): the shutdown middleware with its counter of requests in flight, SIGTERM,
--   the poll for running batches and the redirect of legacy paths. Server/InFlight runs the
--   middleware over every interleaving of arrivals, departures and the signal; Server/Lifespan is
--   the start and the end of the process, with the loop that cleans the cache up, and Server/Headers
--   the headers that every response gets.
-- * Landcover (app/modules/landcover.py): the counts of tags, their shares and the summary, behind the
--   cache. Landcover/Shares is about the classes, Landcover/Cached about a second call.
-- * Geocoder (app/modules/geocoder.py): the reverse geocoder with its cache and its limit of one
--   request a second; Geocoder/Pace is about the limit.
-- * Auth (app/auth.py): `authenticate` by key or token and the cache of signing keys.
-- * Thumbnail (app/modules/describer.py): the preparation of a thumbnail, with the checks of the
--   addresses that it is downloaded from; Thumbnail/Guard is about what they guarantee.
-- * Mission (app/modules/mission.py): the metadata of a STAC item, behind the cache; Mission/Cached is
--   about a second call.
-- * Describer (app/modules/describer.py): `describe_image`, with the prompt and the cache;
--   Describer/Again is about a second call, and Describer/Resize the resizing, over Pillow as an
--   argument.
-- * Research (app/modules/context.py): the search for events; Research/Kept is about a failed one.
-- * Problems (app/utils/errors.py, and the handlers that app/main.py registers): the reply to every
--   exception; Problems/Shape is about what they share.
-- * Logging (app/utils/logging.py): the redaction of a query string (Logging/Query), the header
--   traceparent (Logging/Trace), and the middleware with its ids and entries (Logging/Middleware).
-- * Config (app/config.py): the settings with their validators, and in Config/Summary what is
--   logged of them.
-- * HttpClient (app/http_client.py): the shared client, over calls of `get_client` and the two halves
--   of `close_client`; HttpClient/Shared is the regular course, HttpClient/Leak the race.
-- * Server/RateLimit (app/utils/rate_limit.py and app/main.py): the client that a request counts for,
--   and the headers that tell it to wait.
-- * Retry (app/utils/retry.py): the errors that are worth another attempt.
-- * Server/Stack (app/main.py): the application as its middlewares and the handlers of exceptions
--   compose it; Server/Stack/Answered is about what a request gets back.
-- * Composer/Schedule (app/services/composer.py): a composition whose tasks run in another order, with
--   the proof rule for tasks that do not touch what another one reads.
-- * Wired (app/services/composer.py and app/modules): the five modules as the services of one world,
--   with the cache that they share. Cache/Local and the Row of each module have the row that a
--   call touches, Wired/Free every order of the tasks, and Wired/Again a second composition.
-- * Routes/Table (the decorators of app/api/routes.py, and app/main.py): the routes, and which one takes
--   a request; Routes/Serve is what stands before an endpoint, the key and the limit.
-- * Errors has Python's exceptions as values, with the subclass relations that the `except` clauses
--   rely on; Prelude has lists, text, rounding and numbers, and Tests concrete runs.
--
-- How they fit together: Routes/Describe runs Composer and then Supabase; Routes/Respond runs it
-- under the time-out and tags the result; Routes/Batch runs it for each item, with its validation
-- and the server's flag as arguments; Routes/Descriptions runs Supabase's queries (of
-- Supabase/Queries); Server/Lifespan drains the counter of Server/InFlight and runs the clean-up of
-- Cache; the replies of Server/RateLimit are those of Problems.
--
-- Numbers. Times are whole microseconds and floats are whole millionths with the two infinities and
-- nan (Prelude/Number), so that rounding to a decimal is exact (half to even), and zero has no sign.
-- Python's integers do not overflow, but a float times a power of two does (Supabase). The share of a
-- land cover's class, which is rounded from a quotient of doubles, is an argument. The decimal digits of
-- Unicode, which `\d` matches, are an instance argument (Prelude/Unicode).
--
-- Loops. Loops over lists are structural recursion. The poll of `drain_batches` runs on fuel, one
-- unit for a round: with one unit for each microsecond that is left, and one more, it ends
-- (Server/Drain). `follow` counts a client's redirects.
--
-- What is not modelled: metrics but for the counters that the code reads or the operations drive, and
-- log entries but for those of the request middleware and of the settings; the HTTP, SQL, rate limit
-- and authentication libraries, which are arguments; the call of the image model and the floating-point
-- size of a bounding box (app/modules/describer.py), which are arguments too; how tenacity goes about
-- its attempts and waits (app/utils/retry.py): the attempts of a download are those of an argument, and
-- of the other retried requests the last outcome is; the routes of FastAPI itself and /metrics; and the
-- interleaving of the steps of two tasks within one phase of the composer: a task runs as a whole, in
-- the order of creation in
-- Composer/Phases and in every order in Composer/Schedule.
pub mod Prelude
pub mod Errors
pub mod Schemas
pub mod Breaker
pub mod Migrator
pub mod Cache
pub mod Geocoder
pub mod Landcover
pub mod Mission
pub mod Thumbnail
pub mod Auth
pub mod Composer
pub mod Supabase
pub mod Problems
pub mod Routes
pub mod Server
pub mod Tests
pub mod Config
pub mod Describer
pub mod HttpClient
pub mod Logging
pub mod Research
pub mod Retry
pub mod Wired
