-- ===== src/Lib.antt =====
-- TaskFlow: the backend of a task tracker (backend/, in Go), and what holds of it.
--
-- The program. An HTTP request passes the rate limiter and the authentication, is decoded and
-- checked by a handler, and becomes one call of a service. The handler makes the reply of what the
-- service returns; an error that it returns becomes a reply in the error handler of the framework.
-- A service runs SQL statements through the repositories, one at a time and without transactions,
-- and decides by their results; where it has changed a task or a project it publishes an event. The
-- SSE broker queues the event and fans it out to the channels of the clients that stream the
-- project; the webhook dispatcher delivers it to the URLs that subscribed to it, with retries.
--
-- The files (the paths of the code are below backend/internal):
--   Model, AppError   model/*.go, the token of repository/refresh_token.go, apperror/errors.go
--   Database          the tables of backend/migrations, and what a statement is: a function of the
--                     tables it runs in and the server's clock
--   Repository/Tasks, Projects, Users, RefreshTokens, Webhooks
--                     repository/*.go, a function for each method, with the constraints of the
--                     tables; Tasks/Queries has the lists and the counts
--   Pool              database/postgres.go
--   Service/Tasks, Projects, Auth
--                     service/task.go, project.go, auth.go and the requests of dto/*.go; Events is
--                     their `publishEvent`. Frame is what an operation never touches, however it ends
--   Sse               service/sse_broker.go: the registry, the queue and the clients' channels, a
--                     function for each method and for one round of `run`
--   Webhook           service/webhook_dispatcher.go: the retries of `deliver`; Request is what it
--                     sends, Dispatcher the goroutines of `Dispatch` with the semaphore and the wait
--                     group, as a relation between states
--   Pagination        dto/common.go
--   RateLimit         middleware/ratelimit.go; Race is what handlers that run at the same time do to
--                     the counter that they share
--   Validator         validator/validator.go and the tags of dto/*.go
--   Http              replies, and the error handler and `Recover` that make them of failures
--   Handler/Auth, Projects, Tasks, Webhooks, Stream, Health
--                     handler/*.go, a function for each handler; Stream/Writer is what runs after the
--                     handler of the event stream has returned
--   Middleware        the other files of middleware/: auth.go, security.go, cors.go
--   Config            config/config.go
--   Server            the routes of backend/cmd/api/main.go with the middleware of their groups: one
--                     request, from the limiter to the reply; Log is middleware/logger.go
--   Main              `main` of backend/cmd/api/main.go: the start of the process, the requests that it
--                     serves one after another, and the calls that end it
--   Common            lists, dictionaries, integers, and operations that may fail
-- Method names are those of Go in snake_case. The modules below a component prove what their names
-- say, and each `Tests` runs the component on small data.
--
-- State. An operation of a repository or a service takes a `World` (the tables, the broker, the
-- events handed to the dispatcher) to a result or an error and the world after it; what was written
-- before an error stays written. `Env` stands for everything that is not in the repository: what
-- other connections write between two statements, which statement fails, the clocks, the ids that
-- are drawn. A statement is atomic, as PostgreSQL's are here. Nothing is assumed of an `Env` except
-- in a theorem's hypotheses. A handler ends with a reply, an error or a panic. The handler of streams
-- works on `Streams`, which has the world and the connections of each user, and a route on `Server`,
-- which has the entries of the limiters too. A `Process` is what `main` has left to stop; the
-- deliveries that end while it waits for the dispatcher are an argument of `stop`. A request runs
-- whole between those of this process; other processes write to the tables at every statement.
--
-- Representation. Ids are texts in PostgreSQL's canonical form, so equal ids are equal texts, and
-- every id has the form of a UUID. Times are numbers of nanoseconds, dates are texts. A Go `int` that
-- a client chooses is an integer, and arithmetic on it wraps at 64 bits where it can; counts of rows
-- are natural numbers. Rows with one creation time come in the order of the table, newest first;
-- PostgreSQL may choose another. A Go map that is walked is the list of its entries. A panic is `none`
-- or an ending of its own.
--
-- Loops. `run_for` runs a number of rounds of the broker's loop, which has no end of its own; a round
-- takes one event from the queue, so as many rounds as events are enough. `deliver_from` counts down
-- the rounds that the condition of Go's loop leaves, so it has always enough. All else recurs on a
-- list.
--
-- Not modelled: the listener, the signals and the framework's own shutdown, which are not part of the
-- repository; deliveries in the background of the requests that `Main` serves, any of which ends the
-- process where it panics; how `main` hands the settings to the parts, whose record `Parts` is an
-- argument; logs, but for the level and status of a request's line; requests for streams that overlap,
-- and a race between two resets of one counter; the web framework, the driver and the libraries.
pub mod Common
pub mod Model
pub mod AppError
pub mod Sse
pub mod Database
pub mod Repository
pub mod Service
pub mod Http
pub mod Validator
pub mod Handler
pub mod Config
pub mod Middleware
pub mod Server
pub mod Main
pub mod Pagination
pub mod Pool
pub mod RateLimit
pub mod Webhook
