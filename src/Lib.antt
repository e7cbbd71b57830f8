-- ===== src/Lib.antt =====
-- A model of notification_server, a Go service: users register and verify their email, ask for a story
-- that a language model writes from their preferences, and are told by email when it is written. HTTP
-- handlers call the services of internal/usecase; these work on Postgres and Redis; workers read jobs
-- from Redis streams, and a scheduler moves jobs that failed back to their stream when a retry is due.
--
-- Which file models what:
--  * Domain.Errors: internal/domain/errors.go. The package's variables are told apart from an error
--    that is built at the spot, as `errors.Is` does. Domain.Entities: the records of internal/domain.
--    Domain.Action: what a Go call gives back (a value, an error or a panic), and do blocks for it.
--  * Store.Tables: the tables of migrations/, as lists of rows with a counter for each sequence.
--    Store.Broker: Redis streams and sorted sets, Store.Hashes: Redis hashes; both are interfaces with
--    the documented behaviour of the commands as laws. Store.World: the whole state. Every command
--    goes over a link that may drop it, or run it and lose the answer; the list `link` says which, and
--    after its end all commands are answered. Store.Triple, Store.DbTriple, Store.Holds and Store.Rows: what an
--    action keeps, whatever the link does, and laws of the statements.
--  * Repository.Users, Repository.Verification, Repository.Stories, Repository.Tokens: the methods of
--    internal/infrastructure/repository/postgres/user_postgres.go, a statement as a function on the
--    tables with its unique and foreign keys and its cascades.
--  * Queue.Task, Queue.Codec: internal/infrastructure/repository/redis/redis_job_queue.go, where
--    encoding/json is a parameter that reads back what it wrote. Queue.Backoff:
--    internal/infrastructure/utils/backoff.go, with the wrap-around of an int64 written out.
--    Queue.Worker: internal/infrastructure/queue/streams_consumers.go.
--    Queue.Scheduler: internal/infrastructure/queue/scheduler_consumer.go. Queue.Delivery,
--    Queue.Reading, Queue.Rounds and Queue.Due hold the theorems on them.
--  * Jobs.Executer: story_executer.go and email_executer.go of internal/usecase, with
--    internal/infrastructure/ai/client.go and internal/infrastructure/notification/mailer.go.
--    Jobs.Completion: internal/usecase/job_completion.go. Jobs.Handlers: what
--    internal/application/app.go hands to the worker pools. Jobs.Pool: a pool as a sequence of events,
--    what its workers do, the rounds of its scheduler and jobs that arrive, in any order. Jobs.Keeps,
--    Jobs.Robust, Jobs.Apart, Jobs.Journey, Jobs.Survival, Jobs.Stuck, Jobs.Exhausted, Jobs.Statuses,
--    Jobs.Success and Jobs.Overwrite hold the theorems on them.
--  * Security.Hash, Security.Jwt: internal/infrastructure/security; bcrypt, SHA-256, the random source
--    and golang-jwt are parameters.
--  * Users.Otp: internal/infrastructure/repository/redis/redis_otp.go. Users.Register,
--    Users.Verify and Users.Session: internal/usecase/user_service.go. Users.Scheduling:
--    internal/usecase/story_service.go. Users.Signup, Users.Lockout, Users.Attempts, Users.Race,
--    Users.Arrival, Users.Welcome, Users.Entrance, Users.Newcomer, Users.Promotion, Users.Login,
--    Users.Rotation, Users.Reuse, Users.Halves, Users.Writes, Users.Twice,
--    Users.Deletion and Users.Once hold the theorems on them.
--  * Http.Errors: internal/adapters/http/dto/errors.go. Http.RateLimiter: the script of
--    internal/adapters/http/middleware/rate_limiter.go, over the buckets of Store.Buckets, where the
--    arithmetic of doubles is a parameter. Http.Text,
--    Http.Gin: what the following use of the packages strings and gin. Http.Validators:
--    internal/adapters/http/utils/validators.go. Http.Middleware, Http.Content:
--    internal/adapters/http/middleware/middleware.go, where a middleware is a function on the rest of
--    the chain, and reading JSON and the package validator are parameters. Http.Handlers:
--    internal/adapters/http/handler/handler.go. Http.Routes: internal/adapters/http/routes.go.
--    What the package cors forbids is a parameter. Http.Guard and Http.Created hold the theorems on
--    them.
--  * App: the settings of internal/infrastructure/configs/configs.go that internal/application/app.go
--    hands to the parts, and the parts that it builds of them. App.Lifecycle: what its `Run` opens,
--    starts and ends, with the deferred calls. App.Retries: the two schedulers with the names of the
--    settings.
--  * System.Turns: the program that internal/application/app.go wires, as a list of turns on one
--    state: a request that gin serves, a round of a worker of one of the pools, or a round of one
--    of the schedulers. A turn runs to its end before the next begins; Users.Race and Users.Twice
--    take one call apart. System.Stable, System.Services, System.Requests and System.Pools: what
--    the turns keep, from what their single statements keep (with Store.Holds). System.Secrets,
--    System.Links, System.Removals, System.Integrity, System.Survival, System.Stories and
--    System.Emails, over System.Existence, use it.
--  * Tests: instances of the interfaces, and each result at a concrete input.
--
-- Bounds and fuel: loops over rows and payloads are structural recursion; a worker and the scheduler
-- run over a list of rounds, where a worker may also wait in `Read` for ever, and what holds is
-- shown for every list. Ids, counts and times are natural numbers; a job's back-off is the one place
-- where the source can leave 64 bits, and there the word is written out. Clocks are arguments.
--
-- Not modelled: logging (but for the log call that panics), how the connections of
-- internal/application/app.go are made, the HTTP server, cmd/main.go, the reading of the settings,
-- context deadlines, column sizes, the text of emails, the expiry of Redis keys, the headers that
-- the package cors adds, the page of the API documentation, and the middleware AddCorrelationID,
-- which nothing uses. Without ORDER BY a query of one row may give any row that fits:
-- RetrieveVerificationData, whose condition is on a column that is not unique, takes the oldest
-- here. The conditions of the other queries are on a unique column, or on the user of the
-- preferences, which are written once for each user.
mod Base
pub mod Domain
pub mod Http
pub mod Store
pub mod Repository
pub mod Queue
pub mod Jobs
pub mod Security
pub mod Users
pub mod App
pub mod System
pub mod Tests
