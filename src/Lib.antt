-- ===== src/Lib.antt =====
-- Verification of the user platform: registration, login, sessions and auditing behind gRPC and an
-- HTTP gateway.
--
-- The parts and how they meet. internal/user/service/service.go is the user service: it checks the
-- input, hashes the password (pkg/auth/passwords.go), keeps users and sessions through its
-- Repository interface (internal/user/repo), signs and verifies tokens (pkg/auth/jwt.go), limits
-- logins per e-mail, caches users, and reports what happened to the audit service
-- (internal/logger/service/audit.go), which writes to Cassandra and, with retries (pkg/retry), to
-- Kafka (pkg/kafka). Its errors are gRPC statuses that pkg/errors builds, reads back, and turns into
-- HTTP answers for the gateway.
--
-- The modules:
--   Prelude        names and lemmas that the others share.
--   Dict           a Go map with string keys, as a chain of bindings with its laws.
--   Clock          time.Time and time.Duration in nanoseconds.
--   Grpc           grpc/status as an interface (`StatusLib`); `Grpc.Example` is an instance.
--   Errors         pkg/errors: `status_from_code` is StatusFromCode, `parse` is Parse, and so on.
--                  `Errors.Http` is http.go; the proofs are in Mapping, Extraction, RoundTrip and
--                  Answers.
--   Repo           the rows, the Repository interface and its laws (`IsRepository`); `Repo.Memory`
--                  is internal/user/repo/memory.go, and `Repo.Memory.Laws` fills the laws.
--                  `Repo.Queries` is the SQL of internal/user/sqlc/gen/user.sql.go on tables with the
--                  constraints of pkg/migrations/up (ListUsersPage in `Repo.Queries.Listing`),
--                  `Repo.Postgres` is postgres.go over it, and `Repo.Postgres.Instance` fills the
--                  laws for it as well.
--   Auth           pkg/auth/passwords.go and jwt.go, over bcrypt and golang-jwt as interfaces;
--                  `Auth.Interceptor` is middleware.go.
--   Limiter        the pool of rate limiters at the end of service.go.
--   Retry, Kafka   pkg/retry/retry.go, and Publish of pkg/kafka/producer.go.
--   Audit          Emit, and WriteAudit of internal/logger/grpc/server.go.
--   Service        the user service: `Deps` is what it is built over, `State` is what its calls
--                  change, and `Readings` is what one call draws from clocks and random sources.
--                  `Register`, `Login`, `Sessions` (RefreshSession and Logout), `Profile` (GetProfile
--                  and its gRPC handler) and `Getters` (the cached getters) are its methods; the
--                  modules below them hold the proofs, and `Service.Tests` runs the service over the
--                  in-memory repository. `Service.Server` is the rest of the gRPC server.
--                  `Service.Sessions.Later` says which repositories later writes lead to.
--   Gateway        internal/gateway/httpserver/handlers.go, over a client of the user service; a
--                  `Carriage` says whether gRPC carries a call to the service and back, or which
--                  error the client makes of it.
--   Sse            pkg/sse/hub.go, as a step relation on the channels that it has made; `Sse.Stream`
--                  is the handler of http.go, `Sse.Reading` a client that reads its stream.
--   Pool           pkg/concurrency/concurrency.go, as a step relation: `step` makes one atomic
--                  operation of a goroutine, and an `Event` says whose. The invariant is in Sound,
--                  Calls, Work and Invariant, what a schedule comes to in Draining and Progress.
--   Kafka.Consumer Start and Close of pkg/kafka/consumer.go, over `Pool`: `turn` makes one step.
--   Validation     pkg/validation/validator.go, over go-playground/validator as an interface.
--   Text           the functions of Go's strings package that the code uses.
--   Config         pkg/config/vault.go, over the Vault client as an interface; a `Loading` is a value,
--                  an error or a panic.
--   Commands       cmd: `Process` is a run of main with its files and deferred calls, `UserService`
--                  and `LoggerService` are the two mains until the server ends, `Listen` has the listen
--                  addresses and Go's net.SplitHostPort, `Files` and `Keys` the key files,
--                  `GatewaySettings` loadConfig, and `RedisCache` the caches over go-redis.
--
-- A method is a function of the state that returns its results and the next state; an error that
-- may be nil is an Option. A call runs alone: singleflight then runs the function that it is given,
-- and a mutex does nothing. A Time counts nanoseconds from Go's zero Time in ℕ, and the times of the
-- program wrap nowhere. No loop of the program runs on fuel: WithBackoff recurses on the attempts that are
-- left, and the others on lists. The limit of ListUsersPage, an int32, is a number without a bound,
-- and the tables keep a time to the nanosecond, where timestamptz rounds it to microseconds. The
-- client that follows the pages of ListUsersPage asks for at most
-- one page more than there are users, and the theorem says that this is enough.
--
-- Libraries are parameters with their documented behaviour as laws: grpc/status, google/uuid,
-- bcrypt, golang-jwt, go-playground/validator, x/time/rate, encoding/json of the cached view,
-- kafka-go, gocql, go-redis, pgxpool, the Vault client and the operating system.
--
-- Not modelled: logging; the clients and servers that cmd configures, and their graceful stop; the
-- client of Vault; RunHTTPServer of the gateway with its routes; PublishCtx of the hub; the code that
-- protoc generates; failures of the connection to Postgres; and the weak memory of Go beyond
-- interleavings of whole operations.
pub mod Pool
pub mod Prelude
pub mod Dict
pub mod Text
pub mod Clock
pub mod Commands
pub mod Grpc
pub mod Errors
pub mod Repo
pub mod Auth
pub mod Limiter
pub mod Retry
pub mod Validation
pub mod Kafka
pub mod Audit
pub mod Service
pub mod Gateway
pub mod Sse
pub mod Config
