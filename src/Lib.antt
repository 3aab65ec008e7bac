-- ===== src/Lib.antt =====
-- SessionProxy: an owner imports a session of a target site and shares it by links; guests use the
-- site through the proxy without ever holding the owner's credentials.
--
-- The program and its model
--   * Domain is app/internal/domain/domain.go: the records that all parts share. Ids are numbers,
--     instants are nanoseconds, int64 limits are integers that may be negative.
--   * Policy is app/internal/service/policy_resolver.go and Blacklist is blacklist_service.go.
--     Both are pure; the Go regexp engine is a parameter that answers none for a pattern that does
--     not compile.
--   * Pubsub is app/internal/pubsub/hub.go, with subscribers that read and leave in any order.
--   * AccessLog is app/internal/proxy/logwriter.go. The goroutine's select loop is a function that
--     is told which case fired and how the insert of a flush ends.
--   * Store is what the services act on: the tables of migrations/, a Redis given by operations and
--     the laws of its documented commands, the clock, the bytes of crypto/rand and the hub. An
--     action passes this state and ends in a result or an error; what was written before an error
--     stays. A list of outcomes says of each call to Postgres or Redis whether it is answered,
--     refused, or done with its answer lost; past the end of the list every call is answered.
--   * Repo is app/internal/repository/pgx: each SQL text is a function on the tables, with the
--     foreign keys and unique keys that the methods run into, and each method an action. Ranges and
--     lengths of columns are checked for usage counters, access logs and security events, and the
--     expiry of a link is kept in microseconds; other texts and numbers are taken to fit. A SELECT
--     of cookies or tokens has no ORDER BY: the order of its rows is a function in the tables.
--   * Limiter is app/internal/limiter: CounterStore and SyncWorker, whose loop is a list of
--     the turns of its select.
--   * LinkService, Enforcement and Auth are the files of app/internal/service of these names. The
--     password, hash and JWT libraries are parameters. Base64 is the encoding of link tokens.
--   * Proxy is app/internal/proxy: Path and Header are its pure parts, Handler and Serve are
--     ServeHTTP, the injection plan and the reverse proxy's rewrite. The exchange with the target
--     site, url.Parse and the decryption are parameters; an exchange that is cut off makes
--     ReverseProxy panic, which is a field of what ServeHTTP leads to. http.Header is a list of
--     fields, in order for each name.
--
--   * Crypto is app/internal/crypto/aesgcm.go over an AEAD that is given by its functions and laws;
--     Base64.Std is base64.StdEncoding. SessionImport is session_import.go.
--   * Api is app/internal/transport/http: a module for each file of handlers, Middleware, and
--     Router, which is the groups of server.go as types of calls. A request comes with its decoded
--     body and its parsed ids, since encoding/json, uuid and chi are not code of the repository.
--   * Grpc is app/internal/transport/grpc: the interceptors, the stream of link activity as a
--     function of what its channel gives it, and the import.
--   * Dashboard is app/internal/transport/webui/handlers.go; its pages are values of what they are
--     rendered from. Config is app/internal/config/config.go over an environment.
--
-- A guest's request goes through Serve: it looks up the link in Repo, asks Enforcement, which uses
-- Policy, Blacklist, Limiter, LinkService and Pubsub, and on the way back counts the answer there.
--
-- Loops are structural recursion on the rows they walk, so nothing runs on fuel. Time stands still
-- during one action.
--
-- An owner's request goes through Router, Middleware and a handler to Auth, LinkService,
-- SessionImport and Repo. What SessionImport stores is what the injection plan of Proxy reads.
--
-- Not modelled: the wiring and the tickers of app/cmd/server, the refresh of the statistics view and
-- the deletion of users, which nothing calls, and generated code: protobuf, page templates, mocks.
mod Base
pub mod Domain
pub mod Policy
pub mod Blacklist
pub mod Pubsub
pub mod AccessLog
pub mod Store
pub mod Repo
pub mod Limiter
pub mod Base64
pub mod LinkService
pub mod Enforcement
pub mod Auth
pub mod Crypto
pub mod SessionImport
pub mod Api
pub mod Grpc
pub mod Dashboard
pub mod Config
pub mod Proxy
