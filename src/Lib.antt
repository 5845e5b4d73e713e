-- ===== src/Lib.antt =====
-- A model of the server of code-cord (module github.com/code-cord/cc.core.server) and its theorems.
--
-- The server starts streams, each a process or a docker container of its own, keeps their records
-- in a bolt database, lets participants join them, and guards their endpoints by signed tokens.
--
-- - Service: the data model (service/server.go, service/stream.go, service/stream_handler.go).
-- - Storage: buckets, values and cursors (storage/). bolt and JSON are the records Bolt and Codec.
-- - Launch: the processes behind streams (stream/, FreePort of util/net.go). What the operating
--   system, docker and the network answer is the record Platform.
-- - Server: the state (server/server.go, server/stream.go, server/participant.go). Its record
--   Externals names the libraries: bolt, JSON, RSA keys and jwt.
--   Server.Records has the stored records and the claims; Server.Start chooses, starts and reaches
--   a process, Server.Connecting is about reaching it; Server.Lifecycle is NewStream, killStream,
--   FinishStream and Stop; Server.Running is StreamInfo, StreamAddress, StreamKey, PatchStream and
--   NewStreamHostToken; Server.Listing is StreamList; Server.Participants is
--   server/participant.go; Server.Avatars and Server.Info are server/avatar.go, Info and Ping;
--   Server.Tasks are the goroutines; Server.Invariant is about every run of these and
--   Server.Isolation about what each leaves alone.
-- - Setup: the options and the start of a server (server/opts.go, newServerOptions of
--   server/server.go), with Setup.Building for New, NewServerToken and StorageBackup. What the
--   files, docker and the folders answer is the record Surroundings.
-- - Errors, Models: the errors and answers of the handlers (handler/middleware/errors.go,
--   handler/middleware/response.go, handler/models/).
-- - Checks, Payload: the requests with their validation (handler/middleware/request.go,
--   handler/models/stream.go). The rules of ozzo-validation are the record Validation.
-- - Middleware: who reaches a handler (handler/middleware/auth.go).
-- - Handlers: the handlers of handler/, with their composition in Handlers.Endpoints and the table
--   of routes in Handlers.Routes (handler/router.go). mux is the record Mux, and what net/http
--   and JSON make of a request is the record World.
-- - Api: the endpoint that lists streams (handler/api/get_streams.go) with its request and answer
--   (handler/models/api.go); Api.Endpoints has the other handlers of handler/api/.
-- - Client: the requests and the answers of the client (cli/client.go). What a query is on the
--   way is the record UrlQuery.
-- - Program: the flags of the program and the server that it makes of them (main.go). What cli
--   writes for a flag, by its default, is the record Given.
-- - Common: texts, machine integers, results and sync.Map. Tests: concrete servers.
--
-- An operation is a function from a server to its answer and the next server; a request to the
-- router is one too, where a panic of the handler is an outcome of its own. Each stage of a long
-- operation, up to an early return, is a function of the outcome of the call that the stage starts
-- with. What the code draws (keys, identifiers, the time) is an argument. JoinParticipant is two
-- functions, before and after it waits on its channel; a goroutine is a task in the state, which a
-- later step runs. The calls that leave the server, to start or stop a process or to tell a stream
-- of a participant, are recorded in the state. An answer is its status, its headers and its body as
-- a value.
--
-- An int is 64 bits wide and wraps around (Common.Int). The loops run over lists, and that of
-- connectToStream over its six attempts; only the decimal digits of an int have fuel, 20 rounds,
-- where an int has at most 19 digits, which Common.Decimal reads back.
--
-- Not modelled: Run of server/server.go, which listens on its sockets until they are closed; the
-- encoding of bodies and tokens, the copying of a stream's answer by the proxy and of a backup by
-- the client, which belong to the standard library; the HTTP requests that tell a stream of a
-- participant (server/stream_handler.go); logging and sleeping; closing the storages; signals; the
-- platform files, which make a system call; server.go, a main program that nothing uses. Steps of
-- different operations do not interleave except where an operation waits or starts a goroutine.
pub mod Api
pub mod Checks
pub mod Client
pub mod Common
pub mod Errors
pub mod Handlers
pub mod Launch
pub mod Middleware
pub mod Models
pub mod Payload
pub mod Program
pub mod Server
pub mod Service
pub mod Setup
pub mod Storage
pub mod Tests
