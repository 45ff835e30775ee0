-- ===== src/Lib.antt =====
-- ChatterStack, the Go back end of a chat service: registration and sessions, rooms and their
-- members, messages, the hub of connected websocket clients, the HTTP routes and the PostgreSQL tables.
--
-- How the parts of the program interact. The handlers of internal/delivery/http call the use cases,
-- and these the services of internal/domain. The services keep no state of their own: they call
-- repositories (PostgreSQL), a token cache and a publisher (both Redis) through interfaces. What the
-- services publish, a relay hands to the hub of internal/delivery/websocket, which sends it to the
-- clients of the room. A failed call comes back as an error value, which internal/delivery/http turns
-- into a status and a text.
--
-- Which file models what:
-- - Base and its children: tests, lists, Go's `int` and `/`, `strings.TrimSpace` and `strings.Split`,
--   `strconv.Atoi` and `%d`, maps with text keys.
-- - Errors: the error values, with the sentinels of internal/domain/*/service_impl.go.
-- - Exec: calls that may fail, as `W → Result A × W` for a world `W` that holds whatever the outside
--   services read and change. What was done before an error stays done.
-- - Models: internal/domain/models.
-- - Utils: internal/utils/hash.go and internal/utils/jwt.go; bcrypt and the random source are
--   parameters.
-- - Auth: internal/domain/auth/service_impl.go; the user repository, the cache and the clock are
--   fields of `Service`. Auth/Keys are the cache keys, Auth/Cache what the code relies on in the
--   cache, Auth/Issue and Auth/Rotation follow the entries of a session, Auth/Login and
--   Auth/Registration say who is let in. Auth/Reliable is a cache that loses nothing, Auth/Progress
--   and Auth/Session follow a session in it from `Login` to `Logout`.
-- - Rooms: internal/domain/rooms/service_impl.go; the repository, the publisher, `json.Marshal` and
--   the order of a `range` over a map are fields of `Service`. Rooms/Members is about `buildMembers`,
--   Rooms/Creation about `Create`, Rooms/Direct and Rooms/Reuse about `EnsureDirectRoom`, Rooms/Access
--   about `Delete`, `AddMember` and `Search`.
-- - Messages: internal/domain/messages/service_impl.go, with its services as parameters in the same
--   way. Messages/Owner is about `Edit` and `Delete`, Messages/Sending about `Send`, Messages/Receipts
--   about `MarkDelivered` and `MarkRead`, Messages/Paging about the windows that lists ask for.
-- - Hub: internal/delivery/websocket/hub.go. `add_client`, `remove_client`, `send_to_room`,
--   `send_to_user` and `shutdown` are the methods of the same names; a client is a number, the maps
--   are association lists, and sending on or closing a closed channel is the result `panicked`. A Go
--   channel is the list of what waits in it, at most 256 payloads as in `NewClient`. Hub/Loop is the
--   loop `Run` as a function on a list of events, so that every order of events is one list.
--   Hub/Senders are the goroutines around it, which wait until the loop receives, as a step relation.
-- - Client: the handlers of internal/delivery/websocket/client.go as functions from a payload to the
--   broadcast that they queue, and internal/delivery/websocket/auth_helpers.go; Client/Membership says
--   which rooms a client reaches, Client/Sending what its messages are broadcast as. Client/Pump is
--   the loop `ReadPump`, from the messages that are read to the broadcasts that are queued.
--   Client/Writer is the loop `WritePump` on a list of events, so that every way of `select` is one
--   list; the connection is a parameter. Client/Writer/Ending says when it returns, Client/Writer/Frames
--   and Client/Writer/Order what it sends.
-- - Connect: the handler of /ws in cmd/server/main.go, from a request to a registered client.
-- - Relay: internal/delivery/websocket/relay.go, as a function from a channel and a payload of Redis to
--   what the hub is given. Relay/Channels is about the channels of users, Relay/Twice follows a
--   message through the client, the message service and the relay, Relay/Arrival from the service to
--   the channels of the clients. Relay/Loop is the goroutine round
--   it, with the subscription that it opens and closes; it hangs at a broadcast once `Run` has returned.
-- - Users: internal/domain/users/service_impl.go.
-- - Middleware: pkg/middleware/cors.go; Middleware/Bearer is pkg/middleware/auth.go, and
--   Middleware/Access puts it in front of the authentication service. Middleware/RateLimit is
--   pkg/middleware/rate_limit.go, with the token bucket as a parameter. Middleware/Unused is
--   pkg/middleware/logger.go and pkg/response/response.go.
-- - Http: Http/Failures and Http/Payloads are internal/delivery/http/helpers.go: they map errors to
--   answers and make the bodies of the others. Http/Request is what a handler reads and answers;
--   Http/AuthHandler is auth_handler.go and user_handler.go, Http/RoomHandler room_handler.go and
--   Http/MessageHandler message_handler.go, a request body that cannot be read being none.
--   Http/Router is router.go: a `Call` is a route with its body, `serve` puts pkg/middleware/auth.go
--   in front of the protected ones. Http/Router/Routes are the methods and paths of
--   the routes, without gin's rules for a choice among several.
-- - Usecase: internal/usecase. A use case holds a service and nothing else, so the model has the
--   service in its place.
-- - Postgres: internal/repository/postgres over the tables of db/migrations/0001_init.up.sql. A
--   statement is a function on the tables; `Env` says which statements fail, and what SQL leaves open.
--   `transaction` is Begin, the deferred rollback and Commit; a commit that fails may have been done,
--   its answer lost. Times are stored in microseconds, and ids in the form that PostgreSQL
--   gives a UUID, the field `uuid` of `Env`; the ids in the table of users, and those it is asked
--   for, are taken to have that form already. Where `make` has no space for the rows that are asked for, the panic is
--   the error of the request. Postgres/RoomRepo, Postgres/MessageRepo
--   and Postgres/UserRepo are the repositories, as values of the interfaces of the services.
--   Postgres/Created is about `Create` of a room, Postgres/Counting and Postgres/DirectRooms about
--   `FindDirectRoom`, Postgres/Receipts about receipts, Postgres/History about stored messages.
-- - Redis: internal/repository/redis over the client of go-redis, a parameter.
-- - Config: internal/config/config.go; the environment, `time.ParseDuration` and net/url are fields of
--   `System`. Config/Loaded is about the limits of requests.
-- - Server: cmd/server/main.go. Server/Wiring puts the services over the repositories of PostgreSQL and
--   the client of Redis, which change different parts of a `Node`; Server/Api puts the middleware in
--   front of the routes; Server/Start is how the servers start, end and close what they opened, a
--   deferred call being `defer`; Server/Ping are the background pings, Server/Dsn is `maskDSN`.
--
-- Every loop of the program is structural recursion on a list, so no bound or fuel is needed; `%d`
-- of a number prints at most 19 digits, which are enough for an `int`. A `time.Time` is a number of
-- nanoseconds, 0 for the zero time. Strings are texts of code points, and `<` on them is the order of
-- their code points, which is that of their UTF-8 bytes.
--
-- Not modelled: the log lines; gin's matching of paths, beyond which names and words a path has to
-- have, its redirects, its answers to panics and its binding of requests; the sockets, deadlines
-- and time limits of net/http and gorilla/websocket; what other transactions do to the tables
-- while one is open; and the mocks.
pub mod Base
pub mod Errors
pub mod Exec
pub mod Models
pub mod Rooms
pub mod Postgres
pub mod Hub
pub mod Utils
pub mod Auth
pub mod Messages
pub mod Http
pub mod Users
pub mod Usecase
pub mod Client
pub mod Relay
pub mod Connect
pub mod Middleware
pub mod Config
pub mod Redis
pub mod Server
