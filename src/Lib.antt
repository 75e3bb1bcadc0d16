-- ===== src/Lib.antt =====
-- A model of the Go game server: the gate that holds the clients' connections, the framed transport,
-- the tables of routes and handlers, the service process with its logins over Redis, and the players
-- of the game process.
--
-- How the parts interact.  A client's connection (Server/internal/gate/conn.go) reads frames
-- (Server/internal/transport) and hands each envelope to the gate's OnEnvelope, which creates a
-- session at a login, resumes one with a token, and forwards the rest by message number
-- (Server/internal/router) through a pool of clients to the service (gate/remote.go).  The
-- service (Server/internal/service) runs logins against Redis (Server/internal/player_db) and
-- passes the messages for the game on.  Answers come back by OnServiceEnvelope, which binds
-- players to sessions at a login.  Tickers close silent and late sessions and collect those that
-- are offline.  The game process (Server/internal/game) keeps a player as an actor with an inbox,
-- found by player or by session.
--
-- Which file models what:
--   Prelude, Prelude/        shared names, Boolean tests, lists, and Go maps with integer keys
--   Protocol                 internal/protocol: message numbers, errors, the envelope
--   Router, Registry         internal/router (GetRoute), internal/handler (Register, Get)
--   Text                     strings.Split, %d and hex.EncodeToString, as far as tokens use them
--   Transport                internal/transport/envelope.go: readEnvelope, writeEnvelope
--   Transport/Buffered       internal/transport/buffered_conn.go: its writer
--   Transport/WebSocket      internal/transport/ws_conn.go
--   Gate/State               the structs of internal/gate
--   Gate/Sessions            session_manager.go
--   Gate/Conn                conn.go, and Reply of gate.go
--   Reconnect                connectLoop, which internal/gate/remote.go and internal/service/
--                            game_router.go have alike
--   Gate/Remote              remote.go: the pool, Send, writeLoop and heartbeatLoop
--   Gate/Token               auth.go
--   Gate/Offline             sender.go, notify.go, onSessionOffline and Kick of gate.go, onConnClose
--   Gate/Login               session.go, login_limit.go, service_handler.go
--   Gate/Resume              resume.go
--   Gate/Timers              heartbeat.go, auth_timeout.go, metrics.go
--   Gate/Handler             handler.go
--   Gate/System              NewGate, UpdateConfig, and a gate as a sequence of events
--   Gate/Invariant           the invariant of the sessions and its proof, operation by operation
--   Game/Player              internal/game/player_module/player.go with its two modules
--   Game/Manager             player_manager.go over the Store interface of internal/player_db
--   Game/Server              internal/game/server.go: the rounds of handleConn and persistLoop
--   Service/NetServer        internal/service/netserver.go: gates, their sessions, and replies
--   Service/Login            internal/service/modules/login/service.go: role IDs
--   Service/GameRouter       internal/service/game_router.go
--   Service/Modules          internal/service/registry.go, the modules, and their registration by
--                            cmd/service/main.go
--   Service/Dispatch         dispatchEnvelope and routeToGame of netserver.go, dispatcher.go, and
--                            modules/login/handler.go
--   Text/Decimal             strconv.ParseInt, as far as the store uses it
--   Redis                    internal/db/redis_tools: keys.go, redis_dao.go, and in Connection
--                            redis_client.go
--   PlayerDb                 internal/player_db/store_redis.go: accounts and profiles
--   EndToEnd                 a login through the service process and the gate
--   Gate/Players             which operations of the gate give a session its player
--   Gate/Muted               the limit on unknown messages over the runs of a gate
--   Cluster                  a gate, a service and a game process over one database, by events; a
--                            round of handleGateConn of internal/service/netserver.go
--   Programs                 cmd/gate/main.go: the start of a gate from its configuration; in Servers
--                            cmd/service/main.go and cmd/game/main.go
--   Tests/                   runs on small inputs
--
-- How the code is read.  An int32 or int64 is a number, its bit pattern; message numbers are only
-- compared with constants up to 4000.  A time is the nanoseconds since Go's zero time, a duration a
-- number of nanoseconds that is not negative.  A *Session is its ID and a *Conn its place in a heap.
-- Each handler of the gate runs to its end with one reading of the clock before the next event;
-- while Send sleeps, the writer of the remote client goes on for as many turns as the list `turns`
-- says.  Dispatch of a player gets a number of turns of the player's goroutine before its timer.  Logs,
-- trace IDs, deadlines and dialling are not modelled.  HMAC-SHA256, the protobuf coding,
-- encoding/json, the Redis client and the random source are parameters; what is assumed of a coder
-- or of Redis is named at the theorem.
--
-- The processes together.  In Cluster any envelope may reach the service on a connection of the gate,
-- and any that the service wrote may reach the gate, once, again or never; the handling of an
-- envelope by a process, its commands to the database included, is one step.  One gate is taken.
--
-- Bounds.  `read_all` is given as many rounds as there are messages at least.  A run of a gate is at
-- most as long as there are non-zero session IDs, since the 64-bit counter of IDs wraps around; the
-- logins of a database are fewer than 2 ^ 63, where INCR reports an error.  A loop on events, as that of
-- Reconnect, ends with them.
--
-- Not modelled: the websocket library with its upgrade, deadlines and pings, the dispatch queues of
-- the service, which are never started, the reading of configuration files and flags, the programs'
-- signals and shutdown, and the Python clients.  Of RedisDao the operations are modelled that the
-- servers use or that have a logic of their own; the others pass one call on to the client library.
pub mod Prelude
pub mod Protocol
pub mod Router
pub mod Registry
pub mod Text
pub mod Transport
pub mod Gate
pub mod Reconnect
pub mod Redis
pub mod Game
pub mod PlayerDb
pub mod Service
pub mod EndToEnd
pub mod Cluster
pub mod Programs
pub mod Tests
