-- ===== src/Lib.antt =====
-- A chat system: a client, a gate server, to which clients connect over HTTP and WebSocket, a status
-- server, and the managers that both servers share. The client logs in over HTTP, gets a token, and
-- opens a WebSocket with it; the gate server's HTTP session checks the token and hands the connection
-- over to a WebSocket session, which stores messages and passes them to their receivers. The balancer keeps the instances of each
-- service; the database manager, the pool of status clients and the registry ask it or keep it up to
-- date. The status server answers from a Redis cache, and from MySQL where the cache has nothing.
--
-- LoadBalancer: Services/utils/load_balancer.{h,cpp}. `get_next_healthy_instance` is
--   getNextHealthyInstance; the random engine is its argument `draw`.
-- ConnectionManager: Services/GateServer/connection_manager.{h,cpp}, method by method.
-- WebSocketManager: Services/GateServer/websocket_manager.h.
-- HttpSession: Services/GateServer/http_session.{h,cpp}: the rate limiter (RateLimit),
--   generate_token and verify_token (Token), the session's state and the answers (Request), the
--   requests (Handlers), reading, writing, the upgrade and the end (Lifecycle), and parse_post_data,
--   which nothing calls (PostData). The handlers of
--   asynchronous calls are on_read_done and on_write_done.
-- RedisManager: Services/utils/redis_manager.{h,cpp}; `request` is what every command but
--   subscribe does, which is in Subscribe.
-- DatabaseManager: Services/utils/database_manager.{h,cpp}; its child modules Users and Messages
--   have the queries. `with_statement`, `or_abandon` and `when_available` are the steps that the
--   methods repeat.
-- StatusService: Services/StatusServer/status_service_impl.{h,cpp}, over the two managers, and the
--   messages of Services/proto/status.proto.
-- StatusClientManager: Services/GateServer/status_client_manager.{h,cpp}.
-- ServiceRegistry: Services/utils/service_registry.{h,cpp}, and its child module HealthChecker
--   Services/utils/health_checker.{h,cpp}.
-- WebSocketSession: Services/GateServer/websocket_session.{h,cpp}: the queue of outgoing messages,
--   the status report and the end of a session; its child modules have
--   the messages that are read (Messages), and the construction, the heartbeat and the handlers
--   on_read_done, on_accepted and on_timer of asynchronous calls (Heartbeat).
-- Listener: Services/GateServer/listener.{h,cpp}.
-- GateServer: Services/GateServer/main.cpp, up to the call of `ioc.run()`, and the signal handler.
-- CryptoUtils: Services/utils/crypto_utils.{h,cpp}.
-- NetworkManager: the client's Qtclient/backend/networkmanager.{h,cpp}; its child module Replies has
--   the replies and the messages over the socket, and Events the calls and signals of a history.
-- ClientServer: a login through the client and the gate server together.
-- Base: lists, dictionaries with text keys, integers with their texts, the texts of JSON objects, and
--   methods on a state.
--
-- A method that changes state is a function from a state to an outcome (Base/Monad): it returns,
-- throws, or waits forever for a mutex that its own thread holds. A mutex is a flag of the state that
-- says whether the calling thread holds it; a flag that is not set means that the thread gets the
-- mutex in the end. Methods of several threads are so seen one at a time, as their mutexes order
-- them. The clock and the random numbers are arguments. Logging is left out. The program has one
-- balancer; the database manager and the pool of clients each hold it in their state, as they see it
-- under the name of their own service.
--
-- Ports, weights, counts, sizes and scores are natural numbers; the counts of the limiter stay
-- below its limit. User ids of the database manager are natural numbers, those of the status
-- service are integers with the texts of `std::to_string` and the range of `std::stoi`. `digits` of
-- Base/Int writes ten digits at most, enough for 32 bits; in HttpSession/Token a number gets as many
-- digits as its own value plus one. Loops are recursions on the list or the number that they go
-- through, so no other bound is used.
--
-- hiredis, the MySQL client library, OpenSSL, Boost.JSON, Beast's test for an upgrade, Qt's JSON and
-- socket, Asio's acceptor, the system's sockets, the reading of main's arguments and the call of the
-- status server are parameters: functions, on a state of their own where they have one. In the HTTP
-- handlers the password's hash is a function of texts. Where a theorem relies on what their calls do,
-- this is a record of laws: Counts (in DatabaseManager/Statements, in ServiceRegistry/Probes and in
-- CryptoUtils/Contexts), Handles (in DatabaseManager/Connection), SortedSets (in
-- StatusService/RoundTrip), Understand and Reaches (in ClientServer). Undefined behaviour is modelled
-- in RedisManager/Subscribe alone: a column that does not fit gives what fits, the insert id is not
-- cut to an int, and weights are taken to have a sum that the distribution takes. Another session's
-- send_message runs on that session's object, in Messages of WebSocketSession.
--
-- Not modelled: the thread of the health checker; the gRPC stubs of
-- Services/GateServer/status_client.cpp; Services/StatusServer/main.cpp; Services/VarifyServer, which
-- is a stub; logging; the user interface of Qtclient.
mod Base
pub mod ClientServer
pub mod CryptoUtils
pub mod NetworkManager
pub mod Listener
pub mod GateServer
pub mod LoadBalancer
pub mod ConnectionManager
pub mod WebSocketManager
pub mod HttpSession
pub mod RedisManager
pub mod DatabaseManager
pub mod StatusService
pub mod StatusClientManager
pub mod ServiceRegistry
pub mod WebSocketSession
