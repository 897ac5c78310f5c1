-- ===== src/Lib.antt =====
-- long-gw: a gateway that keeps long connections of clients, the clients' library, the service
-- that issues their tokens, and a business server behind Kafka.
--
-- The parts, each with the file that models it (paths from the repository's root, `internal/` for
-- gateway/internal/):
--   * Protocol: the frame codec, internal/protocol/codec/codec.go. Serialisers and gzip are
--     parameters (`Wire`), whose one law is that reading gives back what was written.
--   * Transport: Read and Write of the gateway's TCP and WebSocket transports,
--     internal/access/tcp/transport.go and internal/access/websocket/transport.go;
--     Transport/Sdk and Transport/SdkSocket: the client's, sdk/tcp/client.go and sdk/ws/client.go. A
--     socket is the list of the chunks or of the messages that it gives.
--   * Router: LocalRouter, internal/router/local.go, with its maps as association lists;
--     Router/Distributed: which gateway has a user, internal/router/distributed.go, on Redis as a
--     record of its commands with their laws.
--   * Timer: the wheel, internal/timer/wheel.go and task.go, a turn of its loop (Timer/Turns), and
--     the shards of shard.go (Timer/Shards).
--   * World: the state that the parts below share through pointers. A pointer is a number, and
--     messages, connections and sessions are functions of it, so that aliasing is as in the code.
--   * Connection: sending, the connection registry and the two loops (Connection/Loops),
--     internal/access/connruntime/connection.go, writer.go, outbound.go, reader.go and registry.go.
--   * Scanner: the ACK scanner, internal/delivery/ack/scanner.go.
--   * Session: internal/session/session.go: Submit, AttachConn, DetachConn, Ack, Close, the rooms.
--   * SessionRegistry: internal/session/registry.go with the ACK timeout, attaching a connection and
--     onClose of internal/access/connruntime/factory.go; SessionRegistry/Policy: the retry policy,
--     internal/delivery/retry/retry.go; SessionRegistry/Ids: the ids of sessions.
--   * Factory: the handshake, CreateAndRun and its answer, internal/access/connruntime/factory.go;
--     Factory/Turns: a running connection, whose loops take turns.
--   * Worker: the worker pools and their manager, internal/worker/pool.go and manager.go;
--     Worker/Brokers: the Kafka record and the consumers around them; Worker/Senders: both senders,
--     internal/worker/upstream; Worker/Offsets: what a consumer
--     fetches again, internal/utils/kafka/consumer.go; Worker/Topics: the topics,
--     internal/utils/kafka/topic_manager.go; Worker/Failures: the answer to a message that is not sent
--     upstream; Worker/Shutdown: starting and stopping a pool.
--   * Storage: the offline store, internal/worker/storage, on the database as a record of its
--     statements with their laws.
--   * Pipeline: chains of stages, internal/pipeline/pipeline.go; Pipeline/Downlink and
--     Pipeline/Uplink: the stages, internal/pipeline/downlink/stages.go and uplink/stages.go.
--   * Handler: the frame handlers and Dispatch, internal/access/handler.
--   * App: how the gateway is put together and run, internal/svc/svc.go and internal/app.
--   * Business: the business server, business/internal. Names of enums, protobuf, the
--     asynchronous Kafka writers and the clock are parameters.
--   * Auth: the token service, auth/internal/server/server.go, and the verifier in the gateway,
--     internal/access/handler/handshake.go.
--   * Sdk: the client library. Sdk/Signals: sdk/types.go and codec.go; Sdk/Client: sdk/client.go with
--     sdk/tcp/client.go and ws/client.go, with the calls that do not wait in Sdk/Client/Async;
--     Sdk/Login: sdk/auth.go; Sdk/Push: sdk/grpc/client.go.
--   * System: the gateway as a whole. An `Event` is one call of an entry point or one turn of a
--     goroutine's loop, `perform` what it does, and `Reaches` any sequence of events, so that every
--     interleaving of connections, workers and timers is one of them. System/Keeps has the laws
--     that an invariant has to meet, System/Sound and System/Idle an invariant each, the other files
--     show for each part that its calls keep whatever meets the laws, and System/Runs puts them
--     together. System/Delivery follows a message from the brokers to a connection, System/Upstream
--     one from a connection to the worker that sends it.
--   * Base: what these share; Tests: runs at concrete inputs.
--
-- A frame comes in through Transport and Protocol, Handler dispatches it, and a business frame goes
-- through Pipeline/Uplink and the session to a pool of Worker. A message for a client comes out of a
-- pool's channel, goes through Pipeline/Downlink, which asks the Router, and is submitted to
-- sessions, which hand it to their connections, wait for its ACK by Scanner and Timer, and store it
-- where it cannot be sent.
--
-- Operations are functions on the state they change, one call at a time: a mutex or a sync.Map makes
-- each call of the source one step. `Outcome` and `Flow` have a case for a panic, which keeps what was
-- written before it. The reading loops run on fuel; one round more than there are chunks is enough
-- for the client's, and for the gateway's where it does not hang. Sequence numbers wrap at 2 ^ 64, and
-- lengths in packets at 2 ^ 32.
--
-- In System a timer's handler may run with any payload at any time, and a session's calls may come
-- from anywhere, which is more than the code does. A call of the SDK that waits for its answer is two
-- events, so that signals come in between; a mutex that its own goroutine holds is the case `blocked`
-- of `Ran`.
--
-- Not modelled: Redis, Kafka, the database, HTTP and gRPC themselves, the loading of the configuration,
-- the listeners, the handlers of the administration and of gRPC, which are made without the accessor
-- that they need or do nothing, logging and metrics, the cancellation of a gateway's context while it runs, the
-- URL of the SDK's WebSocket client, and the generated code of the protocol with its validators, which
-- nothing calls. The message type of the protocol is a record of the fields that the gateway uses, and
-- so is the one of the SDK, which is built on an older version of it.
pub mod Base
pub mod Business
pub mod Protocol
pub mod Router
pub mod Timer
pub mod World
pub mod Connection
pub mod Scanner
pub mod Session
pub mod SessionRegistry
pub mod Worker
pub mod Pipeline
pub mod Handler
pub mod Factory
pub mod App
pub mod Auth
pub mod Sdk
pub mod Storage
pub mod System
pub mod Tests
pub mod Transport
