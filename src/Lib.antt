-- ===== src/Lib.antt =====
-- The server of hwarr: an Engine.IO and Socket.IO v4 implementation in Go (server/pkg) and an
-- application on top of it (server/internal), a map of burning grid cells with stages of fire.
--
-- Parts, from the wire to the application:
-- - Engineio.Packet: server/pkg/engineio/packet.go. Packet.Encode, DecodePacket, EncodePayload and
--   DecodePayload are encode, decode_packet, encode_payload and decode_payload.
-- - Engineio.Session: server/pkg/engineio/session.go, one function per method. Session.Line has the
--   steps of the goroutines that share a session (polls, the write loop, senders, upgrades, closes)
--   and the lines that any interleaving of them reaches; what a callback for messages sends is steps
--   of their own there, and part of handle_packet where nobody else works on the session.
-- - Engineio.Server: server/pkg/engineio/server.go, with ServeHTTP and its handlers in Server.Http,
--   and server/pkg/engineio/websocket.go in Server.WebSocket. A session's object stands on a heap.
-- - Socketio.Packet: server/pkg/socketio/packet.go. Decode and Encode are decode and encode, in the
--   five steps of the source; Packet.Binary holds deconstructNode and reconstructNode on a tree type
--   for interface{}, Packet.Build the constructors and accessors, Json the depth check.
-- - Socketio.Room, Socketio.Middleware, Socketio.Namespace, Socketio.Server: room.go, middleware.go,
--   namespace.go, server.go and handler.go of server/pkg/socketio. A World holds the sockets and
--   rooms of every namespace, the frames that reached clients and a state of the application; the
--   handlers are functions on it, so that a handler may call the server again.
-- - Socketio.Ack: server/pkg/socketio/ack.go; a timer's expiry and the run of its function are two
--   steps (expire, run_timeout), between which any other call may come.
-- - Bridge: setupSocketServers of server/internal/server/server.go, which joins the two servers.
-- - Model.Fire: server/internal/model/fire.go.
-- - Engine.Progression: server/internal/engine/fire_progression.go.
-- - Engine.Cleanup: server/internal/engine/cleanup.go. Redis is the record CleanupRedis of its calls,
--   CleanupLaws what they are documented to do, and Cleanup.Store a store that keeps the laws.
-- - Grid: ids and neighbours of server/internal/grid/grid.go.
-- - Auth.Token: server/internal/auth/token.go, with the signature as a function.
-- - Sio.ConnectionManager: server/internal/sio/connection_manager.go, with a heap of the
--   ConnectionInfo objects that its two maps share.
-- - Sio.Connect: server/internal/sio/handler.go, handleConnect and handleHeartbeat.
-- - Sio.Ignite: registerFireEvent of server/internal/sio/fire_ignite.go; Ignite.Handler has its
--   handler and that of fire_compat.go. Sio.FireState: fire_state.go, get_fires_compat.go and the
--   handler of subscribe_viewport.go. Sio.ChatSend: chat_send.go.
-- - Sio.Viewport, Sio.Chat: joinViewportRooms of subscribe_viewport.go, and chat_join.go,
--   chat_leave.go and disconnect.go, in server/internal/sio; they change a World and a manager.
-- - Sio.RateLimiter: server/internal/sio/ratelimit.go, Allow and Remove as allow and forget.
-- - Sio.Reaper: server/internal/sio/reaper.go, one pass.
-- - Sio.FireBatcher: server/internal/sio/fire_batcher.go, Add as enqueue.
-- - Handler.Feedback and Handler.DemoFire: feedback.go, and registerFire and the choice of a location
--   of demo_fire.go and demo_location.go, in server/internal/handler.
--
-- Base and GoMap hold numbers, byte strings, results, decimal numbers, splitting and Go's maps.
--
-- Strings are lists of bytes. Go's int holds up to 2^63 - 1 (max_int), which strconv.Atoi checks;
-- counters and times are natural numbers. The loops recurse on their lists, so no fuel is needed; the
-- cascade of a fire recurses on the hops that are left, of which the source allows 8. Each method
-- under a mutex is one step. Maps are association lists, and theorems hold for any order of them.
-- encoding/json enters as the records JsonReader and JsonTree, its float64 as Floats; the token
-- bucket of the rate limiter, Redis, the clock, random draws, the signature of tokens, what a
-- WebSocket reads and whether its writes succeed, and the send function are arguments. Logging and
-- metrics are left out.
--
-- Not modelled: conversions of coordinates and the enumeration of a viewport's grids (floats), names
-- of locations, geodata and rankings, the other HTTP handlers, the Redis adapters, configuration and
-- start-up, and the handler around the demo's registerFire.
pub mod Base
pub mod Bridge
pub mod GoMap
pub mod Socketio
pub mod Engineio
pub mod Model
pub mod Auth
pub mod Grid
pub mod Engine
pub mod Sio
pub mod Handler
