-- ===== src/Lib.antt =====
-- Simple Screen Share: a server that relays screens and sounds between the clients of a room.
--
-- A client connects to server/src/rtp_server/server.rs over a web socket. client.rs keeps the
-- connection, parses requests and queues responses and notifications. A session is initialised
-- with a join token that the REST side asked the server for; from then on the client is in a
-- room. room.rs keeps the users of a room and the broadcasts, tells its clients of each change,
-- and relays the packets of a broadcast to its subscribers. client_rtp.rs is the client's end of
-- the WebRTC connection; it renumbers what it sends on, since a track is used for one broadcast
-- after another.
--
-- The files, with the code that they follow, under server/src/rtp_server/ where no folder is
-- named:
--   Base: ordered maps, lists and tests that all parts share.
--   Sequence: `SequencePatcher` of client_rtp.rs, for integers of any width.
--   Messages: messages.rs.
--   Broadcast: `ClientBroadcast` of room.rs and its `poll`.
--   Room: `Room` of room.rs. State has the record, Clients and Broadcasts have its methods, Steps
--     has any calls of them in any order, View a client that follows the notifications.
--   Signaling: `SignalingClient` of client.rs; Loops has its read loop, Writing the task that
--     accepts the web socket and the write loop, as steps beside the calls of the other tasks.
--   Following: a client of a room at its web socket, Room and Signaling in one.
--   Server: `RtpServer` of server.rs. State has the record and RtpCalls, the calls of an
--     `RtpClient`; Rooms has rooms, tokens, ticks and connections, Sessions and Requests the
--     request handler, and Steps any calls in any order. Phases cuts the start of a session where
--     the handler lets go of its locks, and Interleaving puts other calls between its parts.
--   Tracks: the tracks of `RtpClient` of client_rtp.rs. Receiving and Handlers have what a client
--     sends to the server, Sending and Targets what the server sends to it, and ReceiveIo and
--     SendIo the io loops of both.
--   Relaying: a broadcast and the track of one subscriber, Broadcast and Tracks in one.
--   Peer: the rest of `RtpClient`, over parameters for the calls of the webrtc crate, and
--     `IceCandidate` of messages.rs. Setup has the connection that is set up, Candidates the
--     conversion of candidates, Client offers, answers, renegotiation, the callbacks and the
--     tracks that are opened; Serving fills RtpCalls of Server with them.
--   Rest: server/src/rest_controller, the authentication of auth.rs and routes/auth.rs, and the
--     routes of routes/room.rs.
-- A method of the program is a function here from the state to the new state, the effects in
-- order (messages to clients, calls of subscribers, tasks started or woken, streams dropped) and
-- the response. Locks are not modelled: a method of a room or a connection is one step, and so is
-- a whole request in Steps. Concurrent tasks are steps in any order.
--
-- Bounds: the one loop with a bound, over draws of a broadcast id, keeps the program's 999
-- rounds, and what it does without a free id is a result of its own. All other loops run over the
-- collections. Sequence numbers wrap at 2 ^ bits, and the indices of clients and rooms at 2 ^ 64;
-- other ids are natural numbers. The start of a session has four parts, and `advance_all` runs it
-- with fuel 4.
--
-- Not modelled: the web client under client/, the set-up of the REST side, what the webrtc crate
-- does, the limits of most channels, serialisation, the binaries and logging. A weak reference of a
-- task to the client or the room it belongs to can always be upgraded.
pub mod Base
pub mod Sequence
pub mod Messages
pub mod Broadcast
pub mod Room
pub mod Signaling
pub mod Following
pub mod Server
pub mod Tracks
pub mod Relaying
pub mod Peer
pub mod Rest
