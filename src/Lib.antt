-- ===== src/Lib.antt =====
-- The VLF gateway tunnels traffic for its clients in two lanes: relay connections, which are polled
-- over HTTP, and sessions over QUIC or TLS, whose control stream carries frames and whose datagrams
-- carry UDP payloads. This library models the parts that hold the gateway's own logic, as functions
-- from a state and the arguments of a call to the new state and the call's results.
--
-- The parts, and the files that model them:
--
-- - Base: tests on numbers, lists, results and association lists, shared by the parts. A Go map is
--   an association list (Base/Assoc), and Base/Tabulate has lists by their elements.
-- - Wire (Wire/Laws, Wire/Prefix, Wire/Sizes): what internal/session/frame.go uses of encoding/binary and io,
--   written out: unsigned varints, words of four and eight bytes, io.ReadFull and the panic of make.
--   A reader is the list of the bytes that are still to come.
-- - Frame: internal/session/frame.go, the frames of the control stream and their payloads.
--   WriteFrame is over an arbitrary writer. RoundTrip and Streams show what a reader sees of what
--   was written, Rejects what is refused.
-- - SessionClient: how internal/sessionclient/quic_client.go decodes the failures that a server
--   writes, and that it gets the server's reasons back.
-- - Datagram: internal/session/datagram.go, the fragments of UDP payloads. Codec is the header,
--   Fragments the cutting, Waiting the map of fragments, Delivery what comes out.
-- - Store/Wheel: internal/store/ttl_wheel.go, the timing wheel that ends idle connections and
--   sessions. Sync is the agreement of its slots and its entries, Sweep a tick, Timing how many
--   ticks an entry has left, Due how many a new one has, Expiry when an entry goes.
-- - Store/RelayStore: internal/store/relay_store.go, the relay connections by id and by client;
--   Indexes is the agreement of the two. Store/SessionStore: internal/store/session_store.go, the
--   sessions by id.
-- - Relay/RingBuffer: internal/relay/ring_buffer.go, the bytes that wait for a client's next poll.
--   Queue is the bounded queue that it implements, Refine that it does.
-- - Limits: internal/limits/manager.go, the limits on connections (Conns), bytes (Windows) and
--   packets (Packets).
-- - Auth/Replay: internal/auth/replay.go, the nonces that clients have used.
-- - Auth/Verifier: internal/auth/verifier.go and the lookup of secrets.go, over a record of what they
--   use of Go's library (HMAC, hex, strings, numbers). Signatures is what is accepted, Replays and
--   Skew when something can be accepted again.
-- - Session: internal/session/session.go, a session over QUIC: its flows, the connections that it
--   dials and closes, and the frames that it answers. What a call learns from outside is an argument,
--   and what it does outside is a list of effects. Conns and Accounts follow the connections, Bound
--   the number of flows, Closed what is left after Close, Replies the answers to opens.
-- - Session/Handshake: the AUTH at the start of a session, over QUIC and over TLS; Authentic is who
--   gets in. Session/Control is the control loop on a stream of bytes, Session/Panics when a frame's
--   payload makes the process panic.
-- - Session/Pipeline: the queues and workers for a session's datagrams; Queues is how much they hold,
--   Order that a flow's packets keep their order, Forwards that a payload reaches its target once.
-- - Session/Tcp: internal/session/tcp_session.go, a session over TLS, whose flows' data are frames;
--   Valid is its limit and its gauge.
-- - Session/Server: internal/session/server.go, the sessions of a gateway; Registry is the agreement
--   of their table, the store and the gauge.
-- - Relay/Conn: internal/relay/conn.go, a relay connection: the queue towards its target and the buffer
--   towards its client. Loop is the fuel of Enqueue's
--   loop. Calls has calls of Enqueue that run at once, and the write loop, in single steps: Sums and
--   Bounds are how much waits, Streams and Order what is written.
-- - Relay/Manager: internal/relay/manager.go, the connections of all clients. Conns counts them by
--   client, Steps is what every call keeps, Accounts and Runs their agreement with the limits and the
--   store, Stuck a connection that never goes, Owners that a client's calls reach its own connections
--   only.
-- - Relay/Http: internal/relay/http.go, the handlers and the authentication round them; Access is who
--   can change a connection.
-- - Config: internal/config/config.go, the configuration, its defaults and its validation, over numbers
--   with a sign (Base/Ints); Accepted is which files Load accepts.
--
-- How they interact: the verifier asks the replay cache; the handshake of a session and the HTTP
-- handlers ask the verifier. The control loop reads frames (Frame) and opens and closes flows; the
-- pipeline decodes datagrams, puts their fragments together (Datagram), asks Limits before it
-- forwards, and closes flows and the session where that fails. The relay manager reserves a connection
-- in Limits, puts it in Store/RelayStore, over the wheel, whose callbacks close it, and calls
-- Relay/Conn, which holds a Relay/RingBuffer. The server gives a session its id, registers it after its
-- handshake and releases it after its run; Session and Session/Tcp leave out their calls of touch.
--
-- Conventions: bytes are numbers below 256 and Go strings are lists of bytes. A machine word keeps
-- its wrap-around where the code can meet it. A call that holds a mutex from its start to its end is
-- one step. A panic that nothing recovers ends the process: it is the last effect of a run of the code.
-- The relay manager takes a call of Enqueue as one step, which holds no lock; Relay/Conn/Calls has the
-- single steps. The clock's reading is an argument. Every loop is structural recursion or runs on fuel
-- that a lemma shows to be enough: FragmentDatagram's loop has the length of the payload as fuel, and
-- each of its rounds takes a byte or more; the control loop's is one more than the bytes of its stream;
-- Enqueue's has the length of the data, and a round of it that goes on takes a byte or more.
--
-- Not modelled: sockets, the scheduling of goroutines (their work is events in any order), JSON and the
-- text of answers, certificates, the metrics, the command line programs, and the transit proxy.
pub mod Base
pub mod Wire
pub mod Frame
pub mod SessionClient
pub mod Datagram
pub mod Store
pub mod Relay
pub mod Limits
pub mod Auth
pub mod Session
pub mod Config
