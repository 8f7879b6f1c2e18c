-- ===== src/Lib.antt =====
-- PARDA: an end-to-end encrypted messenger whose messages travel by a relay server, a Sphinx mix
-- network or a store-and-forward mesh of devices, and may destroy themselves. This library models
-- the crates that hold its logic in the repository's Rust sources and proves what they promise.
--
-- The parts, and the files that model them:
-- - Protocol.Envelope: protocol/src/envelope.rs, the wire envelope and `validate_version`.
-- - Protocol.ClockGuard: protocol/src/clock_guard.rs, the wall-clock watermark.
-- - Protocol.SelfDestruct: protocol/src/self_destruct.rs. `seal*`, `open`, `expire_now`,
--   `open_with_clock_guard`, `export_for_persistence` and `restore` are functions of the same name
--   (`open_message` for `open`); the key slot counts what was freed and what is locked. Its child Run
--   is the message under any order of readings, expiries and timer ticks, Restore and Persist a
--   restart.
-- - Protocol.Mixnet: protocol/src/mixnet.rs, tokens, packet building and `process_packet`.
-- - Protocol.Trust: protocol/src/trust.rs, safety numbers and the change of a verified key.
-- - Protocol.DeadDrop: protocol/src/dead_drop.rs, blinded addresses and poll sets.
-- - Protocol.Transport: protocol/src/transport.rs, the transport interface with the direct transport
--   (its child Direct puts the relay's handlers behind it) and the mix transport (Mix; Pull puts the mix
--   nodes and the relay behind it).
-- - Protocol.Store, Protocol.Session: protocol/src/store.rs and protocol/src/session.rs, libsignal's
--   records and the sessions over them.
-- - Protocol.Identity, Protocol.SealedSender: protocol/src/identity.rs, protocol/src/sealed_sender.rs.
-- - Protocol.Error, Mesh.Error: protocol/src/error.rs, mesh/src/error.rs.
-- - Mesh.Bundle: mesh/src/bundle.rs, framing an envelope as a BPv7 bundle.
-- - Mesh.Relay: mesh/src/relay.rs, the store-and-forward agent; its child Sync is a session with a
--   peer that may send anything (its own children take the peer to be another relay: Exchange, Takes,
--   Hands, Spread), History any sequence of the agent's other calls.
-- - Mesh.Transport: mesh/src/transport.rs, sending and receiving over the mesh. Mesh.Delivery: one
--   envelope's way from a transport's `send` through a session of the relays to another's `receive`.
--   Mesh.Deadline: how long a relay keeps the bundle of a message with a deadline.
-- - Mesh.Node: mesh/src/transport.rs and mesh/src/radio/mod.rs, the node's loops over a radio.
-- - Mesh.Hybrid: mesh/src/hybrid.rs, the online transport with the mesh as its fallback.
-- - Mesh.Radio: mesh/src/radio/mod.rs and mesh/src/radio/simulated.rs, tokens and the simulated air.
-- - Mixnode: mixnode/src/mixing.rs, mixnode/src/routes.rs and mixnode/src/identity.rs, a mix node's
--   handler, a packet's way through several nodes (Walk) and the key file; Mixnode.Cover:
--   mixnode/src/cover_traffic.rs.
-- - Bridge: mobile-bridge/src/pending.rs, mobile-bridge/src/radio.rs, mobile-bridge/src/jni_exports.rs
--   and mobile-bridge/src/lifecycle.rs, requests to the platform and its callbacks.
-- - Gateway: gateway/src/auth.rs (Limiter, Auth), gateway/src/routes.rs and gateway/src/lib.rs.
-- - Plaintext: protocol/src/plaintext_ffi.rs, mobile-bridge/src/plaintext_exports.rs and the ids of
--   mobile-bridge/src/pending.rs. Tls: the settings of tls/src/lib.rs.
-- - Server.Store, Server.Routes: server/src/store.rs, server/src/routes.rs, server/src/models.rs.
-- - ClientStore: client-store/src/lib.rs and client-store/src/error.rs.
-- - Peer: cli/src/peer.rs, a conversation partner that polls and replies; its prekey bundle's JSON.
-- - StubRelay: cli/src/stub_relay.rs, the demonstration's relay, held against the real one.
-- - SecureMemory: protocol/src/secure_memory.rs, page locks and the count that Linux reports.
-- - Base, HashMap, Result, Exec, Sorting, Text: what the parts share. Tests: concrete data and examples.
--
-- The mesh transport frames an envelope with the bundle layer and hands it to the relay agent;
-- the agent reads bundles through the bundle layer only. The self-destruct module uses the clock
-- guard, the client store holds its exported states. The server and the client store keep
-- envelopes as they are. The record TransportLayer is the interface that the direct, the mix and
-- the mesh transport fill and that the hybrid transport uses; the record Http is what the two
-- online transports and the mix node use, filled by the relay's handlers, by a log of
-- what is contacted and by an outbox. The record MeshRadio is what a mesh node uses. A verified
-- session asks the trust policy. The gateway puts its key check and its limiter before its calls
-- of the relay. The relay's certificates are the certificate authority's, their lifetime capped.
--
-- How the model stands to the code: a number is a natural number, and where the code can pass a
-- machine word the wrapping or saturation of a release build is written out. A method behind a
-- lock is one step on the locked state. A table is a list of rows with the statement as a function,
-- an SQL error other than a violated primary key does not occur; `i64` columns are compared in the
-- order of the signed integers. A text in an error loses its interpolated values. Randomness, clock
-- readings and fresh ids are arguments. Loops are recursive on the list that they consume, that of
-- a session on the messages still to come in; `advance`, the loop of the watermark, runs on fuel,
-- the number of claims, of which each turn uses one up; `walk` runs on one unit of fuel for each
-- node visited; the loops of a node, its rotation and its cover traffic run for a number of rounds.
-- The gateway's floating-point tokens are exact: times are nanoseconds, a rate is a fraction of two
-- natural numbers, which every finite `f64` that is not negative is, and tokens are counted in a
-- unit that goes into both. A task that is spawned runs at once, its delay being time only; the posts
-- of the mix nodes that a pull sets off are on their way for a given time. The URL of a transport is
-- its path's segments, so that an id holds no reserved character, a URL of the peer is its text; texts
-- in headers, settings and key files are their bytes.
--
-- Parameters, since their code is not in the repository: HKDF, SHA-256 and the AEAD, the BPv7 and
-- JSON codecs, the Sphinx library, base64, the HTTP client, the constant-time comparison, and
-- libsignal with its keys, messages and certificates. The laws that a theorem uses of them are its
-- hypotheses.
--
-- Not modelled: the system calls of memory locking; Bluetooth (mesh/src/radio/bluez.rs) and the
-- scenarios of mesh/src/sim.rs; the certificates of tls; the rest of the command line
-- (cli/src/main.rs), the mobile applications and the JNI calls of mobile-bridge/src/ffi.rs, and
-- the entry points, which are I/O. A scan's time limit and the interleaving of two sessions of
-- one relay inside each other are not in the model of a node.
pub mod Base
pub mod HashMap
pub mod Result
pub mod Text
pub mod Plaintext
pub mod Bridge
pub mod Tls
pub mod Exec
pub mod Sorting
pub mod Protocol
pub mod Mesh
pub mod Server
pub mod ClientStore
pub mod Gateway
pub mod Mixnode
pub mod Peer
pub mod StubRelay
pub mod SecureMemory
pub mod Tests
