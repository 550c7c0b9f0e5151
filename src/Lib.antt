-- ===== src/Lib.antt =====
-- fluxpeer: the logic of an overlay network. A coordination server enrols devices and gives each a
-- stable address; two devices find the best path to each other, directly or over a relay; the
-- traffic is sealed in Noise sessions, over UDP or over a bundle of TCP connections. This library
-- models the parts that decide, as functions on explicit states, with the constructors and the
-- names of the source.
--
-- The parts:
--   Control/Ipam       control-server/src/ipam.rs: the allocator of overlay addresses. `Ipam` has the
--                      field `by_key` and the table `used`; `allocate`, `reserve` and `recycle` are
--                      functions of the same names, which return the new state beside the result.
--   Control/Store      control-server/src/state.rs: the in-memory store of the coordination server, over
--                      Domain (domain.rs), Key (sdk/rust/src/key.rs), Display (the texts of addresses)
--                      and Ipam: networks, invites, enrolment, revocation, endpoints and routes.
--   Control/Pop        control-server/src/pop.rs: the challenges by which a client proves that it has the
--                      private half of its key. A call is given the random bytes and the time.
--   Relay/Proto        relay-server/src/proto.rs: the frames between a client and the relay, with
--                      `encode` and `decode`, and every error of the latter.
--   Relay/Hub          relay-server/src/hub.rs: the registry of the connected clients, which routes
--                      the frames of Proto. A dropped connection invalidates its session, so that the
--                      state has the list of the invalidated ones.
--   Noise              engine/crypto/fp-crypto/src/error.rs: the errors of the modules below it.
--   Noise/Replay       engine/crypto/fp-crypto-noise/src/session.rs: the replay window, a bitmap of 16
--                      words over the counters last received.
--   Noise/Session      the same file: a session, which seals and opens data packets.
--   Noise/Packet       engine/crypto/fp-crypto-noise/src/noise.rs and lib.rs: the packets on the wire,
--                      parsed, and the check of the IP packet inside a data packet.
--   Noise/Tunnel       noise.rs: the ring of the sessions of a tunnel, the queue of the packets that
--                      wait for one, and the handlers that choose the session which sends. It is
--                      built of Session and Packet, over a handshake that is an interface.
--   Noise/Crypto       engine/crypto/fp-crypto-noise/src/handshake.rs: the calls of the cryptographic
--                      functions, which are a `Suite`.
--   Noise/Schedule     the same file: the keys that both sides of a handshake derive.
--   Noise/Tai64        the same file: the timestamps that order the initiations of a peer.
--   Noise/Handshake    the same file: the state of a handshake, with `format_handshake_initiation`,
--                      `receive_handshake_initialization` and `receive_handshake_response`. A long
--                      function of the source is one for its checks or its message and one for its
--                      state.
--   Noise/Verifier     engine/crypto/fp-crypto-noise/src/verifier.rs: the check of the first MAC.
--   Noise/Cryptor      engine/crypto/fp-crypto-noise/src/crypto.rs: what a node calls. A `Cryptor` is a
--                      Tunnel over Handshake, with a Verifier; each call is given, as an `Env`, the
--                      random bytes, the time and the bytes of the buffer that it finds.
--   Noise/Plain        functions for the parameters, on which the theorems are tried.
--   Net/Path           engine/net/fp-path/src/lib.rs: which kind of path to a peer is in use.
--   Net/Netcheck       engine/net/fp-netcheck/src/lib.rs: the class of a NAT, and the diagnosis.
--   Net/Disco          engine/net/fp-disco/src/lib.rs: the codec of the discovery messages.
--   Net/Conhash        engine/net/fp-conhash/src/lib.rs: consistent hashing. `remove` is `remove_node`.
--   Transport/Codec    engine/transport/fp-transport-tcp/src/codec.rs: frames on a TCP stream.
--   Transport/Health   engine/transport/fp-transport-tcp-bond/src/health.rs: the metrics of a bonded
--                      connection, its weight and its score.
--   Node/Gso           node/src/gso.rs: the batch of datagrams that are sent by one call.
--   Node/Routes        node/src/worker.rs: the table of the routes, with the addresses of a packet
--                      (engine/crypto/fp-crypto/src/lib.rs).
--   Node/Indices       worker.rs: which peer a session index finds, and which worker owns it.
--   Node/Apply         node/src/apply.rs: the errors of effects on the host, their status and retries.
--   Node/Exit          node/src/route.rs: how the routes of a full tunnel come up and go down,
--                      over Apply.
--   Node/Nat           node/src/lib.rs: the address translation of an exit, over Apply.
--   Sdk/Prefix         sdk/rust/src/prefix.rs: IP prefixes, which Routes looks up.
--   Sdk/Enroll         sdk/rust/src/lib.rs: what `enroll` sends of a key, which Pop checks.
--   Prelude            shared names, tests, lists, results, maps, bytes, bits and texts.
-- The children of a module hold its proofs, and a child Tests the concrete runs.
--
-- Numbers are native naturals. A `u64`, `u32` or `u8` keeps its wrap-around, written out as a
-- remainder, or its saturation; where the source bounds an argument by its type, a hypothesis does.
-- A `HashMap` is an association list; a slice or a buffer is the list of its bytes, and a
-- destination buffer its length. A method on `&mut self` returns the new state.
--
-- Loops run by structural recursion: over a list, over the number of the rounds of a `for`, or, for
-- the loops that clear the replay window, over the number of counters that are left. Two loops run
-- on fuel: one writes a number in decimal, where each round divides by ten, so that the number
-- itself is enough rounds; one cuts a batch into datagrams (Node/Gso), and each round takes a byte
-- at least, so that the number of bytes is.
--
-- Parameters stand for code outside the repository: the AEAD of ring and the random numbers of the
-- system (Noise/Session), BLAKE2s, HMAC, X25519 and the AEAD with associated data (`Suite`, in
-- Noise/Crypto), the channels of tokio (Relay/Hub, Control/Store), the codecs of keys
-- (Control/Key), X25519 (`Curve`, in Control/Pop), the hash function (Net/Conhash), the type of
-- socket addresses (Net/Netcheck, Node/Gso), what the system answers to a batch (Node/Gso), the
-- effects on the host (`Host`, in Node/Exit, and `NatHost`) and what the standard library reads of
-- the text of a prefix (Sdk/Prefix). `Handshaker` (Noise/Tunnel) is the interface of the handshake,
-- which Noise/Cryptor fills with Noise/Handshake. What a proof asks of them is a hypothesis of the
-- theorem.
--
-- Not modelled: `decapsulate` of noise.rs, which the node does not call; the relays, the batch
-- import and the device configuration of the store of the control server, its SQL, its HTTP and the
-- sessions of its administrators; the loops of the relay server, its authentication and its rate
-- limit, which computes in floating point; of the node, the loops of its workers, its daemon, its
-- firewall and its name service, and the commands by which it drives the operating system; sockets
-- and TLS of the transports; the MD5 hash and the mutable access of Net/Conhash; of Node/Gso, the
-- batch that receives. In Transport/Health each operation is one step: the interleavings of the
-- atomic loads and stores of two threads inside one call are not.
pub mod Control
pub mod Net
pub mod Node
pub mod Noise
pub mod Prelude
pub mod Relay
pub mod Sdk
pub mod Transport
