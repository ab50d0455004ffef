-- ===== src/Lib.antt =====
-- Smart FEC tunnel: a UDP tunnel that hides loss behind Reed-Solomon repair shards, encrypts and
-- authenticates its frames per device, and may run over QUIC datagrams.
--
-- The way of a datagram. The client's `Encoder` cuts it into fragments, gathers the fragments into
-- groups and adds the repair shards that `Adaptive` asks for (Fec/Encoder, Adaptive). Each shard
-- is a `Frame`, sealed by `encode_wire` (Wire). Over QUIC a frame is cut again by `send_carrier`
-- and put together by `CarrierReassembly` (Carrier), after the device has proved its key with an
-- envelope bound to the TLS session (Auth). The server picks the device's key by the frame's
-- selector and opens it (Wire); its `Decoder` drops repeated sequence numbers and measures loss
-- (Sequence), recovers lost shards and puts the datagrams together (Fec/Decoder, Fec/Fragment).
-- Loss reports go back to the sender's `Adaptive`.
--
-- Files and code:
--   Base       helpers: tests on numbers, lists, byte strings, texts, maps and sets, chunks, records
--              for the primitives that come from packages (BLAKE3, XChaCha20-Poly1305).
--   Adaptive   src/main.rs, `struct Adaptive`: `target` and `report`, cut at its early returns.
--   Sequence   src/main.rs, `Decoder::observe_seq` and `Decoder::sequence_report`.
--   Wire       src/main.rs, `Frame`, its `encode`, `decode`, `encode_wire` and `decode_v3`,
--              `v3_selector_prefix`, `decode_client_frame` and `decode_server_frame`.
--   Fec        src/main.rs, `Encoder` (Encoder), `Decoder::fragment` (Fragment), `Decoder::frame`
--              and `Decoder::prune` (Decoder).
--   Sessions   src/main.rs, how `server` admits a frame to a session, with `superseded_sessions`;
--              `run_server_session` (Worker).
--   Auth       src/quic_auth.rs: `ReplayCache` (Cache), and the envelope that `make_envelope`
--              writes and `verify_envelope` checks (Envelope).
--   Carrier    src/quic_relay.rs, `CarrierReassembly::push`, `send_carrier`, and the datagrams
--              on a stream (Stream).
--   Config     src/product_config.rs: profiles, overrides and `resolve_modules`.
--   Controller src/controller.rs: `Planner` with src/bin/smart-gateway-controller.rs (Plan), and
--              `RevisionTransaction` (Transaction).
--   Keyring    src/main.rs, `key`, `load_keyring` and `parse_keyring`; src/quic_relay.rs,
--              `parse_keyring` (Relay).
--   Client     src/main.rs, `client` and `send_frames`.
--   Server     src/main.rs, the start of `server` and its table of selectors.
--   Relay      src/quic_relay.rs: `log_carrier_stats`, `parse_stream_lanes` and the pauses of
--              `run_client` (here and Backoff), `authenticate_client` and `authenticate_server`
--              (Authenticate), `relay_connection` and `relay_client_session` (Connection),
--              and their variants with stream lanes (Lanes).
--   Balancer   src/main.rs, `read_socks_address` and `socks_connect` (Socks),
--              `handle_balanced_client` and `balance`.
--
-- How the model is made. A method returns the new state beside its result; `Result` is a value or
-- an error. Bytes and machine integers are natural numbers in the range of their type; `as` casts
-- and wrapping additions are written out as remainders, saturating ones as minima and cut
-- subtraction. A hash map is an association list, a set of numbers an ascending list, and a text the
-- list of its code points. The clock, random bytes, the TLS exporter and the negotiated datagram
-- size are arguments, one value of the clock for a call; what a peer sends on a stream is the list
-- of its bytes. Packages are parameters: `Blake3`, `Aead` and `ReedSolomon`, and so are a port
-- probe, what `bind` answers and a candidate's validator. The file system of a transaction is a
-- store, and a list says which of its calls fail. What the code relies on in a package is stated
-- as hypotheses of the theorems that need it.
--
-- Bounds and fuel. `chunks` runs on fuel, the length of the list, which is enough as every round
-- takes at least one element, and `decimal_from` on one round more than its number, which has
-- fewer digits. All other loops follow a list or a count.
--
-- Not modelled: sockets, tasks, timers and the pacer (floating point), TLS and the set-up of QUIC
-- connections, the command lines of the tunnel and the deployment scripts. What the programs print
-- is left out everywhere.
pub mod Base
pub mod Adaptive
pub mod Sequence
pub mod Auth
pub mod Wire
pub mod Carrier
pub mod Fec
pub mod Sessions
pub mod Config
pub mod Controller
pub mod Keyring
pub mod Relay
pub mod Client
pub mod Server
pub mod Balancer
