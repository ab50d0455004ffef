-- ===== src/Relay/Tests.antt =====
-- Tests and witnesses of the relay. The hash of the tests adds up what it is given.
use smart_fec_tunnel.Base.{
  ℕ, Option, ◌+◌, ◌-◌, ◌^◌, ◌≡◌, refl, min, true, false, none, some, List, [], ◌∷◌, replicate, ok,
  err, if◌then◌else◌, ltb, arith,
}
use smart_fec_tunnel.Base.Maps.{nat_key, get, contains_key, insert, remove, retain}
use smart_fec_tunnel.Base.Bytes.{be, from_be, bytes_eq, length-be, IsBytes}
use smart_fec_tunnel.Base.Chunks.{chunks}
use smart_fec_tunnel.Base.Crypto.{Blake3}
use smart_fec_tunnel.Base.Text.{Text, utf8, parse_u64}
use smart_fec_tunnel.Auth.Cache.{Nonce, ReplayCache, check_and_insert}
use smart_fec_tunnel.Auth.Envelope.{
  replayed_envelope, make_envelope, is_malformed, envelope_device_id, authenticate, verify_envelope,
}
use smart_fec_tunnel.Carrier.{prune, send_carrier}
use smart_fec_tunnel.Carrier.Delivery.{HasRoom}
use smart_fec_tunnel.Keyring.Relay.{Devices}
use smart_fec_tunnel.Relay.{wire_loss_ppm, parse_stream_lanes, retry, unsupported_lanes}
use smart_fec_tunnel.Relay.Authenticate.{Exporter, envelope, client_proof, authenticate_server}
use smart_fec_tunnel.Relay.Accepts.{
  IsProven, authenticate_server-client_proof, authenticate_server-IsProven,
}
use smart_fec_tunnel.Relay.Connection.{
  no_stats, new_connection, new_session, ClientEvent, ClientSession, carrier_ping, carrier_pong,
  incoming, heartbeat, client_step, heartbeat_timeout,
}
use smart_fec_tunnel.Relay.Heartbeat.{
  AllCarrier, relay_all, relay_all-send_carrier, client_run, last_heard, heartbeat-client_run,
}
use smart_fec_tunnel.Relay.Lanes.{one_lane, payloads_of, send_all, read_lane, read_lane-send_all}
use smart_fec_tunnel.Relay.Backoff.{backoff, streak, retry-backoff}

abbrev toy : Blake3
toy = record {
  hash = λ m. be 32 (from_be m);
  keyed = λ k m. be 32 (from_be k + from_be m);
  hash_length = λ m. length-be 32 (from_be m);
  keyed_length = λ k m. length-be 32 (from_be k + from_be m);
}

program : Unit {0}
unfolding verify_envelope authenticate make_envelope is_malformed envelope_device_id utf8
    check_and_insert get contains_key insert remove bytes_eq be from_be authenticate_server
    client_proof wire_loss_ppm parse_stream_lanes parse_u64 send_carrier chunks client_run
    client_step
program = tt

abbrev secret : Text
secret = b's' ∷ b'3' ∷ []

abbrev keys : Devices
keys = (7, secret) ∷ []

abbrev exporter : Exporter
exporter nonce = some (replicate 32 7)

abbrev nonce : Nonce
nonce = replicate 16 1

abbrev cache : ReplayCache
cache = record { capacity = 8; entries = []; order = [] }

abbrev stored : ReplayCache
stored = record cache { entries = (nonce, 1036) ∷ []; order = (nonce, 1036) ∷ [] }

abbrev proof : List ℕ
proof = make_envelope toy (utf8 secret) 7 1000 nonce (replicate 32 7)

accepted : authenticate_server toy keys cache exporter (some 1005) (some proof) ≡ (stored, ok 7)
unfolding program
accepted = refl

proof-IsBytes : IsBytes proof
unfolding program
proof-IsBytes = omega arith

runs :
    (wire_loss_ppm 200 3 ≡ some 15000)
    × (wire_loss_ppm 99 3 ≡ none)
    × (parse_stream_lanes (some (b'1' ∷ [])) ≡ ok 1)
    × (parse_stream_lanes (some (b'1' ∷ b'6' ∷ [])) ≡ err unsupported_lanes)
unfolding program
runs = (refl, refl, refl, refl)

key_found : get 7 keys ≡ some secret
unfolding program
key_found = refl

authenticate_server-client_proof_example :
    let (c, fresh) = check_and_insert cache nonce 1005 30 in
    (p : List ℕ) × (client_proof toy 7 secret (some 1000) nonce exporter ≡ ok p)
    × (authenticate_server toy keys cache exporter (some 1005) (some p)
        ≡ (c, if fresh then ok 7 else err (envelope replayed_envelope)))
authenticate_server-client_proof_example =
    authenticate_server-client_proof toy keys cache secret 7 1000 1005 nonce exporter
      (replicate 32 7) key_found (omega arith) (omega arith) (omega arith) refl refl (omega arith)

authenticate_server-IsProven_example : IsProven toy keys cache exporter (some 1005) proof stored 7
authenticate_server-IsProven_example =
    authenticate_server-IsProven toy keys cache stored exporter (some 1005) proof 7 proof-IsBytes
      accepted

abbrev payload : List ℕ
payload = 1 ∷ 2 ∷ 3 ∷ []

abbrev frames : List (List ℕ)
frames =
    (0 ∷ 0 ∷ 0 ∷ 0 ∷ 0 ∷ 0 ∷ 0 ∷ 8 ∷ 0 ∷ 0 ∷ 0 ∷ 2 ∷ 1 ∷ 2 ∷ [])
    ∷ (0 ∷ 0 ∷ 0 ∷ 0 ∷ 0 ∷ 0 ∷ 0 ∷ 8 ∷ 0 ∷ 1 ∷ 0 ∷ 2 ∷ 3 ∷ [])
    ∷ []

sent_frames : send_carrier (some 14) payload 7 ≡ ok (8, frames)
unfolding program
sent_frames = refl

empty-HasRoom : HasRoom new_connection.received 100 8
unfolding prune retain get
empty-HasRoom = record { distinct = tt; absent = refl; room = omega arith }

relay_all-send_carrier_example :
    AllCarrier frames × (relay_all new_connection 100 frames ≡ ok (payload ∷ []))
relay_all-send_carrier_example =
    relay_all-send_carrier new_connection 100 14 7 8 payload frames sent_frames (omega arith)
      empty-HasRoom

abbrev events : List (ℕ × ClientEvent)
events = (1000, incoming carrier_pong) ∷ (2000, heartbeat) ∷ []

abbrev after : ClientSession
after = record (new_session 0) { last_server_activity = 1000 }

ran : client_run (new_session 0) events ≡ ok after
unfolding program
ran = refl

heartbeat-client_run_example : client_step after 7001 heartbeat ≡ (
    if ltb 6000 (7001 - last_heard 0 events)
    then err heartbeat_timeout
    else ok (after, record { datagrams = carrier_ping ∷ []; packets = [] }))
heartbeat-client_run_example = heartbeat-client_run 0 7001 events after ran

retry-backoff_example :
    (retry (backoff 1 (true ∷ false ∷ [])) false).1 ≡ min (2 ^ streak 0 (true ∷ false ∷ [])) 30
retry-backoff_example = retry-backoff (true ∷ false ∷ []) false

abbrev two_datagrams : List (ℕ × List ℕ)
two_datagrams = (1, 1 ∷ 2 ∷ []) ∷ (4, []) ∷ []

read_lane-send_all_example :
    (bytes : List ℕ) × (last : Option ℕ) × (send_all (one_lane none no_stats []) two_datagrams
      ≡ ok (one_lane last no_stats bytes))
    × (read_lane 2 bytes ≡ ok (payloads_of two_datagrams, []))
read_lane-send_all_example =
    read_lane-send_all none no_stats two_datagrams (omega arith, (omega arith, tt))
