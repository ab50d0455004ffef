-- ===== src/Relay/Connection.antt =====
-- src/quic_relay.rs, the two ends of a connection without lanes: `relay_connection` and
-- `relay_client_session`. Sending is the list of what is handed to a socket or the connection; an
-- error ends the connection, and the state with it. Time is in milliseconds. The two futures of
-- the client take turns at their `await`s, so that an event is one round of either.
use smart_fec_tunnel.Base.{
  ℕ, ◌-◌, ltb, if◌then◌else◌, Option, none, some, List, [], ◌∷◌, Result, ok, err, ◌>>=◌, ◌>>◌,
  bail_if,
}
use smart_fec_tunnel.Base.Bytes.{bytes_eq}
use smart_fec_tunnel.Carrier.{Groups, CarrierError, push, send_carrier}
use smart_fec_tunnel.Relay.{CarrierStatsSnapshot, log_carrier_stats}

-- b"SFT-Q-PING-1" and b"SFT-Q-PONG-1"
abbrev pub carrier_ping : List ℕ
carrier_ping =
    b'S' ∷ b'F' ∷ b'T' ∷ b'-' ∷ b'Q' ∷ b'-' ∷ b'P' ∷ b'I' ∷ b'N' ∷ b'G' ∷ b'-' ∷ b'1' ∷ []

abbrev pub carrier_pong : List ℕ
carrier_pong =
    b'S' ∷ b'F' ∷ b'T' ∷ b'-' ∷ b'Q' ∷ b'-' ∷ b'P' ∷ b'O' ∷ b'N' ∷ b'G' ∷ b'-' ∷ b'1' ∷ []

abbrev pub carrier_dead_timeout : ℕ
carrier_dead_timeout = 6000

abbrev pub no_stats : CarrierStatsSnapshot
no_stats = record {
  sent_packets = 0;
  lost_packets = 0;
  lost_bytes = 0;
  congestion_events = 0;
  udp_tx_bytes = 0;
  udp_rx_bytes = 0;
}

pub data RelayError : Type 0 where
  carrier : CarrierError → RelayError
  heartbeat_timeout : RelayError

abbrev pub lift_carrier : {A : Type 0} → Result CarrierError A → Result RelayError A
lift_carrier (ok a) = ok a
lift_carrier (err e) = err (carrier e)

-- What a round hands to the connection, and to the socket on the other side.
pub record RelayOutput : Type 0 where
  pub datagrams : List (List ℕ)
  pub packets : List (List ℕ)

abbrev pub silent : RelayOutput
silent = record { datagrams = []; packets = [] }

abbrev pub deliver_packet : Option (List ℕ) → RelayOutput
deliver_packet none = silent
deliver_packet (some payload) = record { datagrams = []; packets = payload ∷ [] }

-- The server's end.
pub record RelayConnection : Type 0 where
  pub received : Groups
  pub message : ℕ
  pub previous_stats : CarrierStatsSnapshot

abbrev pub new_connection : RelayConnection
new_connection = record { received = []; message = 0; previous_stats = no_stats }

pub data RelayEvent : Type 0 where
  datagram : List ℕ → RelayEvent
  answer : Option ℕ → List ℕ → RelayEvent
  stats_tick : CarrierStatsSnapshot → RelayEvent

abbrev pub after_datagram :
    RelayConnection
    → Groups × Result CarrierError (Option (List ℕ))
    → Result RelayError (RelayConnection × RelayOutput)
after_datagram r (received, ok payload) =
    ok (record r { received = received }, deliver_packet payload)
after_datagram r (received, err e) = err (carrier e)

-- One round of `relay_connection`. An answer of the upstream comes with the datagram size that the
-- connection has at that time.
unfoldable pub relay_step :
    RelayConnection → ℕ → RelayEvent → Result RelayError (RelayConnection × RelayOutput)
relay_step r now (datagram incoming) =
    if bytes_eq incoming carrier_ping
    then ok (r, record { datagrams = carrier_pong ∷ []; packets = [] })
    else after_datagram r (push r.received now incoming)
relay_step r now (answer maximum payload) = do
  (message, frames) ← lift_carrier (send_carrier maximum payload r.message)
  ok (record r { message = message }, record { datagrams = frames; packets = [] })
relay_step r now (stats_tick current) =
    ok (record r { previous_stats = (log_carrier_stats current r.previous_stats).0 }, silent)

-- The client's end; the peer is the local application's address.
pub record ClientSession : Type 0 where
  pub peer : Option ℕ
  pub received : Groups
  pub message : ℕ
  pub last_server_activity : ℕ
  pub previous_stats : CarrierStatsSnapshot

abbrev pub new_session : ℕ → ClientSession
new_session now = record {
  peer = none;
  received = [];
  message = 0;
  last_server_activity = now;
  previous_stats = no_stats;
}

pub data ClientEvent : Type 0 where
  local : ℕ → Option ℕ → List ℕ → ClientEvent
  heartbeat : ClientEvent
  incoming : List ℕ → ClientEvent
  client_stats_tick : CarrierStatsSnapshot → ClientEvent

-- Without a peer the payload is dropped.
abbrev pub to_peer : Option ℕ → Option (List ℕ) → RelayOutput
to_peer none payload = silent
to_peer (some address) payload = deliver_packet payload

abbrev pub after_incoming :
    ClientSession
    → Groups × Result CarrierError (Option (List ℕ))
    → Result RelayError (ClientSession × RelayOutput)
after_incoming s (received, ok payload) =
    ok (record s { received = received }, to_peer s.peer payload)
after_incoming s (received, err e) = err (carrier e)

-- One round of one of the two loops of `relay_client_session`.
unfoldable pub client_step :
    ClientSession → ℕ → ClientEvent → Result RelayError (ClientSession × RelayOutput)
client_step s now (local address maximum payload) = do
  (message, frames) ← lift_carrier (send_carrier maximum payload s.message)
  ok (
    record s { peer = some address; message = message },
    record { datagrams = frames; packets = [] },
  )
client_step s now heartbeat = do
  bail_if (ltb carrier_dead_timeout (now - s.last_server_activity)) heartbeat_timeout
  ok (s, record { datagrams = carrier_ping ∷ []; packets = [] })
client_step s now (incoming bytes) =
    if bytes_eq bytes carrier_pong
    then ok (record s { last_server_activity = now }, silent)
    else after_incoming (record s { last_server_activity = now }) (push s.received now bytes)
client_step s now (client_stats_tick current) =
    ok (record s { previous_stats = (log_carrier_stats current s.previous_stats).0 }, silent)
