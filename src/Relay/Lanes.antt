-- ===== src/Relay/Lanes.antt =====
-- src/quic_relay.rs, connections that carry datagrams on reliable streams: the rounds of
-- `relay_laned_client_session` and `relay_laned_connection`, with the preface of a lane. A stream
-- is the bytes written to it after the preface; the readers of `spawn_lane_readers` read datagrams
-- until one fails.
use smart_fec_tunnel.Base.{
  ℕ, zero, suc, ◌+◌, ◌%◌, ◌≤◌, ◌≡◌, refl, ap, subst, ◌∙◌, not, ◌==◌, Option, none, some, List, [],
  ◌∷◌, ◌++◌, append_assoc, append-nil, length, get_elem?, set, Result, ok, err, ◌>>=◌, ◌>>◌,
  bail_if,
}
use smart_fec_tunnel.Base.Bytes.{byte_at}
use smart_fec_tunnel.Carrier.Stream.{
  StreamError, stream_frame, write_stream_datagram, read_stream_datagram,
  read-write_stream_datagram,
}
use smart_fec_tunnel.Relay.{CarrierStatsSnapshot, log_carrier_stats}

abbrev pub stream_lane_preface : ℕ
stream_lane_preface = 0x53

pub data LaneError : Type 0 where
  invalid_preface no_lane reader_ended lane_timeout : LaneError
  stream : StreamError → LaneError

abbrev pub lift_stream : {A : Type 0} → Result StreamError A → Result LaneError A
lift_stream (ok a) = ok a
lift_stream (err e) = err (stream e)

-- How the server opens a lane: the preface that it reads, one byte, and what it writes.
unfoldable pub open_lane : Option (List ℕ) → Result LaneError (List ℕ)
open_lane none = err lane_timeout
open_lane (some preface) = do
  bail_if (not (byte_at 0 preface == stream_lane_preface)) invalid_preface
  ok (stream_lane_preface ∷ [])

-- The server's end has no peer, and sends to its upstream.
pub record LanedSession : Type 0 where
  pub lanes : ℕ
  pub sends : List (List ℕ)
  pub next_lane : ℕ
  pub peer : Option ℕ
  pub previous_stats : CarrierStatsSnapshot

pub data LanedEvent : Type 0 where
  from_socket : ℕ → List ℕ → LanedEvent
  from_lane : List ℕ → LanedEvent
  reader_exit : LanedEvent
  lane_stats_tick : CarrierStatsSnapshot → LanedEvent

-- The arm of the socket: a datagram goes to the next lane.
unfoldable pub send_on_lane : LanedSession → List ℕ → Result LaneError LanedSession
send_on_lane s payload = elim (get_elem? s.sends s.next_lane) [
  | none ↦ err no_lane
  | some lane ↦ do
    written ← lift_stream (write_stream_datagram lane payload)
    ok (record s {
      sends = set s.sends s.next_lane written;
      next_lane = (s.next_lane + 1) % s.lanes;
    })
]

abbrev pub deliver_to : Option ℕ → List ℕ → List (ℕ × List ℕ)
deliver_to none payload = []
deliver_to (some destination) payload = (destination, payload) ∷ []

-- One round of `relay_laned_client_session`: the session and what goes to the local socket.
unfoldable pub laned_client_step :
    LanedSession → LanedEvent → Result LaneError (LanedSession × List (ℕ × List ℕ))
unfolding send_on_lane
laned_client_step s (from_socket source payload) = do
  next ← send_on_lane (record s { peer = some source }) payload
  ok (next, [])
laned_client_step s (from_lane payload) = ok (s, deliver_to s.peer payload)
laned_client_step s reader_exit = err reader_ended
laned_client_step s (lane_stats_tick current) =
    ok (record s { previous_stats = (log_carrier_stats current s.previous_stats).0 }, [])

-- One round of `relay_laned_connection`: the state and what goes to the upstream.
unfoldable pub laned_server_step :
    LanedSession → LanedEvent → Result LaneError (LanedSession × List (List ℕ))
unfolding send_on_lane
laned_server_step s (from_socket source payload) = do next ← send_on_lane s payload; ok (next, [])
laned_server_step s (from_lane payload) = ok (s, payload ∷ [])
laned_server_step s reader_exit = err reader_ended
laned_server_step s (lane_stats_tick current) =
    ok (record s { previous_stats = (log_carrier_stats current s.previous_stats).0 }, [])

-- The client's session after datagrams of applications.
unfoldable pub send_all : LanedSession → List (ℕ × List ℕ) → Result LaneError LanedSession
send_all s [] = ok s
send_all s ((source, payload) ∷ rest) = do
  (next, out) ← laned_client_step s (from_socket source payload)
  send_all next rest

-- Some rounds of a lane's reader, and what is left of the stream.
unfoldable pub read_lane : ℕ → List ℕ → Result StreamError (List (List ℕ) × List ℕ)
read_lane zero bytes = ok ([], bytes)
read_lane (suc n) bytes = do
  (payload, rest) ← read_stream_datagram bytes
  (more, left) ← read_lane n rest
  ok (payload ∷ more, left)

abbrev pub AllDatagrams : List (ℕ × List ℕ) → Type 0
AllDatagrams [] = Unit {0}
AllDatagrams ((source, payload) ∷ rest) = (length payload ≤ 65535) × AllDatagrams rest

abbrev pub payloads_of : List (ℕ × List ℕ) → List (List ℕ)
payloads_of [] = []
payloads_of ((source, payload) ∷ rest) = payload ∷ payloads_of rest

abbrev frames_of : List (ℕ × List ℕ) → List ℕ
frames_of [] = []
frames_of ((source, payload) ∷ rest) = stream_frame payload ++ frames_of rest

abbrev pub one_lane : Option ℕ → CarrierStatsSnapshot → List ℕ → LanedSession
one_lane peer stats bytes = record {
  lanes = 1;
  sends = bytes ∷ [];
  next_lane = 0;
  peer = peer;
  previous_stats = stats;
}

abbrev last_peer : Option ℕ → List (ℕ × List ℕ) → Option ℕ
last_peer peer [] = peer
last_peer peer ((source, payload) ∷ rest) = last_peer (some source) rest

send_all-one_lane :
    (peer : Option ℕ) (stats : CarrierStatsSnapshot) (bytes : List ℕ) (ds : List (ℕ × List ℕ))
    → AllDatagrams ds
    → send_all (one_lane peer stats bytes) ds
      ≡ ok (one_lane (last_peer peer ds) stats (bytes ++ frames_of ds))
unfolding send_all laned_client_step send_on_lane
send_all-one_lane peer stats bytes [] a = rw (append-nil bytes) refl
send_all-one_lane peer stats bytes ((source, payload) ∷ rest) a =
    let written = (read-write_stream_datagram bytes payload [] (a.0)).0 in
    let assoc = append_assoc bytes (stream_frame payload) (frames_of rest) in
    rw written (
      send_all-one_lane (some source) stats (bytes ++ stream_frame payload) rest (a.1)
      ∙ ap (λ x. ok (one_lane (last_peer (some source) rest) stats x)) assoc)

read_lane-frames_of :
    (ds : List (ℕ × List ℕ)) (later : List ℕ)
    → AllDatagrams ds
    → read_lane (length ds) (frames_of ds ++ later) ≡ ok (payloads_of ds, later)
unfolding read_lane
read_lane-frames_of [] later a = refl
read_lane-frames_of ((source, payload) ∷ rest) later a =
    let next = (read-write_stream_datagram [] payload (frames_of rest ++ later) (a.0)).1 in
    rw
      (
        append_assoc (stream_frame payload) (frames_of rest) later,
        next,
        read_lane-frames_of rest later (a.1),
      )
      refl

-- On the one lane that is supported, datagrams of at most 65535 bytes that applications send one
-- after the other are all written without an error, and the reader at the other end of the stream
-- reads them back, whole and in order, with nothing left.
pub read_lane-send_all :
    (peer : Option ℕ) (stats : CarrierStatsSnapshot) (ds : List (ℕ × List ℕ))
    → AllDatagrams ds
    → (bytes : List ℕ) × (last : Option ℕ) × (send_all (one_lane peer stats []) ds
        ≡ ok (one_lane last stats bytes))
      × (read_lane (length ds) bytes ≡ ok (payloads_of ds, []))
read_lane-send_all peer stats ds a = (
  frames_of ds,
  last_peer peer ds,
  send_all-one_lane peer stats [] ds a,
  subst (λ x. read_lane (length ds) x ≡ ok (payloads_of ds, [])) (append-nil (frames_of ds))
      (read_lane-frames_of ds [] a),
)
