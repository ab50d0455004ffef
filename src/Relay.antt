-- ===== src/Relay.antt =====
-- src/quic_relay.rs, the connections around the carrier: the statistics and the number of lanes
-- (here), the authentication of a device (Authenticate), the two ends of a connection (Connection),
-- also with stream lanes (Lanes), and the pause before a client connects again (here).
pub mod Authenticate
pub mod Accepts
pub mod Connection
pub mod Heartbeat
pub mod Backoff
pub mod Lanes
mod Tests
use smart_fec_tunnel.Base.{
  ℕ, ◌-◌, ◌*◌, ◌/◌, ◌^◌, min, Bool, true, false, not, ltb, leb, ◌==◌, if◌then◌else◌, Option, none,
  some, Result, ok, err, ◌>>=◌, ◌>>◌, bail_if,
}
use smart_fec_tunnel.Base.Text.{Text, parse_u64}

abbrev pub min_wire_loss_sample_packets : ℕ
min_wire_loss_sample_packets = 100

abbrev pub max_stream_lanes : ℕ
max_stream_lanes = 1

pub record CarrierStatsSnapshot : Type 0 where
  pub sent_packets : ℕ
  pub lost_packets : ℕ
  pub lost_bytes : ℕ
  pub congestion_events : ℕ
  pub udp_tx_bytes : ℕ
  pub udp_rx_bytes : ℕ

-- What `log_carrier_stats` writes, as far as it depends on the counters.
pub record StatsReport : Type 0 where
  pub wire_loss_ppm : Option ℕ
  pub sent_packets : ℕ
  pub lost_packets : ℕ
  pub lost_bytes : ℕ
  pub congestion_events : ℕ
  pub tx_bytes : ℕ
  pub rx_bytes : ℕ

-- The product is a `u128`, and the result at most 1000000, so that no cast changes it.
unfoldable pub wire_loss_ppm : ℕ → ℕ → Option ℕ
wire_loss_ppm sent_packets lost_packets =
    if leb min_wire_loss_sample_packets sent_packets
    then some (min (lost_packets * 1000000 / sent_packets) 1000000)
    else none

-- log_carrier_stats: the new snapshot and the report.
unfoldable pub log_carrier_stats :
    CarrierStatsSnapshot → CarrierStatsSnapshot → CarrierStatsSnapshot × StatsReport
unfolding wire_loss_ppm
log_carrier_stats current previous =
    let sent = current.sent_packets - previous.sent_packets in
    let lost = current.lost_packets - previous.lost_packets in
    (
      current,
      record {
        wire_loss_ppm = wire_loss_ppm sent lost;
        sent_packets = sent;
        lost_packets = lost;
        lost_bytes = current.lost_bytes - previous.lost_bytes;
        congestion_events = current.congestion_events - previous.congestion_events;
        tx_bytes = current.udp_tx_bytes - previous.udp_tx_bytes;
        rx_bytes = current.udp_rx_bytes - previous.udp_rx_bytes;
      },
    )

pub data LanesError : Type 0 where
  not_an_integer unsupported_lanes : LanesError

-- parse_stream_lanes, for a `usize` of 64 bits.
unfoldable pub parse_stream_lanes : Option Text → Result LanesError ℕ
parse_stream_lanes none = ok 0
parse_stream_lanes (some value) = elim (parse_u64 value) [
  | none ↦ err not_an_integer
  | some lanes ↦ if lanes == max_stream_lanes then ok lanes else err unsupported_lanes
]

-- One round of the loop of `run_client`: whether the device connected and was authenticated, before
-- the session or the attempt ended. The result is the new delay and the time that it sleeps, in
-- seconds.
unfoldable pub retry : ℕ → Bool → ℕ × ℕ
retry delay connected = let d = if connected then 1 else delay in (min (d * 2) 30, d)
