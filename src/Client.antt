-- ===== src/Client.antt =====
-- src/main.rs, `client`: the loop that carries the datagrams of local applications to the server
-- and back, with `send_frames`. Sending is the list of what is handed to a socket; a failed send is
-- logged only, and the pacer delays only. The random bytes for a frame are drawn by its place.
pub mod Authentic
mod Tests
use smart_fec_tunnel.Base.{
  ℕ, ◌+◌, Bool, true, false, not, ◌&&◌, ◌||◌, ◌==◌, if◌then◌else◌, Option, none, some, List, [],
  ◌∷◌, length, Result, ok, err,
}
use smart_fec_tunnel.Base.Bytes.{from_be}
use smart_fec_tunnel.Base.Crypto.{Blake3, Aead}
use smart_fec_tunnel.Base.Text.{Text}
use smart_fec_tunnel.Adaptive.{report}
use smart_fec_tunnel.Sequence.{new, observe_seq, sequence_report}
use smart_fec_tunnel.Wire.{Frame, kind_report, version_v3, encode_wire, decode_client_frame}
use smart_fec_tunnel.Fec.{ReedSolomon}
use smart_fec_tunnel.Fec.Encoder.{
  Encoder, EncodeError, with_identity, encode_datagram, flush, report_frame,
}
use smart_fec_tunnel.Fec.Decoder.{Decoder, frame}
use smart_fec_tunnel.Keyring.{key}
use smart_fec_tunnel.Sessions.Worker.{datagrams_of, sample_ppm}

pub record Client : Type 0 where
  pub version : ℕ
  pub key_id : ℕ
  pub key : List ℕ
  pub session : ℕ
  pub encoder : Encoder
  pub decoder : Decoder
  pub app_peer : Option ℕ

pub data ClientError : Type 0 where
  reserved_key_id key_id_required : ClientError
  encode_failed : EncodeError → ClientError

-- Frames for the server, and datagrams for an application's address.
pub record ClientSent : Type 0 where
  pub frames : List Frame
  pub datagrams : List (ℕ × List ℕ)

abbrev pub nothing : ClientSent
nothing = record { frames = []; datagrams = [] }

pub data ClientEvent : Type 0 where
  local : ℕ → List ℕ → ClientEvent
  tunnel : List ℕ → ClientEvent
  report_tick flush_tick : ClientEvent

abbrev pub is_foreign : Client → Frame → Bool
is_foreign c f =
    not (f.version == c.version) || (not (f.key_id == c.key_id) || not (f.session == c.session))

-- A loss report of the server.
unfoldable pub take_report : Client → Frame → Client
take_report c f =
    let (window, fresh) = observe_seq c.decoder.window f.sequence in
    let e = c.encoder in
    record c {
      decoder = record c.decoder { window = window };
      encoder = if fresh then record e { adaptive = report e.adaptive (from_be f.payload) } else e;
    }

-- Without a peer the datagrams are dropped.
abbrev pub to_app : Option ℕ → List (List ℕ) → List (ℕ × List ℕ)
to_app none ds = []
to_app (some peer) [] = []
to_app (some peer) (d ∷ ds) = (peer, d) ∷ to_app (some peer) ds

abbrev pub sent_frames :
    Client → Encoder × Result EncodeError (List Frame) → Result ClientError (Client × ClientSent)
sent_frames c (e, ok frames) =
    ok (record c { encoder = e }, record { frames = frames; datagrams = [] })
sent_frames c (e, err why) = err (encode_failed why)

module _ (code : ReedSolomon) where
  -- A frame that could be opened.
  unfoldable pub take_frame : Client → ℕ → Frame → Client × ClientSent
  unfolding take_report
  take_frame c now f =
      if is_foreign c f
      then (c, nothing)
      else if f.kind == kind_report && length f.payload == 4
      then (take_report c f, nothing)
      else (let (decoder, out) = frame code c.decoder now f in
          (
            record c { decoder = decoder },
            record { frames = []; datagrams = to_app c.app_peer (datagrams_of out) },
          ))

module _ (b : Blake3) (a : Aead) where
  -- `client` up to its loop, with the random session.
  unfoldable pub client : Option ℕ → Text → ℕ → Option ℕ → Result ClientError Client
  client none secret session force_parity = err key_id_required
  client (some key_id) secret session force_parity =
      if key_id == 0
      then err reserved_key_id
      else ok (record {
        version = version_v3;
        key_id = key_id;
        key = key b secret;
        session = session;
        encoder = with_identity session version_v3 key_id force_parity;
        decoder = record { session = session; window = new; groups = []; packets = [] };
        app_peer = none;
      })

  -- send_frames: the datagrams for the server, from the draw at an index on.
  unfoldable pub send_frames : List ℕ → (ℕ → List ℕ × List ℕ) → ℕ → List Frame → List (List ℕ)
  send_frames key draws index [] = []
  send_frames key draws index (f ∷ frames) =
      let rest = send_frames key draws (index + 1) frames in
      elim (encode_wire b a f key (draws index).0 (draws index).1) [
        | ok bytes ↦ bytes ∷ rest
        | err e ↦ rest
      ]

  module _ (code : ReedSolomon) where
    -- The arm of `tunnel.recv`.
    unfoldable pub take_datagram : Client → ℕ → List ℕ → Client × ClientSent
    unfolding take_frame
    take_datagram c now bytes = elim (decode_client_frame b a bytes c.key_id c.key) [
      | err e ↦ (c, nothing)
      | ok f ↦ take_frame code c now f
    ]

    -- One round of the loop.
    unfoldable pub step : Client → ℕ → ClientEvent → Result ClientError (Client × ClientSent)
    unfolding take_datagram
    step c now (local peer payload) =
        sent_frames (record c { app_peer = some peer }) (encode_datagram code c.encoder payload)
    step c now (tunnel bytes) = ok (take_datagram c now bytes)
    step c now report_tick =
        let (window, sample) = sequence_report c.decoder.window in
        let (encoder, f) = report_frame c.encoder (sample_ppm sample) in
        ok (
          record c { decoder = record c.decoder { window = window }; encoder = encoder },
          record { frames = f ∷ []; datagrams = [] },
        )
    step c now flush_tick = sent_frames c (flush code c.encoder)
