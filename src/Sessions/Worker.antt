-- ===== src/Sessions/Worker.antt =====
-- src/main.rs, `run_server_session`: one session of the server, which opens the client's frames
-- and sends the answers of the upstream back, to the address its last frame came from. Sending is
-- the list of what is handed to a socket; encrypting a frame, pacing and logging are left out, and
-- so is a receive of the upstream's socket that fails, which is logged only.
use smart_fec_tunnel.Base.{
  ℕ, Bool, false, not, ◌&&◌, ◌||◌, ◌==◌, if◌then◌else◌, Option, none, some, List, [], ◌∷◌, map,
  length, Result, ok, err, ◌≡◌, refl, Bool-cases, inl, inr,
}
use smart_fec_tunnel.Base.Bytes.{from_be}
use smart_fec_tunnel.Adaptive.{loss_sample_unavailable, report}
use smart_fec_tunnel.Sequence.{SequenceReport, observe_seq, sequence_report}
use smart_fec_tunnel.Wire.{Frame, kind_report}
use smart_fec_tunnel.Fec.{ReedSolomon}
use smart_fec_tunnel.Fec.Encoder.{Encoder, encode_datagram, flush, report_frame}
use smart_fec_tunnel.Fec.Decoder.{Decoder, frame}
use smart_fec_tunnel.Sessions.{SessionPacket, Sessions}
use smart_fec_tunnel.Base.Maps.{pair_key, get, insert}

pub record Worker : Type 0 where
  pub session : ℕ
  pub version : ℕ
  pub key_id : ℕ
  pub decoder : Decoder
  pub encoder : Encoder
  pub peer : Option ℕ

pub data WorkerEvent : Type 0 where
  packet : SessionPacket → WorkerEvent
  answer : List ℕ → WorkerEvent
  report_tick flush_tick : WorkerEvent

-- What a step does beside its own state: datagrams to the upstream, frames to an address, and the
-- time it writes to the cell `last_seen` of its session.
pub record Sent : Type 0 where
  pub datagrams : List (List ℕ)
  pub frames : List (ℕ × Frame)
  pub last_seen : Option ℕ

abbrev pub nothing : Sent
nothing = record { datagrams = []; frames = []; last_seen = none }

-- The frames for one address, all at one time.
abbrev pub send_session_frames : ℕ → List Frame → List (ℕ × Frame)
send_session_frames peer frames = map (λ f. (peer, f)) frames

abbrev pub is_foreign : Worker → Frame → Bool
is_foreign w f =
    not (f.session == w.session) || (not (f.version == w.version) || not (f.key_id == w.key_id))

-- A loss report of the client.
unfoldable pub take_report : Worker → Frame → Worker × Sent
take_report w f =
    let (window, fresh) = observe_seq w.decoder.window f.sequence in
    let e = w.encoder in
    (
      record w {
        decoder = record w.decoder { window = window };
        encoder =
            if fresh then record e { adaptive = report e.adaptive (from_be f.payload) } else e;
      },
      nothing,
    )

abbrev pub datagrams_of : {E : Type 0} → Result E (List (List ℕ)) → List (List ℕ)
datagrams_of (ok out) = out
datagrams_of (err e) = []

abbrev pub frames_of : {E : Type 0} → Result E (List Frame) → List Frame
frames_of (ok out) = out
frames_of (err e) = []

abbrev pub sample_ppm : Option SequenceReport → ℕ
sample_ppm none = loss_sample_unavailable
sample_ppm (some sample) = sample.sequence_gap_ppm

-- The table after a round of a session's task: the cell is the entry's.
unfoldable pub share_last_seen : Worker → Sent → Sessions → Sessions
share_last_seen w sent sessions = elim sent.last_seen [
  | none ↦ sessions
  | some now ↦ elim (get (w.key_id, w.session) sessions) [
    | none ↦ sessions
    | some entry ↦ insert (w.key_id, w.session) (record entry { last_seen = now }) sessions
  ]
]

module _ (code : ReedSolomon) where
  -- The arm of `input.recv()`.
  unfoldable pub take_packet : Worker → ℕ → Frame → Worker × Sent
  unfolding take_report
  take_packet w now f =
      if is_foreign w f
      then (w, nothing)
      else if f.kind == kind_report && length f.payload == 4
      then take_report w f
      else (let (decoder, out) = frame code w.decoder now f in
          (record w { decoder = decoder }, record nothing { datagrams = datagrams_of out }))

  -- One round of the loop.
  unfoldable pub step : Worker → ℕ → WorkerEvent → Worker × Sent
  unfolding take_packet
  step w now (packet p) = take_packet (record w { peer = some p.peer }) now p.frame
  step w now (answer payload) = elim w.peer [
    | none ↦ (w, nothing)
    | some peer ↦
        let r = encode_datagram code w.encoder payload in
        (
          record w { encoder = r.0 },
          record {
            datagrams = [];
            frames = send_session_frames peer (frames_of r.1);
            last_seen = some now;
          },
        )
  ]
  step w now report_tick = elim w.peer [
    | none ↦ (w, nothing)
    | some peer ↦
        let (window, sample) = sequence_report w.decoder.window in
        let (encoder, f) = report_frame w.encoder (sample_ppm sample) in
        (
          record w { decoder = record w.decoder { window = window }; encoder = encoder },
          record nothing { frames = send_session_frames peer (f ∷ []) },
        )
  ]
  step w now flush_tick = elim w.peer [
    | none ↦ (w, nothing)
    | some peer ↦
        let r = flush code w.encoder in
        (
          record w { encoder = r.0 },
          record nothing { frames = send_session_frames peer (frames_of r.1) },
        )
  ]

  -- A frame whose number is not new gives no datagram and leaves groups and packets alone.
  pub frame-refused :
      (d : Decoder) (now : ℕ) (f : Frame)
      → (observe_seq d.window f.sequence).1 ≡ false
      → (datagrams_of (frame code d now f).1 ≡ [])
        × ((frame code d now f).0.groups ≡ d.groups)
        × ((frame code d now f).0.packets ≡ d.packets)
  unfolding frame
  frame-refused d now f old = elim (Bool-cases (d.session == f.session)) [
    | inr foreign ↦ rw (frame, foreign) (refl, refl, refl)
    | inl own ↦ rw (frame, own, old) (refl, refl, refl)
  ]
