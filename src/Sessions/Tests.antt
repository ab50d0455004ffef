-- ===== src/Sessions/Tests.antt =====
-- The session test of src/main.rs, run, and the theorems at concrete inputs.
use smart_fec_tunnel.Base.{◌≡◌, refl, false, none, some, [], ◌∷◌, arith}
use smart_fec_tunnel.Base.Maps.{get, contains_key, insert, remove}
use smart_fec_tunnel.Wire.{Frame, kind_data, version_v3}
use smart_fec_tunnel.Sessions.{
  SessionPacket, SessionEntry, Sessions, others, superseded_sessions, remove_sessions, device_count,
  at_limit, start, open_session, try_send, hand_over, receive,
}
use smart_fec_tunnel.Fec.{ReedSolomon}
use smart_fec_tunnel.Fec.Encoder.{with_identity}
use smart_fec_tunnel.Sessions.Worker.{Worker, nothing, share_last_seen}
use smart_fec_tunnel.Sessions.Exclusive.{IsExclusive, receive-IsExclusive}

program : Unit {0}
unfolding others superseded_sessions remove_sessions device_count at_limit start open_session
    try_send hand_over receive get contains_key insert remove
program = tt

abbrev entry : SessionEntry
entry = record { last_seen = 0; queued = []; is_finished = false }

abbrev sessions : Sessions
sessions = ((7, 100), entry) ∷ []

taken_over : superseded_sessions sessions 7 200 1 ≡ some ((7, 100) ∷ [])
unfolding program
taken_over = refl

late_refused : superseded_sessions sessions 7 200 33 ≡ none
unfolding program
late_refused = refl

other_device : superseded_sessions sessions 8 300 500 ≡ some []
unfolding program
other_device = refl

abbrev first_frame : Frame
first_frame = record {
  version = version_v3;
  key_id = 7;
  kind = kind_data;
  session = 200;
  sequence = 1;
  group = 1;
  index = 0;
  data_count = 1;
  parity_count = 0;
  payload = [];
}

sessions-IsExclusive : IsExclusive sessions
unfolding device_count
sessions-IsExclusive k = ground arith

receive-IsExclusive_example : IsExclusive (receive 10 5 sessions first_frame 2)
receive-IsExclusive_example =
    receive-IsExclusive 10 5 sessions first_frame 2 sessions-IsExclusive refl

-- Number 5 has been seen.
abbrev worker : Worker
worker = record {
  session = 200;
  version = version_v3;
  key_id = 7;
  decoder = record {
    session = 200;
    window = record {
      highest_sequence = 5;
      finalized_sequence = 4;
      seen_sequences = 5 ∷ [];
      late_sequences = 0;
      duplicate_sequences = 0;
    };
    groups = [];
    packets = [];
  };
  encoder = with_identity 200 version_v3 7 none;
  peer = some 1;
}

abbrev repeated : Frame
repeated = record first_frame { sequence = 5 }

abbrev no_code : ReedSolomon
no_code = record { encode = λ n p ss. none; reconstruct = λ n p parts. none }

-- From another address.
abbrev replayed : SessionPacket
replayed = record { frame = repeated; peer = 2 }

-- An answer of the upstream prolongs the session in the table.
prolonged :
    let w : Worker = record worker { session = 100 } in
    share_last_seen w (record nothing { last_seen = some 9 }) sessions
    ≡ ((7, 100), record entry { last_seen = 9 }) ∷ []
unfolding share_last_seen program
prolonged = refl
