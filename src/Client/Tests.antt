-- ===== src/Client/Tests.antt =====
-- Tests and witnesses of the client.
use smart_fec_tunnel.Base.{
  ℕ, ◌≡◌, ◌⊎◌, refl, true, false, none, some, List, [], ◌∷◌, ◌++◌, replicate, ok, err,
}
use smart_fec_tunnel.Base.Bytes.{be, from_be, bytes_eq}
use smart_fec_tunnel.Base.Toys.{zeros, toy_hash, toy_cipher}
use smart_fec_tunnel.Sequence.{observe_seq}
use smart_fec_tunnel.Wire.{
  Frame, decode_v3, decode_inner, v3_selector_prefix, frame_at, fields, encode_wire,
  starts_with_magic, decode_client_frame,
}
use smart_fec_tunnel.Fec.{ReedSolomon}
use smart_fec_tunnel.Fec.Encoder.{with_identity}
use smart_fec_tunnel.Sequence.{new}
use smart_fec_tunnel.Client.{
  Client, client, reserved_key_id, key_id_required, send_frames, take_datagram,
}
use smart_fec_tunnel.Client.Authentic.{IsIgnored, take_datagram-authentic}

abbrev no_code : ReedSolomon
no_code = record { encode = λ n p ss. none; reconstruct = λ n p parts. none }

abbrev started : Client
started = record {
  version = 3;
  key_id = 7;
  key = replicate 32 5;
  session = 9;
  encoder = with_identity 9 3 7 none;
  decoder = record { session = 9; window = new; groups = []; packets = [] };
  app_peer = some 1;
}

abbrev sent : Frame
sent = record {
  version = 3;
  key_id = 7;
  kind = 1;
  session = 9;
  sequence = 1;
  group = 1;
  index = 0;
  data_count = 1;
  parity_count = 0;
  payload = 10 ∷ 20 ∷ [];
}

abbrev plaintext : List ℕ
plaintext =
    1
    ∷ (replicate 7 0
        ++ 9 ∷ (replicate 7 0 ++ 1 ∷ (replicate 7 0 ++ 1 ∷ 0 ∷ 0 ∷ 1 ∷ 0 ∷ 0 ∷ 2 ∷ 10 ∷ 20 ∷ [])))

abbrev datagram : List ℕ
datagram = 0 ∷ 0 ∷ 0 ∷ 7 ∷ (replicate 4 2 ++ (replicate 24 1 ++ (plaintext ++ zeros)))

runs :
    (client toy_hash toy_cipher none [] 9 none ≡ err key_id_required)
    × (client toy_hash toy_cipher (some 0) [] 9 none ≡ err reserved_key_id)
    × (send_frames toy_hash toy_cipher
          (replicate 32 5)
          (λ i. (replicate 24 1, replicate 4 2))
          0
          (sent ∷ [])
        ≡ datagram ∷ [])
    × (decode_client_frame toy_hash toy_cipher datagram 7 (replicate 32 5) ≡ ok sent)
unfolding client send_frames encode_wire v3_selector_prefix fields be from_be decode_client_frame
    decode_v3 decode_inner frame_at bytes_eq
runs = (refl, refl, refl, refl)

take_datagram-authentic_example :
    IsIgnored no_code started (take_datagram toy_hash toy_cipher no_code started 100 datagram)
    ⊎ ((f : Frame) × (starts_with_magic toy_hash toy_cipher datagram ≡ false)
        × (decode_v3 toy_hash toy_cipher datagram 7 (replicate 32 5) ≡ ok f)
        × (f.session ≡ 9)
        × ((observe_seq new f.sequence).1 ≡ true))
take_datagram-authentic_example =
    take_datagram-authentic toy_hash toy_cipher no_code started 100 datagram refl
