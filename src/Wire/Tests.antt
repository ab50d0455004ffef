-- ===== src/Wire/Tests.antt =====
-- The frame tests of src/main.rs on V3, run, and the theorems at concrete inputs. The hash of the
-- tests writes out a number, and the cipher appends sixteen zeros.
use smart_fec_tunnel.Base.{
  ℕ, ◌≡◌, refl, some, false, List, [], ◌∷◌, ◌++◌, take, replicate, ok, arith,
}
use smart_fec_tunnel.Base.Bytes.{be, from_be, bytes_eq, IsBytes}
use smart_fec_tunnel.Base.Maps.{byte_string_key, get}
use smart_fec_tunnel.Base.Toys.{zeros, toy_hash, toy_cipher}
use smart_fec_tunnel.Wire.{
  Frame, version_v3, fields, frame_at, encode_wire, decode_inner, decode_v3, v3_selector_prefix,
  encode, decode, body, layout, decode_server_frame, starts_with_magic,
}
use smart_fec_tunnel.Wire.Fields.{IsFrame}
use smart_fec_tunnel.Wire.V3.{decode_server_frame-encode_wire, server_accepts_v3_only}
use smart_fec_tunnel.Wire.Sound.{decode_inner_exact}

abbrev frame : Frame
frame = record {
  version = 3;
  key_id = 7;
  kind = 1;
  session = 9;
  sequence = 1;
  group = 1;
  index = 0;
  data_count = 1;
  parity_count = 0;
  payload = 10 ∷ 20 ∷ [];
}

abbrev key : List ℕ
key = replicate 32 5

abbrev nonce : List ℕ
nonce = replicate 24 1

abbrev suffix : List ℕ
suffix = replicate 4 2

abbrev plaintext : List ℕ
plaintext = 1 ∷ (be 8 9 ++ (be 8 1 ++ (be 8 1 ++ (0 ∷ 0 ∷ 1 ∷ 0 ∷ 0 ∷ 2 ∷ 10 ∷ 20 ∷ []))))

abbrev datagram : List ℕ
datagram = 0 ∷ 0 ∷ 0 ∷ 7 ∷ (suffix ++ (nonce ++ (plaintext ++ zeros)))

abbrev selectors : List (List ℕ × (ℕ × List ℕ))
selectors = (0 ∷ 0 ∷ 0 ∷ 7 ∷ [], (7, key)) ∷ []

program : Unit {0}
unfolding encode_wire decode_v3 decode_inner decode_server_frame v3_selector_prefix fields frame_at
    be from_be bytes_eq get encode decode body layout
program = tt

frame-IsFrame : IsFrame frame
frame-IsFrame = omega arith

sent : encode_wire toy_hash toy_cipher frame key nonce suffix ≡ ok datagram
unfolding program
sent = refl

received : decode_server_frame toy_hash toy_cipher datagram selectors ≡ ok (frame, key)
unfolding program
received = refl

plaintext-IsBytes : IsBytes plaintext
unfolding program
plaintext-IsBytes = omega arith

read : decode_inner toy_hash toy_cipher 7 plaintext ≡ ok frame
unfolding program
read = refl

-- The plain format V1, written and read.
abbrev plain_frame : Frame
plain_frame = record frame { version = 1; key_id = 0 }

plain_roundtrip : decode toy_hash (encode toy_hash plain_frame key) key ≡ ok plain_frame
unfolding program
plain_roundtrip = refl

registered : get (v3_selector_prefix toy_hash 7) selectors ≡ some (7, key)
unfolding program
registered = refl

not_plain : bytes_eq (v3_selector_prefix toy_hash 7) (be 4 1397114179) ≡ false
unfolding program
not_plain = refl

decode_server_frame-encode_wire_example :
    decode_server_frame toy_hash toy_cipher datagram selectors ≡ ok (frame, key)
decode_server_frame-encode_wire_example =
    decode_server_frame-encode_wire toy_hash toy_cipher frame key nonce suffix datagram selectors
      frame-IsFrame refl refl refl sent registered not_plain

server_accepts_v3_only_example :
    (starts_with_magic toy_hash toy_cipher datagram ≡ false)
    × (get (take 4 datagram) selectors ≡ some (7, key))
    × (◌≡◌ {A = ℕ} 3 version_v3)
    × (decode_v3 toy_hash toy_cipher datagram 7 key ≡ ok frame)
server_accepts_v3_only_example =
    server_accepts_v3_only toy_hash toy_cipher datagram selectors frame key received

decode_inner_exact_example :
    (1 ∷ fields frame ≡ plaintext) × (◌≡◌ {A = ℕ} 3 version_v3) × (◌≡◌ {A = ℕ} 7 7)
decode_inner_exact_example =
    decode_inner_exact toy_hash toy_cipher 7 plaintext frame plaintext-IsBytes read
