-- ===== src/Server/Tests.antt =====
-- Tests and witnesses of the server's start.
use smart_fec_tunnel.Base.{
  ℕ, ◌≡◌, refl, false, none, some, List, [], ◌∷◌, ◌++◌, replicate, ok, err, arith,
}
use smart_fec_tunnel.Base.Bytes.{be, from_be, bytes_eq}
use smart_fec_tunnel.Base.Toys.{zeros, toy_hash, toy_cipher}
use smart_fec_tunnel.Base.Maps.{nat_key, get, contains_key, insert}
use smart_fec_tunnel.Wire.{Frame, fields, encode_wire, decode_server_frame, v3_selector_prefix}
use smart_fec_tunnel.Wire.Fields.{IsFrame}
use smart_fec_tunnel.Keyring.{Keys}
use smart_fec_tunnel.Server.{
  Selectors, server, selector_collision, no_device_keys, invalid_max_sessions,
}
use smart_fec_tunnel.Server.Selectors.{server-encode_wire}

abbrev key : List ℕ
key = replicate 32 5

abbrev keys : Keys toy_hash
keys = (3, zeros) ∷ (7, key) ∷ []

abbrev selectors : Selectors
selectors = (0 ∷ 0 ∷ 0 ∷ 3 ∷ [], (3, zeros)) ∷ (0 ∷ 0 ∷ 0 ∷ 7 ∷ [], (7, key)) ∷ []

abbrev frame : Frame
frame = record {
  version = 3;
  key_id = 7;
  kind = 1;
  session = 9;
  sequence = 1;
  group = 1;
  index = 0;
  data_count = 1;
  parity_count = 0;
  payload = 10 ∷ 20 ∷ [];
}

abbrev plaintext : List ℕ
plaintext =
    1
    ∷ (replicate 7 0
        ++ 9 ∷ (replicate 7 0 ++ 1 ∷ (replicate 7 0 ++ 1 ∷ 0 ∷ 0 ∷ 1 ∷ 0 ∷ 0 ∷ 2 ∷ 10 ∷ 20 ∷ [])))

abbrev datagram : List ℕ
datagram = 0 ∷ 0 ∷ 0 ∷ 7 ∷ (replicate 4 2 ++ (replicate 24 1 ++ (plaintext ++ zeros)))

program : Unit {0}
unfolding server v3_selector_prefix be from_be bytes_eq get contains_key insert encode_wire fields
program = tt

-- The toy hash gives ids that agree modulo 2^32 the same selector.
runs :
    (server toy_hash none (some (ok ((7, key) ∷ (4294967303, key) ∷ []))) 100 60
      ≡ err selector_collision)
    × (server toy_hash none none 100 60 ≡ err no_device_keys)
    × (server toy_hash (some []) none 65537 60 ≡ err invalid_max_sessions)
unfolding program
runs = (refl, refl, refl)

started : server toy_hash none (some (ok keys)) 100 60 ≡ ok selectors
unfolding program
started = refl

known : get 7 keys ≡ some key
unfolding program
known = refl

sealed : encode_wire toy_hash toy_cipher frame key (replicate 24 1) (replicate 4 2) ≡ ok datagram
unfolding program
sealed = refl

not_plain : bytes_eq (v3_selector_prefix toy_hash 7) (be 4 1397114179) ≡ false
unfolding program
not_plain = refl

frame-IsFrame : IsFrame frame
frame-IsFrame = omega arith

server-encode_wire_example :
    decode_server_frame toy_hash toy_cipher datagram selectors ≡ ok (frame, key)
server-encode_wire_example =
    server-encode_wire toy_hash toy_cipher none keys 100 60 selectors frame key (replicate 24 1)
      (replicate 4 2) datagram started known frame-IsFrame refl refl refl sealed not_plain
