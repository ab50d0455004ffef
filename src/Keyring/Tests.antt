-- ===== src/Keyring/Tests.antt =====
-- Tests and witnesses of the keyring.
use smart_fec_tunnel.Base.{
  ℕ, false, ◌≤◌, ◌≡◌, refl, ◌↔◌, some, List, [], ◌∷◌, ◌++◌, length, replicate, ok, err, arith,
}
use smart_fec_tunnel.Base.Crypto.{Blake3}
use smart_fec_tunnel.Base.Text.{
  Text, is_whitespace, starts_with, utf8_char, parse_u64, decimal, split_whitespace, trim, lines,
  utf8, is_empty,
}
use smart_fec_tunnel.Base.Maps.{contains_key, insert}
use smart_fec_tunnel.Keyring.{
  read_line, load, parse_keyring, load_keyring, not_private, invalid_entry, duplicate_key_id,
  invalid_key_id,
}
use smart_fec_tunnel.Keyring.Relay.{Devices, parse_devices}
use smart_fec_tunnel.Keyring.RoundTrip.{keyring_text, parse_devices-keyring_text}
use smart_fec_tunnel.Keyring.Sound.{IsKeyring, parse_devices-IsKeyring}
use smart_fec_tunnel.Keyring.Agree.{derived, parse_keyring-parse_devices}

abbrev zeros : List ℕ
zeros = replicate 32 0

abbrev zero_hash : Blake3
zero_hash = record {
  hash = λ m. zeros;
  keyed = λ k m. zeros;
  hash_length = λ m. refl;
  keyed_length = λ k m. refl;
}

abbrev secret_a : Text
secret_a = replicate 32 b'a'

-- A secret of 16 characters and 32 bytes.
abbrev secret_e : Text
secret_e = replicate 16 0xe9

abbrev two_devices : Devices
two_devices = (7, secret_a) ∷ (18446744073709551615, secret_e) ∷ []

-- Comments, blank lines and other white space; an id that overflows, an id given twice, a secret
-- that is too short, and a file that its group may read.
runs :
    (parse_devices (keyring_text two_devices) ≡ ok two_devices)
    × (parse_devices (
          b'#'
          ∷ b'x'
          ∷ b'\n'
          ∷ b'\n'
          ∷ b' '
          ∷ b'+'
          ∷ b'7'
          ∷ 0x3000
          ∷ (secret_a ++ b'\r' ∷ b'\n' ∷ []))
        ≡ ok ((7, secret_a) ∷ []))
    × (parse_devices (b'9' ∷ (replicate 19 b'9' ++ b' ' ∷ secret_a)) ≡ err (invalid_key_id 1))
    × (parse_keyring zero_hash (keyring_text ((7, secret_a) ∷ (7, secret_e) ∷ []))
        ≡ err (duplicate_key_id 2))
    × (parse_keyring zero_hash (b'7' ∷ b' ' ∷ replicate 31 b'a') ≡ err (invalid_entry 1))
    × (load_keyring zero_hash (some 0o640) (some []) ≡ err not_private)
unfolding parse_devices parse_keyring lines keyring_text decimal read_line trim is_whitespace
    starts_with split_whitespace parse_u64 utf8 contains_key insert load
runs = (refl, refl, refl, refl, refl, refl)

parse_devices-keyring_text_example : parse_devices (keyring_text two_devices) ≡ ok two_devices
unfolding is_whitespace utf8 utf8_char contains_key
parse_devices-keyring_text_example =
    parse_devices-keyring_text (7, secret_a) ((18446744073709551615, secret_e) ∷ []) (ground arith)
      (ground arith)

parse_devices-IsKeyring_example : (is_empty two_devices ≡ false) × IsKeyring two_devices
parse_devices-IsKeyring_example =
    parse_devices-IsKeyring (keyring_text two_devices) two_devices (runs.0)

parse_keyring-parse_devices_example :
    (parse_keyring zero_hash (keyring_text two_devices) ≡ ok (derived zero_hash two_devices)) ↔ (
      (ds : Devices) × (parse_devices (keyring_text two_devices) ≡ ok ds)
      × (length ds ≤ 65536)
      × (derived zero_hash two_devices ≡ derived zero_hash ds))
parse_keyring-parse_devices_example =
    parse_keyring-parse_devices zero_hash (keyring_text two_devices) (derived zero_hash two_devices)
