-- ===== src/Keyring/Relay.antt =====
-- src/quic_relay.rs, `parse_keyring`: it keeps the secrets themselves, and any number of them.
use smart_fec_tunnel.Base.{
  ℕ, ◌+◌, Option, none, some, List, [], ◌∷◌, Result, ok, ◌>>=◌, ◌>>◌, bail_if,
}
use smart_fec_tunnel.Base.Maps.{nat_key, contains_key, insert}
use smart_fec_tunnel.Base.Text.{Text, is_empty, lines}
use smart_fec_tunnel.Keyring.{KeyringError, no_keys, invalid_entry, read_line, load}

abbrev pub Devices : Type 0
Devices = List (ℕ × Text)

unfoldable pub add_device : ℕ → Option (ℕ × Text) → Devices → Result KeyringError Devices
add_device line_no none keys = ok keys
add_device line_no (some (id, secret)) keys = do
  bail_if (contains_key id keys) (invalid_entry (line_no + 1))
  ok (insert id secret keys)

-- The loop, from a line on.
unfoldable pub add_device_lines : ℕ → List Text → Devices → Result KeyringError Devices
unfolding add_device
add_device_lines line_no [] keys = ok keys
add_device_lines line_no (line ∷ rest) keys = do
  entry ← read_line line_no line
  more ← add_device line_no entry keys
  add_device_lines (line_no + 1) rest more

-- `parse_keyring` on the text of the file.
unfoldable pub parse_devices : Text → Result KeyringError Devices
unfolding add_device_lines
parse_devices text = do
  keys ← add_device_lines 0 (lines text) []
  bail_if (is_empty keys) no_keys
  ok keys

-- parse_keyring
abbrev pub parse_keyring : Option ℕ → Option Text → Result KeyringError Devices
parse_keyring = load parse_devices
