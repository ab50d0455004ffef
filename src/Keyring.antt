-- ===== src/Keyring.antt =====
-- The keyring files: `key`, `load_keyring` and `parse_keyring` of src/main.rs, and `parse_keyring`
-- of src/quic_relay.rs (Relay). Both read the same lines, an id and a secret, and differ in what
-- they keep of a secret and in the limit on the number of devices.
pub mod Relay
pub mod RoundTrip
pub mod Agree
pub mod Sound
mod Tests
use smart_fec_tunnel.Base.{
  ℕ, ◌+◌, ◌%◌, Bool, true, false, not, ◌||◌, ltb, ◌==◌, if◌then◌else◌, Option, none, some, List, [],
  ◌∷◌, length, Result, ok, err, ◌>>=◌, ◌>>◌, bail_if,
}
use smart_fec_tunnel.Base.Crypto.{Blake3}
use smart_fec_tunnel.Base.Maps.{nat_key, contains_key, insert}
use smart_fec_tunnel.Base.Text.{
  Text, is_empty, starts_with, lines, trim, split_whitespace, utf8, parse_u64,
}

abbrev pub max_device_keys : ℕ
max_device_keys = 65536

-- The numbers are those of the lines, from 1.
pub data KeyringError : Type 0 where
  unreadable not_private missing_key_id missing_key_secret too_many_keys no_keys : KeyringError
  invalid_key_id invalid_entry duplicate_key_id : ℕ → KeyringError

-- The secret of an entry whose id is known, and the check of the entry.
unfoldable pub read_secret : ℕ → ℕ → List Text → Result KeyringError (Option (ℕ × Text))
read_secret line_no id [] = err missing_key_secret
read_secret line_no id (secret ∷ fields) = do
  bail_if (id == 0 || ltb (length (utf8 secret)) 32 || not (is_empty fields))
      (invalid_entry (line_no + 1))
  ok (some (id, secret))

unfoldable pub read_fields : ℕ → List Text → Result KeyringError (Option (ℕ × Text))
unfolding read_secret
read_fields line_no [] = err missing_key_id
read_fields line_no (field ∷ fields) = elim (parse_u64 field) [
  | none ↦ err (invalid_key_id (line_no + 1))
  | some id ↦ read_secret line_no id fields
]

-- A line of a keyring up to its place in the map; blank lines and comments have no entry.
unfoldable pub read_line : ℕ → Text → Result KeyringError (Option (ℕ × Text))
unfolding read_fields
read_line line_no raw =
    let line = trim raw in
    if is_empty line || starts_with b'#' line
    then ok none
    else read_fields line_no (split_whitespace line)

-- The mode of the file is `none` if it cannot be read, its text also if it is no UTF-8.
unfoldable pub load :
    {A : Type 0} → (Text → Result KeyringError A) → Option ℕ → Option Text → Result KeyringError A
load parse none text = err unreadable
load parse (some mode) none = if not (mode % 0o100 == 0) then err not_private else err unreadable
load parse (some mode) (some text) = if not (mode % 0o100 == 0) then err not_private else parse text

module _ (b : Blake3) where
  abbrev pub Keys : Type 0
  Keys = List (ℕ × List ℕ)

  -- key
  abbrev pub key : Text → List ℕ
  key raw = b.hash (utf8 raw)

  unfoldable pub add_key : ℕ → Option (ℕ × Text) → Keys → Result KeyringError Keys
  add_key line_no none result = ok result
  add_key line_no (some (id, secret)) result = do
    bail_if (contains_key id result) (duplicate_key_id (line_no + 1))
    bail_if (ltb max_device_keys (length (insert id (key secret) result))) too_many_keys
    ok (insert id (key secret) result)

  -- The loop of `parse_keyring`, from a line on.
  unfoldable pub add_lines : ℕ → List Text → Keys → Result KeyringError Keys
  unfolding add_key
  add_lines line_no [] result = ok result
  add_lines line_no (line ∷ rest) result = do
    entry ← read_line line_no line
    keys ← add_key line_no entry result
    add_lines (line_no + 1) rest keys

  -- parse_keyring
  unfoldable pub parse_keyring : Text → Result KeyringError Keys
  unfolding add_lines
  parse_keyring text = do
    result ← add_lines 0 (lines text) []
    bail_if (is_empty result) no_keys
    ok result

  -- load_keyring
  abbrev pub load_keyring : Option ℕ → Option Text → Result KeyringError Keys
  load_keyring = load parse_keyring
