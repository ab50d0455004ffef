-- ===== src/Keyring/RoundTrip.antt =====
-- A keyring that is written line by line, an id and a secret in each, is read back.
use smart_fec_tunnel.Base.{
  ℕ, ◌+◌, ◌^◌, ◌≤◌, ◌<◌, ◌≡◌, refl, sym, ap, subst, ◌∙◌, false, ◌||◌, ◌==◌, some, [], ◌∷◌, ◌++◌,
  length, ok, append_assoc, append-nil, arith,
}
use smart_fec_tunnel.Base.Maps.{nat_key, contains_key, insert_absent, HasDistinctKeys}
use smart_fec_tunnel.Base.Text.{
  Text, AllInk, is_empty, starts_with, lines, utf8, parse_u64, decimal,
}
use smart_fec_tunnel.Base.Decimal.{
  IsDigits, decimal-IsDigits, decimal-is_empty, parse_u64-decimal, IsDigits-AllInk,
}
use smart_fec_tunnel.Base.Words.{
  IsLine, lines-line, append-IsLine, AllInk-IsLine, trim-two_words, split-two_words,
}
use smart_fec_tunnel.Keyring.{read_secret, read_fields, read_line}
use smart_fec_tunnel.Keyring.Relay.{Devices, add_device, add_device_lines, parse_devices}

-- An entry that both programs take: the id is a `u64` and not zero, the secret one word of at least
-- 32 bytes.
abbrev pub IsDevice : ℕ × Text → Type 0
IsDevice d = (0 < d.0) × (d.0 < 2 ^ 64) × (32 ≤ length (utf8 (d.1))) × AllInk (d.1)

abbrev pub AllDevices : Devices → Type 0
AllDevices [] = Unit {0}
AllDevices (d ∷ ds) = IsDevice d × AllDevices ds

unfoldable pub device_line : ℕ × Text → Text
device_line d = decimal (d.0) ++ b' ' ∷ d.1

-- A file with a line for every device.
unfoldable pub keyring_text : Devices → Text
unfolding device_line
keyring_text [] = []
keyring_text (d ∷ ds) = device_line d ++ b'\n' ∷ keyring_text ds

secret-is_empty : (s : Text) → 32 ≤ length (utf8 s) → is_empty s ≡ false
unfolding utf8
secret-is_empty [] h = absurd (omega arith)
secret-is_empty (c ∷ cs) h = refl

digits-starts_with :
    (s t : Text)
    → IsDigits s
    → is_empty s ≡ false
    → (is_empty (s ++ t) || starts_with b'#' (s ++ t)) ≡ false
unfolding starts_with
digits-starts_with [] t d h = cc
digits-starts_with (c ∷ cs) t d h = ground arith

read_secret-device :
    (n id : ℕ) (secret : Text)
    → IsDevice (id, secret)
    → read_secret n id (secret ∷ []) ≡ ok (some (id, secret))
unfolding read_secret
read_secret-device n id secret h = ground arith

read_fields-device :
    (n id : ℕ) (field secret : Text)
    → IsDevice (id, secret)
    → parse_u64 field ≡ some id
    → read_fields n (field ∷ secret ∷ []) ≡ ok (some (id, secret))
unfolding read_fields
read_fields-device n id field secret h e = rw (read_fields, e) (read_secret-device n id secret h)

read_line-device_line :
    (n : ℕ) (d : ℕ × Text) → IsDevice d → read_line n (device_line d) ≡ ok (some d)
unfolding read_line device_line
read_line-device_line n (id, secret) h =
    let ink = IsDigits-AllInk (decimal id) (decimal-IsDigits id) in
    let full = secret-is_empty secret (h.2) in
    let empty = decimal-is_empty id in
    rw
      (
        trim-two_words (decimal id) secret ink (h.3) empty full,
        digits-starts_with (decimal id) (b' ' ∷ secret) (decimal-IsDigits id) empty,
        split-two_words (decimal id) secret ink (h.3) empty full,
      )
      (read_fields-device n id (decimal id) secret h (parse_u64-decimal id (h.1)))

device_line-IsLine : (d : ℕ × Text) → IsDevice d → IsLine (device_line d)
unfolding device_line
device_line-IsLine d h =
    append-IsLine (decimal (d.0)) (b' ' ∷ d.1)
      (AllInk-IsLine (decimal (d.0)) (IsDigits-AllInk (decimal (d.0)) (decimal-IsDigits (d.0))))
      (refl, refl, AllInk-IsLine (d.1) (h.3))

contains_key-append :
    (j : ℕ) (r : Devices) (d : ℕ × Text) (ds : Devices)
    → contains_key j (r ++ d ∷ ds) ≡ false
    → (j == d.0) ≡ false
unfolding contains_key
contains_key-append j [] d ds h = ground arith
contains_key-append j ((i, w) ∷ r) d ds h = ground (arith, contains_key-append j r d ds)

distinct-contains_key :
    (r : Devices) (d : ℕ × Text) (ds : Devices)
    → HasDistinctKeys (r ++ d ∷ ds)
    → contains_key (d.0) r ≡ false
unfolding contains_key
distinct-contains_key [] d ds h = refl
distinct-contains_key ((j, w) ∷ r) d ds h =
    ground (arith, contains_key-append j r d ds, distinct-contains_key r d ds (h.1))

add_lines-keyring_text :
    (n : ℕ) (ds r : Devices)
    → AllDevices ds
    → HasDistinctKeys (r ++ ds)
    → add_device_lines n (lines (keyring_text ds)) r ≡ ok (r ++ ds)
unfolding add_device_lines keyring_text lines add_device
add_lines-keyring_text n [] r a h = rw (append-nil r) refl
add_lines-keyring_text n (d ∷ ds) r a h =
    let new = distinct-contains_key r d ds h in
    rw
      (
        lines-line (device_line d) (keyring_text ds) (device_line-IsLine d (a.0)),
        read_line-device_line n d (a.0),
        new,
        insert_absent (d.0) (d.1) r new,
      )
      (add_lines-keyring_text (n + 1) ds (r ++ d ∷ []) (a.1)
          (subst HasDistinctKeys (sym (append_assoc r (d ∷ []) ds)) h)
        ∙ ap ok (append_assoc r (d ∷ []) ds))

-- A nonempty list of devices with distinct ids, each a nonzero `u64`, and with secrets of one word
-- and at least 32 bytes is read back by the relay from the file that has a line for each.
pub parse_devices-keyring_text :
    (d : ℕ × Text) (ds : Devices)
    → AllDevices (d ∷ ds)
    → HasDistinctKeys (d ∷ ds)
    → parse_devices (keyring_text (d ∷ ds)) ≡ ok (d ∷ ds)
unfolding parse_devices
parse_devices-keyring_text d ds a h = rw (add_lines-keyring_text 0 (d ∷ ds) [] a h) refl
