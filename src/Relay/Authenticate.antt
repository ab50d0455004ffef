-- ===== src/Relay/Authenticate.antt =====
-- src/quic_relay.rs, `authenticate_client` and `authenticate_server`: a device proves its secret on
-- a connection. The TLS exporter, the clock and the random nonce are arguments; a stream that
-- fails, or sends too much, is `none`.
use smart_fec_tunnel.Base.{
  ℕ, not, ◌==◌, Option, none, some, List, [], ◌∷◌, Result, ok, err, ◌>>=◌, ◌>>◌, bail_if,
}
use smart_fec_tunnel.Base.Bytes.{slice, bytes_eq}
use smart_fec_tunnel.Base.Crypto.{Blake3}
use smart_fec_tunnel.Base.Maps.{nat_key, get}
use smart_fec_tunnel.Base.Text.{Text, utf8}
use smart_fec_tunnel.Auth.Cache.{Nonce, ReplayCache}
use smart_fec_tunnel.Auth.Envelope.{AuthError, make_envelope, envelope_device_id, verify_envelope}
use smart_fec_tunnel.Keyring.Relay.{Devices}

abbrev pub default_auth_window_secs : ℕ
default_auth_window_secs = 30

pub data AuthenticationError : Type 0 where
  zero_device_id no_clock no_exporter stream_failed rejected unknown_device : AuthenticationError
  envelope : AuthError → AuthenticationError

abbrev pub Exporter : Type 0
Exporter = Nonce → Option (List ℕ)

abbrev pub or_err : {A : Type 0} → AuthenticationError → Option A → Result AuthenticationError A
or_err e none = err e
or_err e (some a) = ok a

abbrev pub lift_envelope : {A : Type 0} → Result AuthError A → Result AuthenticationError A
lift_envelope (ok a) = ok a
lift_envelope (err e) = err (envelope e)

-- b"OK"
abbrev pub confirmation : List ℕ
confirmation = b'O' ∷ b'K' ∷ []

-- The end of `authenticate_client`: the server's answer.
unfoldable pub confirm : Option (List ℕ) → Result AuthenticationError (Unit {0})
confirm answer = do
  bytes ← or_err stream_failed answer
  bail_if (not (bytes_eq bytes confirmation)) rejected

-- `authenticate_server` before the cache is locked: the device and its secret.
unfoldable pub find_device : Devices → List ℕ → Result AuthenticationError (ℕ × Text)
find_device keys proof = do
  device_id ← lift_envelope (envelope_device_id proof)
  secret ← or_err unknown_device (get device_id keys)
  ok (device_id, secret)

-- The arguments of `verify_envelope` that may fail.
unfoldable pub channel : Exporter → Option ℕ → List ℕ → Result AuthenticationError (List ℕ × ℕ)
channel exporter clock proof = do
  binding ← or_err no_exporter (exporter (slice 21 37 proof))
  now ← or_err no_clock clock
  ok (binding, now)

unfoldable pub prepare :
    Devices
    → Exporter
    → Option ℕ
    → Option (List ℕ)
    → Result AuthenticationError (List ℕ × (ℕ × Text) × (List ℕ × ℕ))
unfolding find_device channel
prepare keys exporter clock received = do
  proof ← or_err stream_failed received
  device ← find_device keys proof
  binding ← channel exporter clock proof
  ok (proof, device, binding)

module _ (b : Blake3) where
  -- authenticate_client, up to the proof that is sent
  unfoldable pub client_proof :
      ℕ → Text → Option ℕ → Nonce → Exporter → Result AuthenticationError (List ℕ)
  client_proof device_id secret clock nonce exporter = do
    bail_if (device_id == 0) zero_device_id
    now ← or_err no_clock clock
    binding ← or_err no_exporter (exporter nonce)
    ok (make_envelope b (utf8 secret) device_id now nonce binding)

  -- `verify_envelope(...)?` and the confirmation.
  unfoldable pub verify_device :
      ReplayCache → List ℕ → ℕ × Text → List ℕ × ℕ → ReplayCache × Result AuthenticationError ℕ
  verify_device cache proof device binding =
      let (c, r) =
        verify_envelope b proof (utf8 device.1) binding.0 binding.1 default_auth_window_secs
          cache in
      (c, lift_envelope r >>= λ claims. ok device.0)

  unfoldable pub verify_prepared :
      ReplayCache
      → Result AuthenticationError (List ℕ × (ℕ × Text) × (List ℕ × ℕ))
      → ReplayCache × Result AuthenticationError ℕ
  unfolding verify_device
  verify_prepared cache (err e) = (cache, err e)
  verify_prepared cache (ok (proof, device, binding)) = verify_device cache proof device binding

  -- authenticate_server: the cache after it, and the device that is then told `OK`.
  unfoldable pub authenticate_server :
      Devices
      → ReplayCache
      → Exporter
      → Option ℕ
      → Option (List ℕ)
      → ReplayCache × Result AuthenticationError ℕ
  unfolding prepare verify_prepared
  authenticate_server keys cache exporter clock received =
      verify_prepared cache (prepare keys exporter clock received)
