-- ===== src/Auth/Envelope.antt =====
-- src/quic_auth.rs, `make_envelope`, `envelope_device_id` and `verify_envelope`. BLAKE3 is a
-- parameter: its hash, its keyed hash, and the documented length of their output. `ct_eq` of the
-- `subtle` crate is equality of byte strings. A byte string of the code is a list of numbers.
pub mod Fields
pub mod RoundTrip
pub mod Sound
pub mod Future
mod Tests
use smart_fec_tunnel.Base.{
  ℕ, suc, ◌+◌, ◌-◌, ◌≡◌, Bool, true, false, not, ◌||◌, ltb, ◌==◌, if◌then◌else◌, List, [], ◌∷◌,
  ◌++◌, length, drop, Result, ok, err, ◌>>=◌, ◌>>◌, bail_if,
}
use smart_fec_tunnel.Base.Bytes.{be, from_be, slice, byte_at, bytes_eq}
use smart_fec_tunnel.Base.Crypto.{Blake3}
use smart_fec_tunnel.Auth.Cache.{Nonce, ReplayCache, check_and_insert}

-- b"SFTA"
abbrev pub magic : List ℕ
magic = 83 ∷ 70 ∷ 84 ∷ 65 ∷ []

abbrev pub version : ℕ
version = 1

abbrev pub prefix_len : ℕ
prefix_len = 37

abbrev pub envelope_len : ℕ
envelope_len = 69

pub data AuthError : Type 0 where
  invalid_envelope zero_device expired_envelope invalid_proof replayed_envelope : AuthError

pub record AuthClaims : Type 0 where
  pub device_id : ℕ
  pub timestamp : ℕ
  pub nonce : Nonce

-- The first `PREFIX_LEN` bytes of `make_envelope`.
unfoldable pub envelope_prefix : ℕ → ℕ → Nonce → List ℕ
envelope_prefix device_id timestamp nonce =
    magic ++ version ∷ (be 8 device_id ++ (be 8 timestamp ++ nonce))

-- `envelope.len() != ENVELOPE_LEN || &envelope[..4] != MAGIC || envelope[4] != VERSION`
unfoldable pub is_malformed : List ℕ → Bool
is_malformed envelope =
    not (length envelope == envelope_len)
    || (not (bytes_eq (slice 0 4 envelope) magic) || not (byte_at 4 envelope == version))

-- envelope_device_id
unfoldable pub envelope_device_id : List ℕ → Result AuthError ℕ
envelope_device_id envelope = do
  bail_if (is_malformed envelope) invalid_envelope
  let device_id = from_be (slice 5 13 envelope)
  bail_if (device_id == 0) zero_device
  ok device_id

-- u64::abs_diff
abbrev pub abs_diff : ℕ → ℕ → ℕ
abs_diff a b = (a - b) + (b - a)

module _ (b : Blake3) where
  -- device_key
  abbrev pub device_key : List ℕ → List ℕ
  device_key secret = b.hash secret

  -- make_envelope
  unfoldable pub make_envelope : List ℕ → ℕ → ℕ → Nonce → List ℕ → List ℕ
  unfolding envelope_prefix
  make_envelope secret device_id timestamp nonce tls_exporter =
      let out = envelope_prefix device_id timestamp nonce in
      out ++ b.keyed (device_key secret) (out ++ tls_exporter)

  -- The checks of `verify_envelope` that do not touch the cache.
  unfoldable pub authenticate : List ℕ → List ℕ → List ℕ → ℕ → ℕ → Result AuthError AuthClaims
  authenticate envelope secret tls_exporter now window_secs = do
    bail_if (is_malformed envelope) invalid_envelope
    device_id ← envelope_device_id envelope
    let timestamp = from_be (slice 13 21 envelope)
    bail_if (ltb window_secs (abs_diff now timestamp)) expired_envelope
    let nonce = slice 21 37 envelope
    let expected = make_envelope secret device_id timestamp nonce tls_exporter
    bail_if (not (bytes_eq (drop prefix_len expected) (drop prefix_len envelope))) invalid_proof
    ok (record { device_id = device_id; timestamp = timestamp; nonce = nonce })

  -- The last step of `verify_envelope`: the nonce of an authentic envelope goes to the cache.
  unfoldable pub admit_claims :
      ReplayCache → AuthClaims → ℕ → ℕ → ReplayCache × Result AuthError AuthClaims
  admit_claims cache claims now window_secs =
      let (c, fresh) = check_and_insert cache claims.nonce now window_secs in
      (c, if fresh then ok claims else err replayed_envelope)

  -- verify_envelope
  unfoldable pub verify_envelope :
      List ℕ → List ℕ → List ℕ → ℕ → ℕ → ReplayCache → ReplayCache × Result AuthError AuthClaims
  unfolding admit_claims
  verify_envelope envelope secret tls_exporter now window_secs cache =
      elim (authenticate envelope secret tls_exporter now window_secs) [
        | err x ↦ (cache, err x)
        | ok claims ↦ admit_claims cache claims now window_secs
      ]
