-- ===== src/Auth/Envelope/RoundTrip.antt =====
-- A proof that was made for a channel is accepted on that channel.
use smart_fec_tunnel.Base.{
  ℕ, ◌≤◌, ◌<◌, ◌≡◌, ◌≢◌, ◌^◌, true, false, List, ◌++◌, length, drop, le→not_ltb, ne→not_==, ok, err,
  if◌then◌else◌,
}
use smart_fec_tunnel.Base.Bytes.{from_be, slice, bytes_eq, bytes_eq_refl}
use smart_fec_tunnel.Base.Crypto.{Blake3}
use smart_fec_tunnel.Auth.Cache.{Nonce, ReplayCache, check_and_insert}
use smart_fec_tunnel.Auth.Envelope.{
  AuthClaims, replayed_envelope, envelope_prefix, is_malformed, envelope_device_id, make_envelope,
  authenticate, abs_diff, verify_envelope,
}
use smart_fec_tunnel.Auth.Envelope.Fields

module _ (b : Blake3) (secret : List ℕ) (id t : ℕ) (n : Nonce) (exporter : List ℕ) where
  abbrev pub claims : AuthClaims
  claims = record { device_id = id; timestamp = t; nonce = n }

  -- The checks pass on any envelope with these fields and this proof.
  authenticate_fields :
      (e : List ℕ) (now window_secs : ℕ)
      → is_malformed e ≡ false
      → from_be (slice 5 13 e) ≡ id
      → from_be (slice 13 21 e) ≡ t
      → slice 21 37 e ≡ n
      → bytes_eq (drop 37 (make_envelope b secret id t n exporter)) (drop 37 e) ≡ true
      → id ≢ 0
      → abs_diff now t ≤ window_secs
      → authenticate b e secret exporter now window_secs ≡ ok claims
  unfolding authenticate envelope_device_id
  authenticate_fields e now window_secs form fi ft fn proof nz w =
      rw (form, fi, ft, fn, ne→not_== id 0 nz, proof, le→not_ltb window_secs (abs_diff now t) w)

  -- `authenticate` accepts what `make_envelope` made with the same secret and exporter, if the
  -- device is not zero and the clocks differ by the window at most, and returns its fields.
  authenticate-make_envelope :
      (now window_secs : ℕ)
      → length n ≡ 16
      → id ≢ 0
      → id < 256 ^ 8
      → t < 256 ^ 8
      → abs_diff now t ≤ window_secs
      → authenticate b (make_envelope b secret id t n exporter) secret exporter now window_secs
        ≡ ok claims
  unfolding make_envelope
  authenticate-make_envelope now window_secs h nz bi bt w =
      let tail = b.keyed (b.hash secret) (envelope_prefix id t n ++ exporter) in
      authenticate_fields (make_envelope b secret id t n exporter) now window_secs
        (Fields.well_formed id t n tail h (b.keyed_length _ _))
        (Fields.field_device id t n tail h bi) (Fields.field_timestamp id t n tail h bt)
        (Fields.field_nonce id t n tail h) (bytes_eq_refl _) nz w

  -- A proof made by a device for this channel is accepted on it and its fields are returned, while
  -- the clocks differ by the window at most and the cache does not refuse the nonce; the cache
  -- then holds the nonce. If the cache refuses the nonce, the proof counts as replayed.
  pub verify-make_envelope :
      (now window_secs : ℕ) (cache : ReplayCache)
      → length n ≡ 16
      → id ≢ 0
      → id < 256 ^ 8
      → t < 256 ^ 8
      → abs_diff now t ≤ window_secs
      → let (c, fresh) = check_and_insert cache n now window_secs in
        verify_envelope b
          (make_envelope b secret id t n exporter)
          secret
          exporter
          now
          window_secs
          cache
        ≡ (c, if fresh then ok claims else err replayed_envelope)
  unfolding verify_envelope
  verify-make_envelope now window_secs cache h nz bi bt w =
      rw (verify_envelope, authenticate-make_envelope now window_secs h nz bi bt w)
