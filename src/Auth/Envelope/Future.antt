-- ===== src/Auth/Envelope/Future.antt =====
-- A limit of the replay cache: a nonce expires `window + 1` seconds after it was accepted, while
-- the timestamp of an envelope stays acceptable until `timestamp + window`. For a device whose
-- clock runs ahead the second time is the later one.
use smart_fec_tunnel.Base.{ℕ, ◌+◌, ◌≤◌, ◌<◌, ◌≡◌, ◌≢◌, ◌^◌, refl, true, List, [], length, ok, arith}
use smart_fec_tunnel.Base.Maps.{contains_key, insert, remove, get}
use smart_fec_tunnel.Base.Bytes.{bytes_eq_refl}
use smart_fec_tunnel.Base.Crypto.{Blake3}
use smart_fec_tunnel.Auth.Cache.{Nonce, ReplayCache, u64_max, check_and_insert}
use smart_fec_tunnel.Auth.Envelope.{AuthClaims, make_envelope, verify_envelope}
use smart_fec_tunnel.Auth.Envelope.RoundTrip.{verify-make_envelope}

abbrev empty_cache : ℕ → ReplayCache
empty_cache cap = record { capacity = cap; entries = []; order = [] }

accepted_twice :
    (cap now window_secs : ℕ) (n : Nonce)
    → 0 < cap
    → now + window_secs + 1 ≤ u64_max
    → ((check_and_insert (empty_cache cap) n now window_secs).1 ≡ true)
      × ((check_and_insert
            (check_and_insert (empty_cache cap) n now window_secs).0
            n
            (now + window_secs + 1)
            window_secs).1
          ≡ true)
unfolding check_and_insert insert contains_key get remove
accepted_twice cap now window_secs n h r = ground (arith, bytes_eq_refl n)

-- An envelope whose timestamp lies in the future, by the window at most, is accepted by a fresh
-- cache, and accepted again `window + 1` seconds later on the same channel: its nonce has expired
-- by then and its timestamp has not.
pub future_envelope_accepted_twice :
    (b : Blake3) (secret : List ℕ) (id t : ℕ) (n : Nonce) (exporter : List ℕ)
    (cap now window_secs : ℕ)
    → length n ≡ 16
    → id ≢ 0
    → id < 256 ^ 8
    → 0 < cap
    → now < t
    → t ≤ now + window_secs
    → now + window_secs + 1 ≤ u64_max
    → let e = make_envelope b secret id t n exporter in
      let claims : AuthClaims = record { device_id = id; timestamp = t; nonce = n } in
      let first = verify_envelope b e secret exporter now window_secs (empty_cache cap) in
      (first.1 ≡ ok claims)
      × ((verify_envelope b e secret exporter (now + window_secs + 1) window_secs first.0).1
          ≡ ok claims)
future_envelope_accepted_twice b secret id t n exporter cap now window_secs h nz bi c f w r =
    let (one, two) = accepted_twice cap now window_secs n c r in
    rw
      (
        verify-make_envelope b secret id t n exporter now window_secs (empty_cache cap) h nz bi
            (omega arith) (omega arith),
        verify-make_envelope b secret id t n exporter (now + window_secs + 1) window_secs
            (check_and_insert (empty_cache cap) n now window_secs).0 h nz bi (omega arith)
            (omega arith),
      )
      (rw (one, two) (refl, refl))
