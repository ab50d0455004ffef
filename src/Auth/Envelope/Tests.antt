-- ===== src/Auth/Envelope/Tests.antt =====
-- The theorems on envelopes at concrete inputs. The hash of the tests adds up what it is given.
use smart_fec_tunnel.Base.{
  ℕ, ◌+◌, ◌≤◌, ◌≡◌, ◌≢◌, refl, true, List, [], ◌∷◌, replicate, ok, err, arith,
}
use smart_fec_tunnel.Base.Maps.{get, contains_key, insert, remove}
use smart_fec_tunnel.Base.Bytes.{be, from_be, bytes_eq, length-be, IsBytes}
use smart_fec_tunnel.Base.Crypto.{Blake3}
use smart_fec_tunnel.Auth.Cache.{Nonce, ReplayCache, check_and_insert}
use smart_fec_tunnel.Auth.Envelope.{
  AuthClaims, expired_envelope, replayed_envelope, is_malformed, envelope_device_id, make_envelope,
  authenticate, abs_diff, verify_envelope,
}
use smart_fec_tunnel.Auth.Envelope.Sound.{verify_envelope_sound}
use smart_fec_tunnel.Auth.Envelope.Future.{future_envelope_accepted_twice}

abbrev toy : Blake3
toy = record {
  hash = λ m. be 32 (from_be m);
  keyed = λ k m. be 32 (from_be k + from_be m);
  hash_length = λ m. length-be 32 (from_be m);
  keyed_length = λ k m. length-be 32 (from_be k + from_be m);
}

program : Unit {0}
unfolding verify_envelope authenticate make_envelope is_malformed envelope_device_id
    check_and_insert get contains_key insert remove bytes_eq be from_be
program = tt

abbrev secret : List ℕ
secret = 115 ∷ 51 ∷ []

abbrev exporter : List ℕ
exporter = replicate 32 7

abbrev nonce : Nonce
nonce = replicate 16 1

abbrev cache : ReplayCache
cache = record { capacity = 8; entries = []; order = [] }

abbrev claims : AuthClaims
claims = record { device_id = 7; timestamp = 1000; nonce = nonce }

abbrev envelope : List ℕ
envelope = make_envelope toy secret 7 1000 nonce exporter

abbrev stored : ReplayCache
stored = record cache { entries = (nonce, 1036) ∷ []; order = (nonce, 1036) ∷ [] }

-- accepts_valid_channel_bound_envelope_once
accepted : verify_envelope toy envelope secret exporter 1005 30 cache ≡ (stored, ok claims)
unfolding program
accepted = refl

replayed :
    verify_envelope toy envelope secret exporter 1005 30 stored ≡ (stored, err replayed_envelope)
unfolding program
replayed = refl

expired : verify_envelope toy envelope secret exporter 1031 30 cache ≡ (cache, err expired_envelope)
unfolding program
expired = refl

envelope-IsBytes : IsBytes envelope
unfolding program
envelope-IsBytes = omega arith

verify_envelope_sound_example :
    (envelope ≡ make_envelope toy secret 7 1000 nonce exporter)
    × (◌≢◌ {A = ℕ} 7 0)
    × (abs_diff 1005 1000 ≤ 30)
    × (check_and_insert cache nonce 1005 30 ≡ (stored, true))
verify_envelope_sound_example =
    verify_envelope_sound toy envelope secret exporter 1005 30 cache stored claims envelope-IsBytes
      accepted

future_envelope_accepted_twice_example :
    let first = verify_envelope toy envelope secret exporter 990 30 cache in
    (first.1 ≡ ok claims)
    × ((verify_envelope toy envelope secret exporter (990 + 30 + 1) 30 first.0).1 ≡ ok claims)
future_envelope_accepted_twice_example =
    future_envelope_accepted_twice toy secret 7 1000 nonce exporter 8 990 30 refl (omega arith)
      (omega arith) (omega arith) (omega arith) (omega arith) (omega arith)
