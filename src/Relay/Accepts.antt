-- ===== src/Relay/Accepts.antt =====
-- The two ends of the authentication together.
use smart_fec_tunnel.Base.{
  ℕ, ◌^◌, ◌≤◌, ◌<◌, ◌≡◌, ◌≢◌, refl, ap, ne→not_==, ◌++◌, subst, ◌∙◌, Bool, true, false, ◌==◌,
  if◌then◌else◌, inl, inr, Option, none, some, List, length, Result, ok, err, bind-ok, bail_if-ok,
  Result-cases, arith,
}
use smart_fec_tunnel.Base.Bytes.{IsBytes, slice, from_be}
use smart_fec_tunnel.Base.Crypto.{Blake3}
use smart_fec_tunnel.Base.Maps.{nat_key, get}
use smart_fec_tunnel.Base.Text.{Text, utf8}
use smart_fec_tunnel.Auth.Cache.{Nonce, ReplayCache, check_and_insert}
use smart_fec_tunnel.Auth.Envelope.{
  AuthError, AuthClaims, abs_diff, envelope_prefix, is_malformed, make_envelope, envelope_device_id,
  verify_envelope, replayed_envelope,
}
use smart_fec_tunnel.Auth.Envelope.Fields
use smart_fec_tunnel.Auth.Envelope.RoundTrip.{verify-make_envelope}
use smart_fec_tunnel.Auth.Envelope.Sound.{authenticate-Passes, verify_ok, verify_envelope_sound}
use smart_fec_tunnel.Keyring.Relay.{Devices}
use smart_fec_tunnel.Relay.Authenticate.{
  AuthenticationError, envelope, unknown_device, no_exporter, no_clock, or_err, lift_envelope,
  Exporter, client_proof, prepare, find_device, channel, verify_device, verify_prepared,
  authenticate_server,
}

envelope_device_id-fields :
    (e : List ℕ) (id : ℕ)
    → is_malformed e ≡ false
    → from_be (slice 5 13 e) ≡ id
    → id ≢ 0
    → envelope_device_id e ≡ ok id
unfolding envelope_device_id
envelope_device_id-fields e id form fi nz = rw (form, fi, ne→not_== id 0 nz) refl

prepare-fields :
    (keys : Devices) (exporter : Exporter) (e binding : List ℕ) (id now : ℕ) (secret : Text)
    (n : Nonce)
    → envelope_device_id e ≡ ok id
    → get id keys ≡ some secret
    → slice 21 37 e ≡ n
    → exporter n ≡ some binding
    → prepare keys exporter (some now) (some e) ≡ ok (e, (id, secret), (binding, now))
unfolding prepare find_device channel
prepare-fields keys exporter e binding id now secret n d g f x = rw (d, g, f, x) refl

verify_device-ok :
    (b : Blake3) (cache c : ReplayCache) (e binding : List ℕ) (id now : ℕ) (secret : Text)
    (fresh : Bool) (claims : AuthClaims)
    → verify_envelope b e (utf8 secret) binding now 30 cache
      ≡ (c, if fresh then ok claims else err replayed_envelope)
    → verify_device b cache e (id, secret) (binding, now)
      ≡ (c, if fresh then ok id else err (envelope replayed_envelope))
unfolding verify_device
verify_device-ok b cache c e binding id now secret true claims h = rw h refl
verify_device-ok b cache c e binding id now secret false claims h = rw h refl

-- A device whose secret the server has, and which is on the same channel, is authenticated by the
-- proof that it sends, while the clocks differ by 30 s at most and the nonce is fresh; a nonce
-- that was used counts as a replay.
pub authenticate_server-client_proof :
    (b : Blake3) (keys : Devices) (cache : ReplayCache) (secret : Text) (id t now : ℕ)
    (nonce : Nonce) (exporter : Exporter) (binding : List ℕ)
    → get id keys ≡ some secret
    → id ≢ 0
    → id < 256 ^ 8
    → t < 256 ^ 8
    → length nonce ≡ 16
    → exporter nonce ≡ some binding
    → abs_diff now t ≤ 30
    → let (c, fresh) = check_and_insert cache nonce now 30 in
      (proof : List ℕ) × (client_proof b id secret (some t) nonce exporter ≡ ok proof)
      × (authenticate_server b keys cache exporter (some now) (some proof)
          ≡ (c, if fresh then ok id else err (envelope replayed_envelope)))
unfolding client_proof authenticate_server make_envelope
authenticate_server-client_proof b keys cache secret id t now nonce exporter binding g nz bi bt l x
      w =
    let head = envelope_prefix id t nonce in
    let tail = b.keyed (b.hash (utf8 secret)) (head ++ binding) in
    let proof = make_envelope b (utf8 secret) id t nonce binding in
    let fresh = (check_and_insert cache nonce now 30).1 in
    let c = (check_and_insert cache nonce now 30).0 in
    let device =
      envelope_device_id-fields proof id (Fields.well_formed id t nonce tail l (b.keyed_length _ _))
        (Fields.field_device id t nonce tail l bi) nz in
    let ready =
      prepare-fields keys exporter proof binding id now secret nonce device g
        (Fields.field_nonce id t nonce tail l) x in
    let verified =
      verify-make_envelope b (utf8 secret) id t nonce binding now 30 cache l nz bi bt w in
    (
      proof,
      rw (client_proof, ne→not_== id 0 nz, x) refl,
      rw (authenticate_server, ready, verify_prepared)
          (verify_device-ok b cache c proof binding id now secret fresh _ verified),
    )

or_err-ok :
    {A : Type 0} (e : AuthenticationError) (o : Option A) (a : A) → or_err e o ≡ ok a → o ≡ some a
or_err-ok e none a h = cc
or_err-ok e (some x) a h = ground arith

lift_envelope-ok : {A : Type 0} (r : Result AuthError A) (a : A) → lift_envelope r ≡ ok a → r ≡ ok a
lift_envelope-ok (ok x) a h = ground arith
lift_envelope-ok (err e) a h = cc

envelope_device_id-ok :
    (e : List ℕ) (id : ℕ) → envelope_device_id e ≡ ok id → from_be (slice 5 13 e) ≡ id
unfolding envelope_device_id
envelope_device_id-ok e id h =
    let (form, h1) = bail_if-ok (is_malformed e) _ _ id h in
    let (nonzero, h2) = bail_if-ok (from_be (slice 5 13 e) == 0) _ _ id h1 in ground arith

-- What the server has when it comes to the verification.
abbrev IsPrepared :
    Devices → Exporter → Option ℕ → List ℕ → List ℕ × (ℕ × Text) × (List ℕ × ℕ) → Type 0
IsPrepared keys exporter clock proof (e, (id, secret), (binding, now)) =
    (e ≡ proof)
    × (from_be (slice 5 13 proof) ≡ id)
    × (get id keys ≡ some secret)
    × (exporter (slice 21 37 proof) ≡ some binding)
    × (clock ≡ some now)

prepare-IsPrepared :
    (keys : Devices) (exporter : Exporter) (clock : Option ℕ) (proof : List ℕ)
    (p : List ℕ × (ℕ × Text) × (List ℕ × ℕ))
    → prepare keys exporter clock (some proof) ≡ ok p
    → IsPrepared keys exporter clock proof p
unfolding prepare find_device channel
prepare-IsPrepared keys exporter clock proof p h =
    let (device, found, h1) = bind-ok (find_device keys proof) _ p h in
    let (binding, bound, h2) = bind-ok (channel exporter clock proof) _ p h1 in
    let (id, named, f1) = bind-ok (lift_envelope (envelope_device_id proof)) _ device found in
    let (secret, known, f2) = bind-ok (or_err unknown_device (get id keys)) _ device f1 in
    let (key, exported, b1) =
      bind-ok (or_err no_exporter (exporter (slice 21 37 proof))) _ binding bound in
    let (now, timed, b2) = bind-ok (or_err no_clock clock) _ binding b1 in
    let e : (proof, (id, secret), (key, now)) ≡ p = ground arith in
    subst (IsPrepared keys exporter clock proof) e (
      refl,
      envelope_device_id-ok proof id (lift_envelope-ok (envelope_device_id proof) id named),
      or_err-ok unknown_device (get id keys) secret known,
      or_err-ok no_exporter (exporter (slice 21 37 proof)) key exported,
      or_err-ok no_clock clock now timed,
    )

verify_device-inv :
    (b : Blake3) (cache cache' : ReplayCache) (e binding : List ℕ) (d now id : ℕ) (secret : Text)
    → verify_device b cache e (d, secret) (binding, now) ≡ (cache', ok id)
    → (claims : AuthClaims) × (verify_envelope b e (utf8 secret) binding now 30 cache
        ≡ (cache', ok claims))
      × (d ≡ id)
unfolding verify_device
verify_device-inv b cache cache' e binding d now id secret h =
    elim (Result-cases ((verify_envelope b e (utf8 secret) binding now 30 cache).1)) [
      | inr (why, r) ↦ absurd (ground arith)
      | inl (claims, r) ↦ (claims, ground arith, ground arith)
    ]

-- What a device has shown that the server accepts as `id`: the keyring has its secret, and the
-- proof is byte for byte the one that this secret makes for this connection and a nonce that the
-- cache took as fresh, at a time within 30 s of the server's.
abbrev pub IsProven :
    Blake3 → Devices → ReplayCache → Exporter → Option ℕ → List ℕ → ReplayCache → ℕ → Type 0
IsProven b keys cache exporter clock proof cache' id =
    (secret : Text) × (binding : List ℕ) × (now : ℕ) × (claims : AuthClaims) × (get id keys
      ≡ some secret)
    × (clock ≡ some now)
    × (exporter claims.nonce ≡ some binding)
    × (proof ≡ make_envelope b (utf8 secret) id claims.timestamp claims.nonce binding)
    × (id ≢ 0)
    × (abs_diff now claims.timestamp ≤ 30)
    × (check_and_insert cache claims.nonce now 30 ≡ (cache', true))

verified-IsProven :
    (b : Blake3) (keys : Devices) (cache cache' : ReplayCache) (exporter : Exporter)
    (clock : Option ℕ) (proof : List ℕ) (id : ℕ) (secret : Text) (binding : List ℕ) (now : ℕ)
    (claims : AuthClaims)
    → IsBytes proof
    → IsPrepared keys exporter clock proof (proof, (id, secret), (binding, now))
    → verify_envelope b proof (utf8 secret) binding now 30 cache ≡ (cache', ok claims)
    → IsProven b keys cache exporter clock proof cache' id
verified-IsProven b keys cache cache' exporter clock proof id secret binding now claims bytes p h =
    let (made, nonzero, near, stored) =
      verify_envelope_sound b proof (utf8 secret) binding now 30 cache cache' claims bytes h in
    let (checked, also_stored) =
      verify_ok b proof (utf8 secret) binding now 30 cache cache' claims h in
    let passes = authenticate-Passes b proof (utf8 secret) binding now 30 claims checked in
    let same : claims.device_id ≡ id = passes.device ∙ p.1 in
    (
      secret,
      binding,
      now,
      claims,
      p.2,
      p.4,
      ap exporter passes.nonce_field ∙ p.3,
      subst (λ i. proof ≡ make_envelope b (utf8 secret) i claims.timestamp claims.nonce binding)
          same made,
      subst (λ i. i ≢ 0) same nonzero,
      near,
      stored,
    )

refused :
    (b : Blake3) (cache cache' : ReplayCache) (e : AuthenticationError) (id : ℕ)
    → verify_prepared b cache (err e) ≡ (cache', ok id)
    → ⊥
unfolding verify_prepared
refused b cache cache' e id h = ground arith

-- The server accepts a device only if the device has shown what `IsProven` says.
pub authenticate_server-IsProven :
    (b : Blake3) (keys : Devices) (cache cache' : ReplayCache) (exporter : Exporter)
    (clock : Option ℕ) (proof : List ℕ) (id : ℕ)
    → IsBytes proof
    → authenticate_server b keys cache exporter clock (some proof) ≡ (cache', ok id)
    → IsProven b keys cache exporter clock proof cache' id
unfolding authenticate_server verify_prepared
authenticate_server-IsProven b keys cache cache' exporter clock proof id bytes h =
    elim (Result-cases (prepare keys exporter clock (some proof))) [
      | inr (e, r) ↦ absurd (
          refused b cache cache' e id
            (subst (λ q. verify_prepared b cache q ≡ (cache', ok id)) r h))
      | inl ((e, (d, secret), (binding, now)), r) ↦
          let p = prepare-IsPrepared keys exporter clock proof (e, (d, secret), (binding, now)) r in
          let (claims, verified, same) =
            verify_device-inv b cache cache' e binding d now id secret
              (subst (λ q. verify_prepared b cache q ≡ (cache', ok id)) r h) in
          let q =
            subst (λ x. IsPrepared keys exporter clock proof (x, (d, secret), (binding, now))) (p.0)
              p in
          verified-IsProven b keys cache cache' exporter clock proof id secret binding now claims
            bytes
            (subst (λ i. IsPrepared keys exporter clock proof (proof, (i, secret), (binding, now)))
              same q)
            (subst
              (λ x. verify_envelope b x (utf8 secret) binding now 30 cache ≡ (cache', ok claims))
              (p.0) verified)
    ]
