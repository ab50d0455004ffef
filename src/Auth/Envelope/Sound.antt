-- ===== src/Auth/Envelope/Sound.antt =====
-- What an accepted envelope proves, and what a refused one leaves behind.
use smart_fec_tunnel.Base.{
  ℕ, ◌≤◌, ◌≡◌, ◌≢◌, refl, sym, ap, subst, ◌∙◌, Bool, true, false, not, ltb, ◌==◌, List, [], ◌∷◌,
  ◌++◌, length, drop, length-take, length-drop, ok, err, ◌>>=◌, ◌>>◌, bail_if, cut, append_assoc,
  arith,
}
use smart_fec_tunnel.Base.Bytes.{
  from_be, slice, byte_at, bytes_eq, bytes_eq→eq, IsBytes, be-slice, slice_byte,
}
use smart_fec_tunnel.Base.Crypto.{Blake3}
use smart_fec_tunnel.Auth.Cache.{Nonce, ReplayCache, check_and_insert}
use smart_fec_tunnel.Auth.Envelope.{
  AuthError, AuthClaims, invalid_envelope, zero_device, expired_envelope, invalid_proof,
  replayed_envelope, magic, version, envelope_prefix, is_malformed, envelope_device_id,
  make_envelope, authenticate, abs_diff, verify_envelope,
}
use smart_fec_tunnel.Auth.Envelope.Fields

-- What the checks establish of an envelope.
pub record Passes (b : Blake3) (e secret exporter : List ℕ) (now window_secs : ℕ) (c : AuthClaims)
    : Type 0 where
  pub form : is_malformed e ≡ false
  pub device : c.device_id ≡ from_be (slice 5 13 e)
  pub nonzero : c.device_id ≢ 0
  pub time : c.timestamp ≡ from_be (slice 13 21 e)
  pub window : abs_diff now c.timestamp ≤ window_secs
  pub nonce_field : c.nonce ≡ slice 21 37 e
  pub proof : drop 37 (make_envelope b secret c.device_id c.timestamp c.nonce exporter) ≡ drop 37 e

invert :
    (m z l : Bool) (p : ℕ → Bool) (id : ℕ) (f : ℕ → AuthClaims) (c : AuthClaims)
    → (do
      bail_if m invalid_envelope
      i ← (do bail_if m invalid_envelope; bail_if z zero_device; ok id)
      bail_if l expired_envelope
      bail_if (not (p i)) invalid_proof
      ok (f i))
      ≡ ok c
    → (m ≡ false) × (z ≡ false) × (l ≡ false) × (p id ≡ true) × (f id ≡ c)
invert m z l p id f c h = ground arith

pub authenticate-Passes :
    (b : Blake3) (e secret exporter : List ℕ) (now window_secs : ℕ) (c : AuthClaims)
    → authenticate b e secret exporter now window_secs ≡ ok c
    → Passes b e secret exporter now window_secs c
unfolding authenticate envelope_device_id
authenticate-Passes b e secret exporter now window_secs c h =
    let id = from_be (slice 5 13 e) in
    let t = from_be (slice 13 21 e) in
    let n = slice 21 37 e in
    let proof : ℕ → Bool =
      λ i. bytes_eq (drop 37 (make_envelope b secret i t n exporter)) (drop 37 e) in
    let claims : ℕ → AuthClaims = λ i. record { device_id = i; timestamp = t; nonce = n } in
    let (m, z, l, p, q) =
      invert (is_malformed e) (id == 0) (ltb window_secs (abs_diff now t)) proof id claims c h in
    subst (Passes b e secret exporter now window_secs) q (record {
      form = m;
      device = refl;
      nonzero = ground arith;
      time = refl;
      window = ground arith;
      nonce_field = refl;
      proof = bytes_eq→eq _ _ p;
    })

well_formed_lem :
    (e : List ℕ)
    → is_malformed e ≡ false
    → (length e ≡ 69) × (slice 0 4 e ≡ magic) × (byte_at 4 e ≡ version)
unfolding is_malformed
well_formed_lem e h = ground (arith, bytes_eq→eq (slice 0 4 e) magic)

-- A well-formed envelope is the prefix of its own fields and its proof.
fields_of_envelope :
    (e : List ℕ)
    → IsBytes e
    → is_malformed e ≡ false
    → e
      ≡ envelope_prefix (from_be (slice 5 13 e)) (from_be (slice 13 21 e)) (slice 21 37 e)
        ++ drop 37 e
unfolding envelope_prefix
fields_of_envelope e bytes h =
    let (l, m, v) = well_formed_lem e h in
    let s1 = slice 5 13 e in
    let s2 = slice 13 21 e in
    let s3 = slice 21 37 e in
    let p0 : e ≡ magic ++ drop 4 e = cut 0 4 e (omega arith) ∙ ap (λ s. s ++ drop 4 e) m in
    let p1 : drop 4 e ≡ version ∷ drop 5 e =
      cut 4 5 e (omega arith)
      ∙ ap (λ s. s ++ drop 5 e) (slice_byte 4 e (omega arith) ∙ ap (λ x. x ∷ []) v) in
    let rest : drop 5 e ≡ s1 ++ (s2 ++ (s3 ++ drop 37 e)) =
      cut 5 13 e (omega arith)
      ∙ ap (◌++◌ s1) (cut 13 21 e (omega arith) ∙ ap (◌++◌ s2) (cut 21 37 e (omega arith))) in
    rw
      (
        be-slice 5 13 e (omega arith) (omega arith) bytes,
        be-slice 13 21 e (omega arith) (omega arith) bytes,
        append_assoc s1,
        append_assoc s2,
      )
      (p0 ∙ ap (◌++◌ magic) (p1 ∙ ap (◌∷◌ version) rest))

pub verify_ok :
    (b : Blake3) (e secret exporter : List ℕ) (now window_secs : ℕ) (cache cache' : ReplayCache)
    (c : AuthClaims)
    → verify_envelope b e secret exporter now window_secs cache ≡ (cache', ok c)
    → (authenticate b e secret exporter now window_secs ≡ ok c)
      × (check_and_insert cache c.nonce now window_secs ≡ (cache', true))
unfolding verify_envelope
verify_ok b e secret exporter now window_secs cache cache' c h = ground arith

prefix_split :
    (b : Blake3) (e secret exporter : List ℕ) (id t : ℕ) (n : Nonce)
    → length n ≡ 16
    → e ≡ envelope_prefix id t n ++ drop 37 e
    → drop 37 (make_envelope b secret id t n exporter) ≡ drop 37 e
    → e ≡ make_envelope b secret id t n exporter
unfolding make_envelope
prefix_split b e secret exporter id t n l split proof =
    split
    ∙ ap (◌++◌ (envelope_prefix id t n)) (
        sym proof
        ∙ Fields.field_mac id t n (b.keyed (b.hash secret) (envelope_prefix id t n ++ exporter)) l)

-- An accepted envelope is, byte for byte, the proof that the device's secret makes for this
-- channel and the returned claims: the device is not zero, the clocks differ by the window at
-- most, and the cache had not refused the nonce.
pub verify_envelope_sound :
    (b : Blake3) (e secret exporter : List ℕ) (now window_secs : ℕ) (cache cache' : ReplayCache)
    (c : AuthClaims)
    → IsBytes e
    → verify_envelope b e secret exporter now window_secs cache ≡ (cache', ok c)
    → (e ≡ make_envelope b secret c.device_id c.timestamp c.nonce exporter)
      × (c.device_id ≢ 0)
      × (abs_diff now c.timestamp ≤ window_secs)
      × (check_and_insert cache c.nonce now window_secs ≡ (cache', true))
verify_envelope_sound b e secret exporter now window_secs cache cache' c bytes h =
    let (checked, stored) = verify_ok b e secret exporter now window_secs cache cache' c h in
    let p = authenticate-Passes b e secret exporter now window_secs c checked in
    let (l, _, _) = well_formed_lem e p.form in
    let split : e ≡ envelope_prefix c.device_id c.timestamp c.nonce ++ drop 37 e =
      rw (p.device, p.time, p.nonce_field) (fields_of_envelope e bytes p.form) in
    let sixteen : length c.nonce ≡ 16 =
      rw p.nonce_field (omega (arith, length-take 16 (drop 21 e), length-drop 21 e)) in
    (
      prefix_split b e secret exporter c.device_id c.timestamp c.nonce sixteen split p.proof,
      p.nonzero,
      p.window,
      stored,
    )

-- Only an authentic envelope reaches the cache: any refusal but that of a replay leaves the cache
-- as it was.
pub refused_keeps_cache :
    (b : Blake3) (e secret exporter : List ℕ) (now window_secs : ℕ) (cache cache' : ReplayCache)
    (x : AuthError)
    → verify_envelope b e secret exporter now window_secs cache ≡ (cache', err x)
    → x ≢ replayed_envelope
    → cache' ≡ cache
unfolding verify_envelope
refused_keeps_cache b e secret exporter now window_secs cache cache' x h k = ground arith
