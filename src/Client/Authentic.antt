-- ===== src/Client/Authentic.antt =====
-- Only the server's own frames, and each of them once, reach the client's applications.
use smart_fec_tunnel.Base.{
  ℕ, ◌+◌, ◌-◌, ◌≡◌, refl, sym, ap, subst, ◌∙◌, ◌⊎◌, inl, inr, true, false, not, ◌&&◌, ltb, ◌==◌,
  Bool-cases, Result-cases, bind-ok, bail_if-ok, Option, none, some, List, [], length, take, drop,
  ok, arith,
}
use smart_fec_tunnel.Base.Bytes.{from_be, byte_at, bytes_eq, slice}
use smart_fec_tunnel.Base.Crypto.{Blake3, Aead}
use smart_fec_tunnel.Sequence.{observe_seq}
use smart_fec_tunnel.Wire.{
  Frame, magic, tag, kind_report, version_v3, frame_at, layout, decode, decode_v3,
  starts_with_magic, decode_client_frame,
}
use smart_fec_tunnel.Fec.{ReedSolomon}
use smart_fec_tunnel.Sessions.Worker.{frame-refused}
use smart_fec_tunnel.Client.{
  Client, ClientSent, nothing, is_foreign, take_report, take_frame, take_datagram, to_app,
}

layout-ok :
    (buf : List ℕ) (l : ℕ × ℕ × ℕ) → layout buf ≡ ok l → (byte_at 4 buf == version_v3) ≡ false
unfolding layout
layout-ok buf l h = ground arith

no_datagrams : (peer : Option ℕ) → record { frames = []; datagrams = to_app peer [] } ≡ nothing
no_datagrams none = refl
no_datagrams (some p) = refl

module _ (code : ReedSolomon) where
  -- Nothing reaches an application or the encoder, and no group or datagram in progress changes.
  abbrev pub IsIgnored : Client → Client × ClientSent → Type 0
  IsIgnored c (next, sent) =
      (sent ≡ nothing)
      × (next.encoder ≡ c.encoder)
      × (next.decoder.groups ≡ c.decoder.groups)
      × (next.decoder.packets ≡ c.decoder.packets)

  take_frame-foreign :
      (c : Client) (now : ℕ) (f : Frame)
      → is_foreign c f ≡ true
      → take_frame code c now f ≡ (c, nothing)
  unfolding take_frame
  take_frame-foreign c now f h = rw (take_frame, h) refl

  take_frame-old :
      (c : Client) (now : ℕ) (f : Frame)
      → (observe_seq c.decoder.window f.sequence).1 ≡ false
      → IsIgnored c (take_frame code c now f)
  unfolding take_frame take_report
  take_frame-old c now f old = elim (Bool-cases (is_foreign c f)) [
    | inl foreign ↦ rw (take_frame, foreign) (refl, refl, refl, refl)
    | inr own ↦ elim (Bool-cases (f.kind == kind_report && length f.payload == 4)) [
      | inl loss ↦ rw (take_frame, own, loss, take_report, old) (refl, refl, refl, refl)
      | inr other ↦
          let (out, groups, packets) = frame-refused code c.decoder now f old in
          rw (take_frame, own, other)
            (
              ap (λ ds. record { frames = []; datagrams = to_app c.app_peer ds }) out
                  ∙ no_datagrams c.app_peer,
              refl,
              groups,
              packets,
            )
    ]
  ]

module _ (b : Blake3) where
  -- A frame of the legacy format is not V3.
  decode-version :
      (buf key : List ℕ) (f : Frame) → decode b buf key ≡ ok f → (f.version == version_v3) ≡ false
  unfolding decode frame_at
  decode-version buf key f h =
      let (long, h1) = bail_if-ok (ltb (length buf) (6 + tag)) _ _ f h in
      let ((header, key_id, offset), shape, h2) = bind-ok (layout buf) _ f h1 in
      let old = layout-ok buf (header, key_id, offset) shape in
      let (s1, h3) = bail_if-ok (ltb (length buf) (header + tag)) _ _ f h2 in
      let (s2, h4) =
        bail_if-ok
          (not (
            bytes_eq (take tag (b.keyed key (take (length buf - tag) buf)))
              (drop (length buf - tag) buf)))
          _ _ f h3 in
      let (s3, h5) = bail_if-ok (not (from_be (slice 0 4 buf) == magic)) _ _ f h4 in
      let (s4, h6) =
        bail_if-ok
          (not (header + from_be (slice (offset + 28) (offset + 30) buf) + tag == length buf)) _ _ f
          h5 in
      let e : frame_at (byte_at 4 buf) key_id (byte_at 5 buf) offset
            (slice header (header + from_be (slice (offset + 28) (offset + 30) buf)) buf) buf
          ≡ f =
        ground arith in
      subst (λ (g : Frame). (g.version == version_v3) ≡ false) e old

  module _ (a : Aead) (code : ReedSolomon) where
    -- On a client of V3, a datagram from the network reaches an application, the encoder, a group
    -- or a datagram in progress only if it is a V3 frame that the client's key opens, of the
    -- client's session, with a sequence number that was not seen; a datagram in the legacy format
    -- reaches none, though its authentication may be right.
    pub take_datagram-authentic :
        (c : Client) (now : ℕ) (bytes : List ℕ)
        → c.version ≡ version_v3
        → IsIgnored code c (take_datagram b a code c now bytes)
          ⊎ ((f : Frame) × (starts_with_magic b a bytes ≡ false)
              × (decode_v3 b a bytes c.key_id c.key ≡ ok f)
              × (f.session ≡ c.session)
              × ((observe_seq c.decoder.window f.sequence).1 ≡ true))
    unfolding take_datagram decode_client_frame
    take_datagram-authentic c now bytes v = elim (Bool-cases (starts_with_magic b a bytes)) [
      | inl legacy ↦ elim (Result-cases (decode b bytes c.key)) [
        | inr (e, r) ↦
            inl (rw (take_datagram, decode_client_frame, legacy, r) (refl, refl, refl, refl))
        | inl (f, r) ↦
            let old = decode-version bytes c.key f r in
            inl (
              rw (take_datagram, decode_client_frame, legacy, r)
                (subst (IsIgnored code c) (sym (take_frame-foreign code c now f (ground arith)))
                  (refl, refl, refl, refl)))
      ]
      | inr modern ↦ elim (Result-cases (decode_v3 b a bytes c.key_id c.key)) [
        | inr (e, r) ↦
            inl (rw (take_datagram, decode_client_frame, modern, r) (refl, refl, refl, refl))
        | inl (f, r) ↦ elim (Bool-cases (f.session == c.session)) [
          | inr foreign ↦ inl (
              rw (take_datagram, decode_client_frame, modern, r)
                (subst (IsIgnored code c) (sym (take_frame-foreign code c now f (ground arith)))
                  (refl, refl, refl, refl)))
          | inl own ↦ elim (Bool-cases ((observe_seq c.decoder.window f.sequence).1)) [
            | inr old ↦ inl (
                rw (take_datagram, decode_client_frame, modern, r)
                  (take_frame-old code c now f old))
            | inl fresh ↦ inr (f, modern, r, ground arith, fresh)
          ]
        ]
      ]
    ]
