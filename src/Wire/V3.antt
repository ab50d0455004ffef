-- ===== src/Wire/V3.antt =====
-- The encrypted format: what is sent is read back, and nothing else is.
use smart_fec_tunnel.Base.{
  ℕ, ◌+◌, ◌≤◌, ◌≡◌, sym, subst, ap, ◌∙◌, false, inl, inr, Option-cases, some, List, ◌∷◌, ◌++◌,
  append_assoc, length, take, drop, length-append, length-take, take-prefix, drop-prefix,
  le→not_ltb, ok, arith,
}
use smart_fec_tunnel.Base.Bytes.{be, from_be, slice, byte_at, bytes_eq, bytes_eq_refl}
use smart_fec_tunnel.Base.Maps.{byte_string_key, get}
use smart_fec_tunnel.Base.Crypto.{Blake3, Aead}
use smart_fec_tunnel.Wire.{
  Frame, version_v3, fields, frame_at, encode_wire, decode_inner, decode_v3, decode_server_frame,
  v3_selector_prefix, magic, starts_with_magic,
}
use smart_fec_tunnel.Wire.Fields
use smart_fec_tunnel.Wire.Fields.{IsFrame}

-- The four parts of a V3 datagram, found by their lengths.
envelope_parts :
    (p s n c : List ℕ)
    → length p ≡ 4
    → length s ≡ 4
    → length n ≡ 24
    → let buf = p ++ (s ++ (n ++ c)) in
      (take 4 buf ≡ p) × (slice 8 32 buf ≡ n) × (drop 32 buf ≡ c) × (length buf ≡ 32 + length c)
envelope_parts p s n c hp hs hn =
    let join : p ++ (s ++ (n ++ c)) ≡ (p ++ s) ++ (n ++ c) = sym (append_assoc p s (n ++ c)) in
    let l8 : length (p ++ s) ≡ 8 = omega (arith, length-append p s) in
    let join2 : p ++ (s ++ (n ++ c)) ≡ ((p ++ s) ++ n) ++ c =
      join ∙ sym (append_assoc (p ++ s) n c) in
    let l32 : length ((p ++ s) ++ n) ≡ 32 = omega (arith, length-append (p ++ s) n) in
    let tail : drop 8 (p ++ (s ++ (n ++ c))) ≡ n ++ c =
      ap (drop 8) join ∙ drop-prefix 8 (p ++ s) (n ++ c) l8 in
    (
      take-prefix 4 p (s ++ (n ++ c)) hp,
      ap (take 24) tail ∙ take-prefix 24 n c hn,
      ap (drop 32) join2 ∙ drop-prefix 32 ((p ++ s) ++ n) c l32,
      ap length join2 ∙ omega (arith, length-append ((p ++ s) ++ n) c),
    )

module _ (b : Blake3) (a : Aead) where
  length-v3_selector_prefix : (key_id : ℕ) → length (v3_selector_prefix b key_id) ≡ 4
  unfolding v3_selector_prefix
  length-v3_selector_prefix key_id = omega (arith, length-take 4 (b.hash _), b.hash_length _)

  decode_inner_lem :
      (key_id : ℕ) (inner : List ℕ)
      → 31 + from_be (slice 29 31 inner) ≡ length inner
      → decode_inner b a key_id inner
        ≡ ok (frame_at version_v3 key_id (byte_at 0 inner) 1 (drop 31 inner) inner)
  unfolding decode_inner
  decode_inner_lem key_id inner h = ground arith

  decode_inner-fields :
      (f : Frame)
      → IsFrame f
      → f.version ≡ version_v3
      → decode_inner b a f.key_id (f.kind ∷ fields f) ≡ ok f
  decode_inner-fields f r v =
      decode_inner_lem f.key_id (f.kind ∷ fields f)
        (omega (arith, Fields.payload_length f r, Fields.length-fields f))
      ∙ ap ok (
          subst
            (λ w.
              frame_at w f.key_id f.kind 1 (drop 31 (f.kind ∷ fields f)) (f.kind ∷ fields f) ≡ f)
            v
            (subst (λ p. frame_at f.version f.key_id f.kind 1 p (f.kind ∷ fields f) ≡ f)
              (sym (Fields.payload_slice f)) (Fields.frame_at-fields f r)))

  decode_v3_lem :
      (buf inner key : List ℕ) (key_id : ℕ)
      → 79 ≤ length buf
      → take 4 buf ≡ v3_selector_prefix b key_id
      → a.decrypt key (slice 8 32 buf) (drop 32 buf) ≡ some inner
      → decode_v3 b a buf key_id key ≡ decode_inner b a key_id inner
  unfolding decode_v3
  decode_v3_lem buf inner key key_id l p d =
      rw (le→not_ltb (length buf) 79 l, p, bytes_eq_refl (v3_selector_prefix b key_id), d)

  encode_wire_lem :
      (f : Frame) (key nonce suffix buf : List ℕ)
      → f.version ≡ version_v3
      → encode_wire b a f key nonce suffix ≡ ok buf
      → (c : List ℕ) × (a.encrypt key nonce (f.kind ∷ fields f) ≡ some c)
        × (buf ≡ v3_selector_prefix b f.key_id ++ (suffix ++ (nonce ++ c)))
  unfolding encode_wire
  encode_wire_lem f key nonce suffix buf v h = ground arith

  -- A V3 frame that `encode_wire` could encrypt is read back by `decode_v3` with the same key and
  -- key id, whatever random nonce and suffix were drawn.
  pub decode_v3-encode_wire :
      (f : Frame) (key nonce suffix buf : List ℕ)
      → IsFrame f
      → f.version ≡ version_v3
      → length nonce ≡ 24
      → length suffix ≡ 4
      → encode_wire b a f key nonce suffix ≡ ok buf
      → decode_v3 b a buf f.key_id key ≡ ok f
  decode_v3-encode_wire f key nonce suffix buf r v ln ls h =
      let (c, enc, e) = encode_wire_lem f key nonce suffix buf v h in
      let (p4, n24, rest, len) =
        envelope_parts (v3_selector_prefix b f.key_id) suffix nonce c
          (length-v3_selector_prefix f.key_id) ls ln in
      let long : length c ≡ length (f.kind ∷ fields f) + 16 =
        a.ciphertext_length key nonce (f.kind ∷ fields f) c enc in
      rw e (
        decode_v3_lem _ (f.kind ∷ fields f) key f.key_id
          (omega (arith, len, long, Fields.length-fields f)) p4
          (rw (n24, rest) (a.decrypt-encrypt key nonce (f.kind ∷ fields f) c enc))
        ∙ decode_inner-fields f r v)

  -- The server finds the device by the selector: with the device's key registered under its
  -- prefix, it reads back the frame that the device sent and names the device's key. The prefix
  -- must not spell the magic of the plain formats.
  pub decode_server_frame-encode_wire :
      (f : Frame) (key nonce suffix buf : List ℕ) (selectors : List (List ℕ × (ℕ × List ℕ)))
      → IsFrame f
      → f.version ≡ version_v3
      → length nonce ≡ 24
      → length suffix ≡ 4
      → encode_wire b a f key nonce suffix ≡ ok buf
      → get (v3_selector_prefix b f.key_id) selectors ≡ some (f.key_id, key)
      → bytes_eq (v3_selector_prefix b f.key_id) (be 4 magic) ≡ false
      → decode_server_frame b a buf selectors ≡ ok (f, key)
  unfolding decode_server_frame
  decode_server_frame-encode_wire f key nonce suffix buf selectors r v ln ls h known plain =
      let (c, enc, e) = encode_wire_lem f key nonce suffix buf v h in
      let (p4, n24, rest, len) =
        envelope_parts (v3_selector_prefix b f.key_id) suffix nonce c
          (length-v3_selector_prefix f.key_id) ls ln in
      let front : take 4 buf ≡ v3_selector_prefix b f.key_id = rw e p4 in
      let long : 8 ≤ length buf = rw e (omega (arith, len)) in
      rw (
        front,
        plain,
        le→not_ltb (length buf) 8 long,
        known,
        decode_v3-encode_wire f key nonce suffix buf r v ln ls h,
      )

  decode_v3_identity :
      (buf key : List ℕ) (key_id : ℕ) (f : Frame)
      → decode_v3 b a buf key_id key ≡ ok f
      → (f.version ≡ version_v3) × (f.key_id ≡ key_id)
  unfolding decode_v3 decode_inner frame_at
  decode_v3_identity buf key key_id f h = ground arith

  server_inversion :
      (bytes : List ℕ) (selectors : List (List ℕ × (ℕ × List ℕ))) (f : Frame) (key : List ℕ)
      → decode_server_frame b a bytes selectors ≡ ok (f, key)
      → (id : ℕ) × (starts_with_magic b a bytes ≡ false)
        × (get (take 4 bytes) selectors ≡ some (id, key))
        × (decode_v3 b a bytes id key ≡ ok f)
  unfolding decode_server_frame
  server_inversion bytes selectors f key h = elim (Option-cases (get (take 4 bytes) selectors)) [
    | inl missing ↦ absurd (ground arith)
    | inr (v, known) ↦ (v.0, ground arith, ground arith, ground arith)
  ]

  -- Every datagram that starts with the magic of the plain formats is refused by the server, and
  -- every accepted one is a V3 frame that its registered device key decrypts: the frame carries
  -- that device's key id and the version V3.
  pub server_accepts_v3_only :
      (bytes : List ℕ) (selectors : List (List ℕ × (ℕ × List ℕ))) (f : Frame) (key : List ℕ)
      → decode_server_frame b a bytes selectors ≡ ok (f, key)
      → (starts_with_magic b a bytes ≡ false)
        × (get (take 4 bytes) selectors ≡ some (f.key_id, key))
        × (f.version ≡ version_v3)
        × (decode_v3 b a bytes f.key_id key ≡ ok f)
  server_accepts_v3_only bytes selectors f key h =
      let (id, plain, known, read) = server_inversion bytes selectors f key h in
      let (v, i) = decode_v3_identity bytes key id f read in
      (
        plain,
        subst (λ k. get (take 4 bytes) selectors ≡ some (k, key)) (sym i) known,
        v,
        subst (λ k. decode_v3 b a bytes k key ≡ ok f) (sym i) read,
      )
