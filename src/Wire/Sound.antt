-- ===== src/Wire/Sound.antt =====
-- The encrypted format carries a frame and nothing more: the plaintext of an accepted datagram is,
-- byte for byte, what `encode_wire` writes for the frame that is returned.
use smart_fec_tunnel.Base.{
  ℕ, suc, ◌+◌, ◌/◌, ◌%◌, ◌≤◌, ◌<◌, ◌≡◌, refl, sym, subst, ap, ◌∙◌, List, ◌∷◌, ◌++◌, length, drop,
  length-drop, cut, ok, arith,
}
use smart_fec_tunnel.Base.Bytes.{be, from_be, slice, byte_at, IsBytes, be-slice, byte_cut}
use smart_fec_tunnel.Base.Crypto.{Blake3, Aead}
use smart_fec_tunnel.Wire.{Frame, version_v3, fields, frame_at, decode_inner}

be_wrap : (v : ℕ) → be 2 (v % 65536) ≡ be 2 v
unfolding be
be_wrap v =
    let hi : v % 65536 / 256 % 256 ≡ v / 256 % 256 = omega arith in
    let lo : v % 65536 % 256 ≡ v % 256 = omega arith in rw (hi, lo)

-- The cuts of a plaintext.
plaintext_cuts :
    (xs : List ℕ)
    → 31 ≤ length xs
    → xs
      ≡ byte_at 0 xs
        ∷ (slice 1 9 xs
            ++ (slice 9 17 xs
                ++ (slice 17 25 xs
                    ++ (slice 25 27 xs
                        ++ byte_at 27 xs ∷ byte_at 28 xs ∷ (slice 29 31 xs ++ drop 31 xs)))))
plaintext_cuts xs h =
    let one : (i : ℕ) → i < 31 → drop i xs ≡ byte_at i xs ∷ drop (suc i) xs =
      λ i l. byte_cut i xs (omega arith) in
    one 0 (omega arith)
    ∙ ap (◌∷◌ (byte_at 0 xs)) (
        cut 1 9 xs (omega arith)
        ∙ ap (◌++◌ (slice 1 9 xs)) (
            cut 9 17 xs (omega arith)
            ∙ ap (◌++◌ (slice 9 17 xs)) (
                cut 17 25 xs (omega arith)
                ∙ ap (◌++◌ (slice 17 25 xs)) (
                    cut 25 27 xs (omega arith)
                    ∙ ap (◌++◌ (slice 25 27 xs)) (
                        one 27 (omega arith)
                        ∙ ap (◌∷◌ (byte_at 27 xs)) (
                            one 28 (omega arith)
                            ∙ ap (◌∷◌ (byte_at 28 xs)) (cut 29 31 xs (omega arith))))))))

module _ (b : Blake3) (a : Aead) where
  inner_inversion :
      (key_id : ℕ) (inner : List ℕ) (f : Frame)
      → decode_inner b a key_id inner ≡ ok f
      → (31 + from_be (slice 29 31 inner) ≡ length inner)
        × (frame_at version_v3 key_id (byte_at 0 inner) 1 (drop 31 inner) inner ≡ f)
  unfolding decode_inner
  inner_inversion key_id inner f h = ground arith

  fields-frame_at :
      (key_id : ℕ) (inner : List ℕ)
      → IsBytes inner
      → 31 + from_be (slice 29 31 inner) ≡ length inner
      → byte_at 0 inner
          ∷ fields (frame_at version_v3 key_id (byte_at 0 inner) 1 (drop 31 inner) inner)
        ≡ inner
  unfolding fields frame_at
  fields-frame_at key_id inner bytes h =
      let l : 31 ≤ length inner = omega arith in
      let n : length (drop 31 inner) ≡ from_be (slice 29 31 inner) =
        omega (arith, length-drop 31 inner) in
      rw
        (
          be_wrap (length (drop 31 inner)),
          n,
          be-slice 1 9 inner (omega arith) (omega arith) bytes,
          be-slice 9 17 inner (omega arith) (omega arith) bytes,
          be-slice 17 25 inner (omega arith) (omega arith) bytes,
          be-slice 25 27 inner (omega arith) (omega arith) bytes,
          be-slice 29 31 inner (omega arith) (omega arith) bytes,
        )
        (sym (plaintext_cuts inner l))

  -- The plaintext that `decode_v3` accepts is the encoding of the frame that it returns.
  pub decode_inner_exact :
      (key_id : ℕ) (inner : List ℕ) (f : Frame)
      → IsBytes inner
      → decode_inner b a key_id inner ≡ ok f
      → (f.kind ∷ fields f ≡ inner) × (f.version ≡ version_v3) × (f.key_id ≡ key_id)
  unfolding frame_at
  decode_inner_exact key_id inner f bytes h =
      let (l, e) = inner_inversion key_id inner f h in
      subst (λ g. (g.kind ∷ fields g ≡ inner) × (g.version ≡ version_v3) × (g.key_id ≡ key_id)) e
        (fields-frame_at key_id inner bytes l, refl, refl)
