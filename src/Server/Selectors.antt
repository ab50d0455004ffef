-- ===== src/Server/Selectors.antt =====
-- Every device of the keyring is found by its selector.
use smart_fec_tunnel.Base.{
  ℕ, ◌≡◌, refl, sym, subst, ◌∙◌, false, ◌&&◌, ◌||◌, ltb, ◌==◌, Bool-cases, inl, inr, Option, none,
  some, List, [], ◌∷◌, length, ok, bail_if-ok, arith,
}
use smart_fec_tunnel.Base.Bytes.{bytes_eq, bytes_eq→eq, bytes_eq_refl, be}
use smart_fec_tunnel.Base.Crypto.{Blake3, Aead}
use smart_fec_tunnel.Base.Maps.{
  nat_key, byte_string_key, get, contains_key, contains_key-get, insert, get-insert,
}
use smart_fec_tunnel.Base.Text.{Text, is_empty}
use smart_fec_tunnel.Wire.{
  magic, Frame, version_v3, encode_wire, decode_server_frame, v3_selector_prefix,
}
use smart_fec_tunnel.Wire.Fields.{IsFrame}
use smart_fec_tunnel.Wire.V3.{decode_server_frame-encode_wire}
use smart_fec_tunnel.Keyring.{Keys}
use smart_fec_tunnel.Server.{Selectors, add_selectors, server, is_none}

taken :
    (p q : List ℕ) (table : Selectors) (v : ℕ × List ℕ)
    → get q table ≡ none
    → get p table ≡ some v
    → p ≡ q
    → ⊥
taken p q table v absent g e = cc (subst (λ x. get x table ≡ some v) e g, absent)

module _ (b : Blake3) where
  -- What is in the table stays.
  add_selectors_keeps :
      (keys : Keys b) (table out : Selectors) (p : List ℕ) (v : ℕ × List ℕ)
      → add_selectors b keys table ≡ ok out
      → get p table ≡ some v
      → get p out ≡ some v
  unfolding add_selectors
  add_selectors_keeps [] table out p v h g = ground arith
  add_selectors_keeps ((id, key) ∷ rest) table out p v h g =
      let q = v3_selector_prefix b id in
      let (free, h1) = bail_if-ok (contains_key q table) _ _ out h in
      let absent = contains_key-get q table free in
      add_selectors_keeps rest (insert q (id, key) table) out p v h1 (
        get-insert p q (id, key) table ∙ (elim (Bool-cases (bytes_eq p q)) [
          | inl same ↦ absurd (taken p q table v absent g (bytes_eq→eq p q same))
          | inr other ↦ rw other g
        ]))

  add_selectors-get :
      (keys : Keys b) (table out : Selectors) (id : ℕ) (key : List ℕ)
      → add_selectors b keys table ≡ ok out
      → get id keys ≡ some key
      → get (v3_selector_prefix b id) out ≡ some (id, key)
  unfolding add_selectors get
  add_selectors-get [] table out id key h g = cc
  add_selectors-get ((j, k) ∷ rest) table out id key h g =
      let q = v3_selector_prefix b j in
      let (free, h1) = bail_if-ok (contains_key q table) _ _ out h in
      elim (Bool-cases (id == j)) [
        | inl here ↦
            let i : id ≡ j = ground arith in
            let s : k ≡ key = ground arith in
            let kept =
              add_selectors_keeps rest (insert q (j, k) table) out q (j, k) h1
                (get-insert q q (j, k) table ∙ (rw (bytes_eq_refl q) refl)) in
            subst (λ n. get (v3_selector_prefix b n) out ≡ some (n, key)) (sym i)
              (subst (λ x. get q out ≡ some (j, x)) s kept)
        | inr there ↦ add_selectors-get rest (insert q (j, k) table) out id key h1 (ground arith)
      ]

  -- A server that starts opens what any device of its keyring seals with its key: it finds the
  -- device and reads the frame back, unless the device's selector spells the magic of the legacy
  -- formats.
  pub server-encode_wire :
      (a : Aead) (legacy_secret : Option Text) (keys : Keys b) (max_sessions idle : ℕ)
      (selectors : Selectors) (f : Frame) (key nonce suffix buf : List ℕ)
      → server b legacy_secret (some (ok keys)) max_sessions idle ≡ ok selectors
      → get f.key_id keys ≡ some key
      → IsFrame f
      → f.version ≡ version_v3
      → length nonce ≡ 24
      → length suffix ≡ 4
      → encode_wire b a f key nonce suffix ≡ ok buf
      → bytes_eq (v3_selector_prefix b f.key_id) (be 4 magic) ≡ false
      → decode_server_frame b a buf selectors ≡ ok (f, key)
  unfolding server
  server-encode_wire a legacy_secret keys max_sessions idle selectors f key nonce suffix buf started
        known r v ln ls sealed plain =
      let (s1, h1) =
        bail_if-ok (max_sessions == 0 || ltb 65536 max_sessions) _ _ selectors started in
      let (s2, h2) = bail_if-ok (ltb idle 10 || ltb 86400 idle) _ _ selectors h1 in
      let (s3, h3) = bail_if-ok (is_none legacy_secret && is_empty keys) _ _ selectors h2 in
      decode_server_frame-encode_wire b a f key nonce suffix buf selectors r v ln ls sealed
        (add_selectors-get keys [] selectors f.key_id key h3 known) plain
