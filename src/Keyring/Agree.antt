-- ===== src/Keyring/Agree.antt =====
-- The two readers of keyrings agree, and what they accept is a keyring.
use smart_fec_tunnel.Base.{
  bind-ok, ℕ, suc, ◌+◌, ◌≤◌, ◌≡◌, refl, sym, ap, subst, ◌↔◌, Option, none, some, List, [], ◌∷◌,
  length, ok, arith,
}
use smart_fec_tunnel.Base.Crypto.{Blake3}
use smart_fec_tunnel.Base.Maps.{nat_key, contains_key, insert, length-insert}
use smart_fec_tunnel.Base.Text.{Text, is_empty, lines}
use smart_fec_tunnel.Keyring.{
  Keys, key, read_line, add_key, add_lines, parse_keyring, max_device_keys,
}
use smart_fec_tunnel.Keyring.Relay.{Devices, add_device, add_device_lines, parse_devices}

add_device-length :
    (n : ℕ) (entry : Option (ℕ × Text)) (ds es : Devices)
    → add_device n entry ds ≡ ok es
    → length ds ≤ length es
unfolding add_device
add_device-length n none ds es h = ground arith
add_device-length n (some (id, s)) ds es h = ground (arith, length-insert id s ds)

add_device_lines-length :
    (n : ℕ) (ls : List Text) (ds es : Devices)
    → add_device_lines n ls ds ≡ ok es
    → length ds ≤ length es
unfolding add_device_lines
add_device_lines-length n [] ds es h = ground arith
add_device_lines-length n (line ∷ ls) ds es h =
    let (entry, read, h1) = bind-ok (read_line n line) _ es h in
    let (more, added, h2) = bind-ok (add_device n entry ds) _ es h1 in
    let one = add_device-length n entry ds more added in
    let rest = add_device_lines-length (n + 1) ls more es h2 in omega arith

add_device_lines-cons :
    (n : ℕ) (line : Text) (ls : List Text) (ds more es : Devices) (entry : Option (ℕ × Text))
    → read_line n line ≡ ok entry
    → add_device n entry ds ≡ ok more
    → add_device_lines (n + 1) ls more ≡ ok es
    → add_device_lines n (line ∷ ls) ds ≡ ok es
unfolding add_device_lines
add_device_lines-cons n line ls ds more es entry read added h = rw (read, added) h

module _ (b : Blake3) where
  -- Every secret replaced by the key that is derived from it.
  unfoldable pub derived : Devices → Keys b
  derived [] = []
  derived ((id, secret) ∷ ds) = (id, key b secret) ∷ derived ds

  contains_key-derived : (id : ℕ) (ds : Devices) → contains_key id (derived ds) ≡ contains_key id ds
  unfolding derived contains_key
  contains_key-derived id [] = refl
  contains_key-derived id ((j, s) ∷ ds) = ground (arith, contains_key-derived id ds)

  insert-derived :
      (id : ℕ) (s : Text) (ds : Devices)
      → insert id (key b s) (derived ds) ≡ derived (insert id s ds)
  unfolding derived insert
  insert-derived id s [] = refl
  insert-derived id s ((j, t) ∷ ds) = ground (arith, insert-derived id s ds)

  length-derived : (ds : Devices) → length (derived ds) ≡ length ds
  unfolding derived
  length-derived [] = refl
  length-derived ((j, t) ∷ ds) = ap suc (length-derived ds)

  -- One entry.
  add_key-add_device :
      (n : ℕ) (entry : Option (ℕ × Text)) (ds es : Devices)
      → add_device n entry ds ≡ ok es
      → length es ≤ max_device_keys
      → add_key b n entry (derived ds) ≡ ok (derived es)
  unfolding add_key add_device
  add_key-add_device n none ds es h l = ground arith
  add_key-add_device n (some (id, s)) ds es h l =
      rw (contains_key-derived id ds, insert-derived id s ds, length-derived (insert id s ds))
        (ground arith)

  add_device-add_key :
      (n : ℕ) (entry : Option (ℕ × Text)) (ds : Devices) (ks : Keys b)
      → length ds ≤ max_device_keys
      → add_key b n entry (derived ds) ≡ ok ks
      → (es : Devices) × (add_device n entry ds ≡ ok es)
        × (ks ≡ derived es)
        × (length es ≤ max_device_keys)
  unfolding add_key add_device
  add_device-add_key n none ds ks l h = (ds, refl, ground arith, l)
  add_device-add_key n (some (id, s)) ds ks l h =
      let c = contains_key-derived id ds in
      let i = insert-derived id s ds in
      let k = length-derived (insert id s ds) in
      (insert id s ds, ground (arith, c), ground (arith, c, i), ground (arith, c, i, k))

  add_lines-add_device_lines :
      (n : ℕ) (ls : List Text) (ds es : Devices)
      → add_device_lines n ls ds ≡ ok es
      → length es ≤ max_device_keys
      → add_lines b n ls (derived ds) ≡ ok (derived es)
  unfolding add_lines add_device_lines
  add_lines-add_device_lines n [] ds es h l = ground arith
  add_lines-add_device_lines n (line ∷ ls) ds es h l =
      let (entry, read, h1) = bind-ok (read_line n line) _ es h in
      let (more, added, h2) = bind-ok (add_device n entry ds) _ es h1 in
      let small = add_device_lines-length (n + 1) ls more es h2 in
      rw (read, add_key-add_device n entry ds more added (omega arith))
        (add_lines-add_device_lines (n + 1) ls more es h2 l)

  add_device_lines-add_lines :
      (n : ℕ) (ls : List Text) (ds : Devices) (ks : Keys b)
      → length ds ≤ max_device_keys
      → add_lines b n ls (derived ds) ≡ ok ks
      → (es : Devices) × (add_device_lines n ls ds ≡ ok es)
        × (ks ≡ derived es)
        × (length es ≤ max_device_keys)
  unfolding add_lines add_device_lines
  add_device_lines-add_lines n [] ds ks l h = (ds, refl, ground arith, l)
  add_device_lines-add_lines n (line ∷ ls) ds ks l h =
      let (entry, read, h1) = bind-ok (read_line n line) _ ks h in
      let (keys, added, h2) = bind-ok (add_key b n entry (derived ds)) _ ks h1 in
      let (more, added1, e, l1) = add_device-add_key n entry ds keys l added in
      let (es, h3, e1, l2) =
        add_device_lines-add_lines (n + 1) ls more ks l1
          (subst (λ m. add_lines b (n + 1) ls m ≡ ok ks) e h2) in
      (es, add_device_lines-cons n line ls ds more es entry read added1 h3, e1, l2)

  is_empty-derived : (ds : Devices) → is_empty (derived ds) ≡ is_empty ds
  unfolding derived
  is_empty-derived [] = refl
  is_empty-derived (d ∷ ds) = refl

  -- The server accepts a text as a keyring exactly if the relay accepts it and it has at most
  -- 65536 devices; its keys are then derived from the relay's secrets, in the same order.
  pub parse_keyring-parse_devices :
      (text : Text) (ks : Keys b)
      → (parse_keyring b text ≡ ok ks) ↔ (
          (ds : Devices) × (parse_devices text ≡ ok ds)
          × (length ds ≤ max_device_keys)
          × (ks ≡ derived ds))
  unfolding parse_keyring parse_devices derived
  parse_keyring-parse_devices text ks = (
    λ h.
        let (keys, read, h1) = bind-ok (add_lines b 0 (lines text) []) _ ks h in
        let (ds, read1, e, l) =
          add_device_lines-add_lines 0 (lines text) [] keys (omega arith) read in
        let full = is_empty-derived ds in (ds, rw read1 (ground arith), l, ground arith),
    λ h.
        let (ds, h1, l, e) = h in
        let (es, read, h2) = bind-ok (add_device_lines 0 (lines text) []) _ ds h1 in
        let same : es ≡ ds = ground arith in
        let full = is_empty-derived es in
        rw
          (add_lines-add_device_lines 0 (lines text) [] es read
            (subst (λ d. length d ≤ max_device_keys) (sym same) l))
          (ground arith),
  )
