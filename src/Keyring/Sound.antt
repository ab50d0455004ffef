-- ===== src/Keyring/Sound.antt =====
-- What the readers accept as a keyring.
use smart_fec_tunnel.Base.{
  bind-ok, ℕ, ◌+◌, ◌-◌, ◌*◌, ◌^◌, ◌<◌, ◌≡◌, subst, false, ◌||◌, ◌==◌, Bool-cases, Option-cases, inl,
  inr, Option, none, some, List, [], ◌∷◌, ok, arith,
}
use smart_fec_tunnel.Base.Maps.{nat_key, insert, HasDistinctKeys, insert-HasDistinctKeys}
use smart_fec_tunnel.Base.Text.{
  Text, AllInk, is_whitespace, is_word_end, push_char, is_empty, starts_with, lines, trim,
  split_whitespace, parse_digits, parse_u64,
}
use smart_fec_tunnel.Keyring.{read_secret, read_fields, read_line}
use smart_fec_tunnel.Keyring.Relay.{Devices, add_device, add_device_lines, parse_devices}
use smart_fec_tunnel.Keyring.RoundTrip.{IsDevice, AllDevices}

parse_digits-lt :
    (acc : ℕ) (s : Text) (n : ℕ) → acc < 2 ^ 64 → parse_digits acc s ≡ some n → n < 2 ^ 64
unfolding parse_digits
parse_digits-lt acc [] n a h = ground arith
parse_digits-lt acc (c ∷ cs) n a h = ground (arith, parse_digits-lt (acc * 10 + (c - b'0')) cs n)

parse_u64-lt : (s : Text) (n : ℕ) → parse_u64 s ≡ some n → n < 2 ^ 64
unfolding parse_u64
parse_u64-lt [] n h = cc
parse_u64-lt (c ∷ []) n h = ground (arith, parse_digits-lt 0 (c ∷ []) n)
parse_u64-lt (c ∷ d ∷ cs) n h =
    ground (arith, parse_digits-lt 0 (c ∷ d ∷ cs) n, parse_digits-lt 0 (d ∷ cs) n)

-- Every word is free of white space.
abbrev AllWords : List Text → Type 0
AllWords [] = Unit {0}
AllWords (w ∷ ws) = AllInk w × AllWords ws

push_char-AllWords :
    (c : ℕ) (ws : List Text) → is_whitespace c ≡ false → AllWords ws → AllWords (push_char c ws)
unfolding push_char
push_char-AllWords c [] h a = ((h, tt), tt)
push_char-AllWords c (w ∷ ws) h a = ((h, a.0), a.1)

split_whitespace-AllWords : (s : Text) → AllWords (split_whitespace s)
unfolding split_whitespace
split_whitespace-AllWords [] = tt
split_whitespace-AllWords (c ∷ cs) = elim (Bool-cases (is_whitespace c)) [
  | inl space ↦ rw space (split_whitespace-AllWords cs)
  | inr ink ↦ elim (Bool-cases (is_word_end cs)) [
    | inl last ↦ rw (ink, last) ((ink, tt), split_whitespace-AllWords cs)
    | inr inner ↦
        rw (ink, inner)
          (push_char-AllWords c (split_whitespace cs) ink (split_whitespace-AllWords cs))
  ]
]

read_secret-IsDevice :
    (n id : ℕ) (ws : List Text) (d : ℕ × Text)
    → id < 2 ^ 64
    → AllWords ws
    → read_secret n id ws ≡ ok (some d)
    → IsDevice d
unfolding read_secret
read_secret-IsDevice n id [] d l a h = cc
read_secret-IsDevice n id (w ∷ ws) d l a h =
    let e : (id, w) ≡ d = ground arith in subst IsDevice e (ground arith, l, ground arith, a.0)

read_fields-IsDevice :
    (n : ℕ) (ws : List Text) (d : ℕ × Text)
    → AllWords ws
    → read_fields n ws ≡ ok (some d)
    → IsDevice d
unfolding read_fields
read_fields-IsDevice n [] d a h = cc
read_fields-IsDevice n (w ∷ ws) d a h = elim (Option-cases (parse_u64 w)) [
  | inl e ↦ absurd (ground arith)
  | inr (id, e) ↦ read_secret-IsDevice n id ws d (parse_u64-lt w id e) (a.1) (ground arith)
]

read_line-IsDevice :
    (n : ℕ) (line : Text) (d : ℕ × Text) → read_line n line ≡ ok (some d) → IsDevice d
unfolding read_line
read_line-IsDevice n line d h =
    elim (Bool-cases (is_empty (trim line) || starts_with b'#' (trim line))) [
      | inl skipped ↦ absurd (ground arith)
      | inr entry ↦
          read_fields-IsDevice n (split_whitespace (trim line)) d
            (split_whitespace-AllWords (trim line)) (ground arith)
    ]

insert-AllDevices :
    (id : ℕ) (s : Text) (ds : Devices)
    → IsDevice (id, s)
    → AllDevices ds
    → AllDevices (insert id s ds)
unfolding insert
insert-AllDevices id s [] d a = (d, tt)
insert-AllDevices id s ((j, t) ∷ ds) d a = elim (Bool-cases (id == j)) [
  | inl here ↦ rw here (d, a.1)
  | inr there ↦ rw there (a.0, insert-AllDevices id s ds d (a.1))
]

-- The devices are distinct and valid.
abbrev pub IsKeyring : Devices → Type 0
IsKeyring ds = HasDistinctKeys ds × AllDevices ds

add_device-IsKeyring :
    (n : ℕ) (line : Text) (entry : Option (ℕ × Text)) (ds es : Devices)
    → read_line n line ≡ ok entry
    → add_device n entry ds ≡ ok es
    → IsKeyring ds
    → IsKeyring es
unfolding add_device
add_device-IsKeyring n line none ds es r h k = subst IsKeyring (ground arith) k
add_device-IsKeyring n line (some (id, s)) ds es r h k =
    let e : insert id s ds ≡ es = ground arith in
    subst IsKeyring e (
      insert-HasDistinctKeys id s ds (k.0),
      insert-AllDevices id s ds (read_line-IsDevice n line (id, s) r) (k.1),
    )

add_device_lines-IsKeyring :
    (n : ℕ) (ls : List Text) (ds es : Devices)
    → add_device_lines n ls ds ≡ ok es
    → IsKeyring ds
    → IsKeyring es
unfolding add_device_lines
add_device_lines-IsKeyring n [] ds es h k = subst IsKeyring (ground arith) k
add_device_lines-IsKeyring n (line ∷ ls) ds es h k =
    let (entry, read, h1) = bind-ok (read_line n line) _ es h in
    let (more, added, h2) = bind-ok (add_device n entry ds) _ es h1 in
    add_device_lines-IsKeyring (n + 1) ls more es h2
      (add_device-IsKeyring n line entry ds more read added k)

-- What the relay accepts as a keyring is not empty, has no id twice, every id is a nonzero `u64`
-- and every secret one word of at least 32 bytes.
pub parse_devices-IsKeyring :
    (text : Text) (ds : Devices) → parse_devices text ≡ ok ds → (is_empty ds ≡ false) × IsKeyring ds
unfolding parse_devices
parse_devices-IsKeyring text ds h =
    let (es, read, h1) = bind-ok (add_device_lines 0 (lines text) []) _ ds h in
    let e : es ≡ ds = ground arith in
    (
      ground arith,
      subst IsKeyring e (add_device_lines-IsKeyring 0 (lines text) [] es read (tt, tt)),
    )
