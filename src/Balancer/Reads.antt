-- ===== src/Balancer/Reads.antt =====
-- What the balancer reads from its peers when a read succeeds.
use smart_fec_tunnel.Base.{
  bind-ok, bail_if-ok, ℕ, zero, suc, ◌+◌, ◌<◌, ◌≡◌, refl, sym, ap, subst, ◌∙◌, inl, inr, not, ◌&&◌,
  ◌||◌, ltb, ◌==◌, Bool-cases, Option-cases, [], ◌∷◌, ◌++◌, length, take, drop, take-append-drop,
  length-take, append_assoc, ok, arith,
}
use smart_fec_tunnel.Base.Bytes.{byte_at}
use smart_fec_tunnel.Balancer.{
  Bytes, Upstream, read_exact, read_domain, read_socks_address, read_response, socks_connect,
}

pub read_exact-ok : (n : ℕ) (input a b : Bytes) → read_exact n input ≡ ok (a, b) → input ≡ a ++ b
unfolding read_exact
read_exact-ok n input a b h = elim (Bool-cases (ltb (length input) n)) [
  | inl short ↦ absurd (ground arith)
  | inr long ↦
      let e : take n input ≡ a = ground arith in
      let f : drop n input ≡ b = ground arith in
      sym (take-append-drop n input) ∙ ap (λ x. x ++ drop n input) e ∙ ap (λ x. a ++ x) f
]

pub read_exact-length : (n : ℕ) (input a b : Bytes) → read_exact n input ≡ ok (a, b) → length a ≡ n
unfolding read_exact
read_exact-length n input a b h = elim (Bool-cases (ltb (length input) n)) [
  | inl short ↦ absurd (ground arith)
  | inr long ↦
      let e : take n input ≡ a = ground arith in
      ap length (sym e) ∙ ground (arith, length-take n input)
]

read_domain-ok : (input a b : Bytes) → read_domain input ≡ ok (a, b) → input ≡ a ++ b
unfolding read_domain
read_domain-ok [] a b h = cc
read_domain-ok (size ∷ input) a b h =
    let (some_size, h1) = bail_if-ok (size == 0) _ _ (a, b) h in
    let ((rest, left), read, h2) = bind-ok (read_exact (size + 2) input) _ (a, b) h1 in
    let e : size ∷ rest ≡ a = ground arith in
    let f : left ≡ b = ground arith in
    ap (λ x. size ∷ x) (read_exact-ok (size + 2) input rest left read)
    ∙ ap (λ x. x ++ left) e
    ∙ ap (λ x. a ++ x) f

pub read_socks_address-ok :
    (atyp : ℕ) (input a b : Bytes) → read_socks_address atyp input ≡ ok (a, b) → input ≡ a ++ b
unfolding read_socks_address
read_socks_address-ok atyp input a b h =
    ground (arith, read_exact-ok 6 input a b, read_domain-ok input a b, read_exact-ok 18 input a b)

-- The head and the address are read one after the other.
pub two_reads :
    (input head left address rest : Bytes)
    → input ≡ head ++ left
    → left ≡ address ++ rest
    → input ≡ (head ++ address) ++ rest
two_reads input head left address rest h k =
    h ∙ ap (λ x. head ++ x) k ∙ sym (append_assoc head address rest)

byte_at_prefix : (i : ℕ) (xs ys : Bytes) → i < length xs → byte_at i (xs ++ ys) ≡ byte_at i xs
byte_at_prefix i [] ys h = absurd (omega arith)
byte_at_prefix zero (x ∷ xs) ys h = refl
byte_at_prefix (suc i) (x ∷ xs) ys h = byte_at_prefix i xs ys (omega arith)

-- A response that counts as an answer begins with `5 0`.
abbrev pub IsSuccess : Bytes → Type 0
IsSuccess response = (byte_at 0 response ≡ 5) × (byte_at 1 response ≡ 0)

read_response-ok : (input a b : Bytes) → read_response input ≡ ok (a, b) → IsSuccess a
unfolding read_response
read_response-ok input a b h =
    let ((method, i1), r1, h1) = bind-ok (read_exact 2 input) _ (a, b) h in
    let (accepted, h2) =
      bail_if-ok (not (byte_at 0 method == 5 && byte_at 1 method == 0)) _ _ (a, b) h1 in
    let ((head, i2), r2, h3) = bind-ok (read_exact 4 i1) _ (a, b) h2 in
    let ((tail, i3), r3, h4) = bind-ok (read_socks_address (byte_at 3 head) i2) _ (a, b) h3 in
    let (success, h5) =
      bail_if-ok (not (byte_at 0 head == 5) || not (byte_at 1 head == 0)) _ _ (a, b) h4 in
    let size = read_exact-length 4 i1 head i2 r2 in
    let e : head ++ tail ≡ a = ground arith in
    subst IsSuccess e (
      byte_at_prefix 0 head tail (omega arith) ∙ ground arith,
      byte_at_prefix 1 head tail (omega arith) ∙ ground arith,
    )

pub socks_connect-ok :
    (upstream : Upstream) (request a b : Bytes)
    → socks_connect upstream request ≡ ok (a, b)
    → IsSuccess a
unfolding socks_connect
socks_connect-ok upstream request a b h = elim (Option-cases (upstream request)) [
  | inl e ↦ absurd (ground arith)
  | inr (input, e) ↦ read_response-ok input a b (ground arith)
]
