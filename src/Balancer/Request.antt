-- ===== src/Balancer/Request.antt =====
-- What the balancer reads from its client when it goes on to choose an upstream.
use smart_fec_tunnel.Base.{
  bind-ok, bail_if-ok, ℕ, zero, suc, ◌+◌, ◌<◌, ◌≡◌, refl, sym, ap, ◌∙◌, inl, inr, Bool, true, false,
  ◌⊎◌, ◌≤◌, some, get_elem?, not, ◌||◌, ltb, ◌==◌, if◌then◌else◌, Bool-cases, [], ◌∷◌, ◌++◌, length,
  Result, ok, err, arith,
}
use smart_fec_tunnel.Base.Bytes.{byte_at}
use smart_fec_tunnel.Balancer.{
  SocksError, Bytes, read_exact, read_domain, read_socks_address, read_greeting, contains,
  after_read, is_no_connect, check_connect, read_connect, check_methods, read_request,
}
use smart_fec_tunnel.Balancer.Reads.{
  read_exact-ok, read_exact-length, two_reads, read_socks_address-ok,
}

-- A domain with its length before it, which is not 0, and a port.
abbrev pub IsDomain : Bytes → Type 0
IsDomain address =
    (size : ℕ) × (name : Bytes) × (address ≡ size ∷ name) × (0 < size) × (length name ≡ size + 2)

-- The address of a request: four or sixteen bytes and two for the port, or a domain and its
-- port.
abbrev pub IsAddress : ℕ → Bytes → Type 0
IsAddress atyp address =
    ((atyp ≡ 1) × (length address ≡ 6))
    ⊎ ((atyp ≡ 3) × IsDomain address)
    ⊎ ((atyp ≡ 4) × (length address ≡ 18))

read_domain-form : (input a b : Bytes) → read_domain input ≡ ok (a, b) → IsDomain a
unfolding read_domain
read_domain-form [] a b h = cc
read_domain-form (size ∷ input) a b h =
    let (some_size, h1) = bail_if-ok (size == 0) _ _ (a, b) h in
    let ((name, left), read, h2) = bind-ok (read_exact (size + 2) input) _ (a, b) h1 in
    let e : size ∷ name ≡ a = ground arith in
    (size, name, sym e, ground arith, read_exact-length (size + 2) input name left read)

read_socks_address-IsAddress :
    (atyp : ℕ) (input a b : Bytes) → read_socks_address atyp input ≡ ok (a, b) → IsAddress atyp a
unfolding read_socks_address
read_socks_address-IsAddress atyp input a b h = elim (Bool-cases (atyp == 1)) [
  | inl four ↦
      let read : read_exact 6 input ≡ ok (a, b) = ground arith in
      inl (ground arith, read_exact-length 6 input a b read)
  | inr other ↦ elim (Bool-cases (atyp == 3)) [
    | inl domain ↦
        let read : read_domain input ≡ ok (a, b) = ground arith in
        inr (inl (ground arith, read_domain-form input a b read))
    | inr neither ↦ elim (Bool-cases (atyp == 4)) [
      | inl sixteen ↦
          let read : read_exact 18 input ≡ ok (a, b) = ground arith in
          inr (inr (ground arith, read_exact-length 18 input a b read))
      | inr unknown ↦ absurd (ground arith)
    ]
  ]
]

one_byte : (xs : Bytes) → length xs ≡ 1 → xs ≡ byte_at 0 xs ∷ []
one_byte [] h = absurd (omega arith)
one_byte (a ∷ []) h = refl
one_byte (a ∷ b ∷ xs) h = absurd (omega arith)

four_bytes :
    (xs : Bytes)
    → length xs ≡ 4
    → xs ≡ byte_at 0 xs ∷ byte_at 1 xs ∷ byte_at 2 xs ∷ byte_at 3 xs ∷ []
four_bytes [] h = absurd (omega arith)
four_bytes (a ∷ []) h = absurd (omega arith)
four_bytes (a ∷ b ∷ []) h = absurd (omega arith)
four_bytes (a ∷ b ∷ c ∷ []) h = absurd (omega arith)
four_bytes (a ∷ b ∷ c ∷ d ∷ []) h = refl
four_bytes (a ∷ b ∷ c ∷ d ∷ e ∷ xs) h = absurd (omega arith)

-- One byte read, with its value.
read_byte-ok : (input a b : Bytes) → read_exact 1 input ≡ ok (a, b) → input ≡ byte_at 0 a ∷ b
read_byte-ok input a b h =
    read_exact-ok 1 input a b h ∙ ap (λ x. x ++ b) (one_byte a (read_exact-length 1 input a b h))

-- The greeting is `5`, the number of methods, and the methods.
read_greeting-ok :
    (input a b : Bytes)
    → read_greeting input ≡ ok (a, b)
    → (input ≡ 5 ∷ length a ∷ (a ++ b)) × (0 < length a) × (length a ≤ 32)
unfolding read_greeting
read_greeting-ok input a b h =
    let ((version, i1), r1, h1) = bind-ok (read_exact 1 input) _ (a, b) h in
    let ((methods, i2), r2, h2) = bind-ok (read_exact 1 i1) _ (a, b) h1 in
    let (valid, h3) =
      bail_if-ok
        (not (byte_at 0 version == 5) || (byte_at 0 methods == 0 || ltb 32 (byte_at 0 methods))) _ _
        (a, b) h2 in
    let size = read_exact-length (byte_at 0 methods) i2 a b h3 in
    let five : byte_at 0 version ≡ 5 = ground arith in
    (
      read_byte-ok input version i1 r1
          ∙ ap (λ v. v ∷ i1) five
          ∙ ap (λ x. 5 ∷ x) (read_byte-ok i1 methods i2 r2)
          ∙ ap (λ n. 5 ∷ n ∷ i2) (sym size)
          ∙ ap (λ x. 5 ∷ length a ∷ x) (read_exact-ok (byte_at 0 methods) i2 a b h3),
      ground arith,
      ground arith,
    )

-- A reply that is no success, under a condition that does not hold.
guarded-ok :
    (c : Bool) (w v : Bytes) (e : SocksError) (r : Result SocksError (Bytes × Bytes))
    (x : Bytes × Bytes)
    → (let out : Bytes × Result SocksError (Bytes × Bytes) = if c then (w, err e) else (v, r) in
        out.1 ≡ ok x)
    → (c ≡ false)
      × (r ≡ ok x)
      × (let out : Bytes × Result SocksError (Bytes × Bytes) = if c then (w, err e) else (v, r) in
          out.0 ≡ v)
guarded-ok true w v e r x h = cc
guarded-ok false w v e r x h = (refl, h, refl)

after_read-ok :
    (k : Bytes × Bytes → Bytes × Result SocksError (Bytes × Bytes))
    (r : Result SocksError (Bytes × Bytes)) (x : Bytes × Bytes)
    → (after_read k r).1 ≡ ok x
    → (a : Bytes × Bytes) × (r ≡ ok a) × ((k a).1 ≡ ok x) × ((after_read k r).0 ≡ (k a).0)
after_read-ok k (err e) x h = cc
after_read-ok k (ok a) x h = (a, refl, h, refl)

-- A request to connect: its head, and an address of the head's type.
abbrev pub IsConnect : Bytes → Type 0
IsConnect request =
    (atyp : ℕ) × (address : Bytes) × (request ≡ 5 ∷ 1 ∷ 0 ∷ atyp ∷ address) × IsAddress atyp address

check_connect-ok :
    (head input a b : Bytes)
    → length head ≡ 4
    → (check_connect head input).1 ≡ ok (a, b)
    → ((check_connect head input).0 ≡ []) × (head ++ input ≡ a ++ b) × IsConnect a
unfolding check_connect
check_connect-ok head input a b size h =
    let (valid, h1, none_written) = guarded-ok (is_no_connect head) _ [] _ _ (a, b) h in
    let ((address, left), read, h2) =
      bind-ok (read_socks_address (byte_at 3 head) input) _ (a, b) h1 in
    let e : head ++ address ≡ a = ground arith in
    let f : left ≡ b = ground arith in
    let version : byte_at 0 head ≡ 5 = ground arith in
    let command : byte_at 1 head ≡ 1 = ground arith in
    let reserved : byte_at 2 head ≡ 0 = ground arith in
    (
      none_written,
      two_reads (head ++ input) head input address left refl
            (read_socks_address-ok (byte_at 3 head) input address left read)
          ∙ ap (λ x. x ++ left) e
          ∙ ap (λ x. a ++ x) f,
      (
        byte_at 3 head,
        address,
        sym e
            ∙ ap (λ x. x ++ address) (four_bytes head size)
            ∙ ap (λ x. x ∷ byte_at 1 head ∷ byte_at 2 head ∷ byte_at 3 head ∷ address) version
            ∙ ap (λ x. 5 ∷ x ∷ byte_at 2 head ∷ byte_at 3 head ∷ address) command
            ∙ ap (λ x. 5 ∷ 1 ∷ x ∷ byte_at 3 head ∷ address) reserved,
        read_socks_address-IsAddress (byte_at 3 head) input address left read,
      ),
    )

read_connect-ok :
    (input a b : Bytes)
    → (read_connect input).1 ≡ ok (a, b)
    → ((read_connect input).0 ≡ []) × (input ≡ a ++ b) × IsConnect a
unfolding read_connect
read_connect-ok input a b h =
    let k = λ (r : Bytes × Bytes). check_connect (r.0) (r.1) in
    let ((head, left), read, h1, same) = after_read-ok k (read_exact 4 input) (a, b) h in
    let size = read_exact-length 4 input head left read in
    let (written, split, form) = check_connect-ok head left a b size h1 in
    (same ∙ written, read_exact-ok 4 input head left read ∙ split, form)

-- A byte that a list contains is somewhere in it.
contains-get_elem? :
    (x : ℕ) (xs : Bytes) → contains x xs ≡ true → (i : ℕ) × (get_elem? xs i ≡ some x)
unfolding contains
contains-get_elem? x [] h = cc
contains-get_elem? x (y ∷ ys) h = elim (Bool-cases (x == y)) [
  | inl here ↦ (zero, ground arith)
  | inr later ↦ let (i, at) = contains-get_elem? x ys (ground arith) in (suc i, at)
]

check_methods-ok :
    (offered input a b : Bytes)
    → (check_methods offered input).1 ≡ ok (a, b)
    → ((check_methods offered input).0 ≡ 5 ∷ 0 ∷ [])
      × (input ≡ a ++ b)
      × IsConnect a
      × ((i : ℕ) × (get_elem? offered i ≡ some 0))
unfolding check_methods
check_methods-ok offered input a b h =
    let (accepted, h1, same) =
      guarded-ok (not (contains 0 offered)) _ (5 ∷ 0 ∷ (read_connect input).0) _ _ (a, b) h in
    let (nothing_more, split, form) = read_connect-ok input a b h1 in
    (
      same ∙ ap (λ w. 5 ∷ 0 ∷ w) nothing_more,
      split,
      form,
      contains-get_elem? 0 offered (ground arith),
    )

-- What a client sends: `5`, its methods with their number before them and `0` among them, the
-- request, and the rest.
abbrev pub IsGreetingThen : Bytes → Bytes → Bytes → Type 0
IsGreetingThen input request rest =
    (methods : Bytes) × (input ≡ 5 ∷ length methods ∷ (methods ++ (request ++ rest)))
    × (0 < length methods)
    × (length methods ≤ 32)
    × ((i : ℕ) × (get_elem? methods i ≡ some 0))

pub read_request-ok :
    (input a b : Bytes)
    → (read_request input).1 ≡ ok (a, b)
    → ((read_request input).0 ≡ 5 ∷ 0 ∷ []) × IsGreetingThen input a b × IsConnect a
unfolding read_request
read_request-ok input a b h =
    let k = λ (g : Bytes × Bytes). check_methods (g.0) (g.1) in
    let ((offered, left), read, h1, same) = after_read-ok k (read_greeting input) (a, b) h in
    let (written, split, form, offers) = check_methods-ok offered left a b h1 in
    let (whole, some_methods, limit) = read_greeting-ok input offered left read in
    (
      same ∙ written,
      (
        offered,
        whole ∙ ap (λ x. 5 ∷ length offered ∷ (offered ++ x)) split,
        some_methods,
        limit,
        offers,
      ),
      form,
    )
