-- ===== src/Balancer/Socks.antt =====
-- src/main.rs, `read_socks_address` and `socks_connect`: the parts of SOCKS5 that the balancer reads.
use smart_fec_tunnel.Base.{
  ℕ, ◌+◌, not, ◌&&◌, ◌||◌, ltb, ◌==◌, if◌then◌else◌, Option, none, some, List, [], ◌∷◌, ◌++◌,
  length, take, drop, Result, ok, err, ◌>>=◌, ◌>>◌, bail_if,
}
use smart_fec_tunnel.Base.Bytes.{byte_at}

pub data SocksError : Type 0 where
  closed unreachable empty_domain unsupported_address_type rejected_authentication : SocksError
  invalid_greeting requires_authentication only_connect no_healthy_upstream : SocksError
  connect_failed : ℕ → SocksError

abbrev pub Bytes : Type 0
Bytes = List ℕ

-- read_exact: the bytes read and those that remain.
unfoldable pub read_exact : ℕ → Bytes → Result SocksError (Bytes × Bytes)
read_exact n input = if ltb (length input) n then err closed else ok (take n input, drop n input)

-- The `match` of `read_socks_address` on a domain.
unfoldable pub read_domain : Bytes → Result SocksError (Bytes × Bytes)
unfolding read_exact
read_domain [] = err closed
read_domain (size ∷ input) = do
  bail_if (size == 0) empty_domain
  (rest, input) ← read_exact (size + 2) input
  ok (size ∷ rest, input)

-- read_socks_address
unfoldable pub read_socks_address : ℕ → Bytes → Result SocksError (Bytes × Bytes)
unfolding read_domain read_exact
read_socks_address atyp input =
    if atyp == 1
    then read_exact 6 input
    else if atyp == 3
    then read_domain input
    else if atyp == 4
    then read_exact 18 input
    else err unsupported_address_type

-- An upstream at one attempt: the bytes that it sends for a request, or `none` if it cannot be
-- reached or written to.
abbrev pub Upstream : Type 0
Upstream = Bytes → Option Bytes

-- The conversation of `socks_connect` on what the upstream sends; a read that times out is one
-- past the end.
unfoldable pub read_response : Bytes → Result SocksError (Bytes × Bytes)
unfolding read_socks_address read_exact
read_response input = do
  (method, input) ← read_exact 2 input
  bail_if (not (byte_at 0 method == 5 && byte_at 1 method == 0)) rejected_authentication
  (head, input) ← read_exact 4 input
  (tail, input) ← read_socks_address (byte_at 3 head) input
  bail_if (not (byte_at 0 head == 5) || not (byte_at 1 head == 0)) (connect_failed (byte_at 1 head))
  ok (head ++ tail, input)

-- socks_connect: the response, and what the upstream sends after it.
unfoldable pub socks_connect : Upstream → Bytes → Result SocksError (Bytes × Bytes)
unfolding read_response
socks_connect upstream request = elim (upstream request) [
  | none ↦ err unreachable
  | some input ↦ read_response input
]
