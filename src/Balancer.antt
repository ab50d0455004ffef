-- ===== src/Balancer.antt =====
-- src/main.rs, the balancer of SOCKS5 connections: `read_socks_address`, `socks_connect`,
-- `handle_balanced_client` and `balance`. What a peer sends is the list of its bytes up to its end;
-- a read past the end fails. Connections are handled one after the other, and the copying between
-- the two sockets, with the count of those that copy, is left out.
mod Socks
pub mod Select
pub mod Reads
pub mod Request
pub mod Client
mod Tests
unfoldable pub use Socks.*
use smart_fec_tunnel.Base.{
  ℕ, zero, suc, ◌+◌, ◌%◌, ◌^◌, Bool, true, false, not, ◌&&◌, ◌||◌, ltb, ◌==◌, if◌then◌else◌, Option,
  none, some, List, [], ◌∷◌, ◌++◌, length, get_elem?, set, take, drop, replicate, Result, ok, err,
  ◌>>=◌, ◌>>◌, bail_if,
}
use smart_fec_tunnel.Base.Bytes.{byte_at}

-- The flags `healthy`, by index.
abbrev pub Health : Type 0
Health = List Bool

pub record Chosen : Type 0 where
  pub index : ℕ
  pub response : Bytes
  pub remote : Bytes

abbrev pub is_healthy : Health → ℕ → Bool
is_healthy health index = elim (get_elem? health index) [ none ↦ false | some flag ↦ flag ]

-- The attempts of one pass over some indices, until one succeeds: `network` says what every
-- upstream does at its attempt.
unfoldable pub try_all :
    (ℕ → Upstream)
    → Bytes
    → Bool
    → List ℕ
    → Health
    → Option SocksError
    → Health × Option Chosen × Option SocksError
try_all network request healthy_only [] health last = (health, none, last)
try_all network request healthy_only (index ∷ rest) health last =
    let skip = try_all network request healthy_only rest health last in
    if healthy_only && not (is_healthy health index)
    then skip
    else (elim (socks_connect (network index) request) [
      | ok answer ↦ (
        set health index true,
        some (record { index = index; response = answer.0; remote = answer.1 }),
        last,
      )
      | err e ↦ try_all network request healthy_only rest (set health index false) (some e)
    ])

-- `0..n` from an offset on, as indices from `start`.
unfoldable pub rotation : ℕ → ℕ → ℕ → ℕ → List ℕ
rotation start n offset zero = []
rotation start n offset (suc more) = (start + offset) % n ∷ rotation start n (offset + 1) more

-- The two passes: healthy upstreams first, then all. `network` has the attempts of both passes.
unfoldable pub choose :
    (Bool → ℕ → Upstream) → Bytes → ℕ → Health → Health × Option Chosen × Option SocksError
unfolding try_all rotation
choose network request start health =
    let order = rotation start (length health) 0 (length health) in
    let (health, chosen, last) = try_all (network true) request true order health none in
    elim chosen [
      | some c ↦ (health, some c, last)
      | none ↦ try_all (network false) request false order health last
    ]

-- The greeting: the methods that the client offers, and what follows.
unfoldable pub read_greeting : Bytes → Result SocksError (Bytes × Bytes)
unfolding read_exact
read_greeting input = do
  (version, input) ← read_exact 1 input
  (methods, input) ← read_exact 1 input
  bail_if (not (byte_at 0 version == 5) || (byte_at 0 methods == 0 || ltb 32 (byte_at 0 methods)))
      invalid_greeting
  read_exact (byte_at 0 methods) input

unfoldable pub contains : ℕ → Bytes → Bool
contains b [] = false
contains b (c ∷ cs) = b == c || contains b cs

-- What is written to the client beside the outcome; a read that fails ends the conversation
-- without a reply.
abbrev pub after_read :
    (Bytes × Bytes → Bytes × Result SocksError (Bytes × Bytes))
    → Result SocksError (Bytes × Bytes)
    → Bytes × Result SocksError (Bytes × Bytes)
after_read k (err e) = ([], err e)
after_read k (ok r) = k r

abbrev pub is_no_connect : Bytes → Bool
is_no_connect head =
    not (byte_at 0 head == 5) || (not (byte_at 1 head == 1) || not (byte_at 2 head == 0))

-- The request with this head, and what
-- follows it.
unfoldable pub check_connect : Bytes → Bytes → Bytes × Result SocksError (Bytes × Bytes)
unfolding read_socks_address
check_connect head input =
    if is_no_connect head then (5 ∷ 7 ∷ 0 ∷ 1 ∷ 0 ∷ 0 ∷ 0 ∷ 0 ∷ 0 ∷ 0 ∷ [], err only_connect) else (
      [],
      do (address, input) ← read_socks_address (byte_at 3 head) input; ok (head ++ address, input),
    )

unfoldable pub read_connect : Bytes → Bytes × Result SocksError (Bytes × Bytes)
unfolding read_exact check_connect
read_connect input = after_read (λ r. check_connect r.0 r.1) (read_exact 4 input)

-- Once the methods are read.
unfoldable pub check_methods : Bytes → Bytes → Bytes × Result SocksError (Bytes × Bytes)
unfolding contains read_connect
check_methods offered input =
    if not (contains 0 offered)
    then (5 ∷ 0xff ∷ [], err requires_authentication)
    else (5 ∷ 0 ∷ (read_connect input).0, (read_connect input).1)

-- `handle_balanced_client` up to the choice of the upstream.
unfoldable pub read_request : Bytes → Bytes × Result SocksError (Bytes × Bytes)
unfolding read_greeting check_methods
read_request input = after_read (λ g. check_methods g.0 g.1) (read_greeting input)

pub record Balancer : Type 0 where
  pub health : Health
  pub cursor : ℕ

abbrev pub or_default : Option SocksError → SocksError
or_default none = no_healthy_upstream
or_default (some e) = e

-- The reply for a choice.
abbrev pub reply :
    Balancer → Option Chosen → Option SocksError → Balancer × Bytes × Result SocksError Chosen
reply after none last = (after, 5 ∷ 1 ∷ 0 ∷ 1 ∷ 0 ∷ 0 ∷ 0 ∷ 0 ∷ 0 ∷ 0 ∷ [], err (or_default last))
reply after (some c) last = (after, c.response, ok c)

-- From `cursor.fetch_add` on.
unfoldable pub forward :
    (Bool → ℕ → Upstream) → Bytes → Balancer → Balancer × Bytes × Result SocksError Chosen
unfolding choose
forward network request b =
    let (health, chosen, last) = choose network request (b.cursor % length b.health) b.health in
    reply (record { health = health; cursor = (b.cursor + 1) % 2 ^ 64 }) chosen last

unfoldable pub serve :
    (Bool → ℕ → Upstream)
    → Balancer
    → Bytes
    → Result SocksError (Bytes × Bytes)
    → Balancer × Bytes × Result SocksError Chosen
unfolding forward
serve network b written (err e) = (b, written, err e)
serve network b written (ok r) =
    let (after, answer, outcome) = forward network r.0 b in (after, written ++ answer, outcome)

-- handle_balanced_client, on what the client sends: the state after it, what the client is sent,
-- and the upstream whose socket is then copied to the client's.
unfoldable pub handle_balanced_client :
    (Bool → ℕ → Upstream) → Balancer → Bytes → Balancer × Bytes × Result SocksError Chosen
unfolding serve read_request
handle_balanced_client network b input =
    let (written, read) = read_request input in serve network b written read

-- The request of the health check: a connection to port 443 of www.gstatic.com.
abbrev pub health_request : Bytes
health_request =
    5 ∷ 1 ∷ 0 ∷ 3 ∷ 15 ∷ b'w' ∷ b'w' ∷ b'w' ∷ b'.' ∷ b'g' ∷ b's' ∷ b't' ∷ b'a' ∷ b't' ∷ b'i' ∷ b'c'
    ∷ b'.' ∷ b'c' ∷ b'o' ∷ b'm' ∷ 1 ∷ 0xbb ∷ []

abbrev pub is_ok : {E A : Type 0} → Result E A → Bool
is_ok (ok a) = true
is_ok (err e) = false

-- One round of the health check, from an index on.
unfoldable pub check_health : (ℕ → Upstream) → ℕ → Health → Health
unfolding socks_connect
check_health network index [] = []
check_health network index (flag ∷ flags) =
    is_ok (socks_connect (network index) health_request) ∷ check_health network (index + 1) flags

-- balance, up to its loop
unfoldable pub balance : ℕ → Option Balancer
balance upstreams =
    if ltb upstreams 2
    then none
    else some (record { health = replicate upstreams true; cursor = 0 })
