-- ===== src/Carrier/Stream.antt =====
-- src/quic_relay.rs, datagrams on a reliable stream: `write_stream_datagram` appends to the stream,
-- `read_stream_datagram` takes from it. A stream that ends inside a datagram is an error of
-- `read_exact`.
use smart_fec_tunnel.Base.{
  ℕ, ◌+◌, ◌%◌, ◌≤◌, ◌≡◌, refl, ap, sym, subst, ltb, if◌then◌else◌, le→not_ltb, List, [], ◌∷◌, ◌++◌,
  length, length-append, append_assoc, take, drop, Result, ok, err, arith,
}
use smart_fec_tunnel.Base.Bytes.{be, from_be, from_be-be}
use smart_fec_tunnel.Carrier.{max_datagram}

pub data StreamError : Type 0 where
  datagram_too_large stream_ended : StreamError

-- What is written for a datagram.
unfoldable pub stream_frame : List ℕ → List ℕ
stream_frame payload = be 4 (length payload % 4294967296) ++ payload

-- write_stream_datagram: the stream after it.
unfoldable pub write_stream_datagram : List ℕ → List ℕ → Result StreamError (List ℕ)
write_stream_datagram stream payload =
    if ltb max_datagram (length payload)
    then err datagram_too_large
    else ok (stream ++ stream_frame payload)

-- read_stream_datagram: the datagram and the rest of the stream.
unfoldable pub read_stream_datagram : List ℕ → Result StreamError (List ℕ × List ℕ)
read_stream_datagram stream =
    if ltb (length stream) 4
    then err stream_ended
    else (let size = from_be (take 4 stream) in
        if ltb max_datagram size
        then err datagram_too_large
        else if ltb (length stream) (4 + size)
        then err stream_ended
        else ok (take size (drop 4 stream), drop size (drop 4 stream)))

take_front : (xs ys : List ℕ) → take (length xs) (xs ++ ys) ≡ xs
take_front [] ys = refl
take_front (x ∷ xs) ys = ap (◌∷◌ x) (take_front xs ys)

drop_front : (xs ys : List ℕ) → drop (length xs) (xs ++ ys) ≡ ys
drop_front [] ys = refl
drop_front (x ∷ xs) ys = drop_front xs ys

size_field :
    (n : ℕ) (rest : List ℕ) → n ≤ 65535 → from_be (take 4 (be 4 (n % 4294967296) ++ rest)) ≡ n
unfolding be
size_field n rest h =
    let e : n % 4294967296 ≡ n = omega arith in
    subst (λ k. from_be (be 4 k) ≡ n) (sym e) (from_be-be 4 n (omega arith))

drop_size : (n : ℕ) (rest : List ℕ) → drop 4 (be 4 n ++ rest) ≡ rest
unfolding be
drop_size n rest = refl

length_size : (n : ℕ) (rest : List ℕ) → length (be 4 n ++ rest) ≡ 4 + length rest
unfolding be
length_size n rest = omega arith

-- A datagram of at most 65535 bytes is written behind what the stream holds; and it is read back
-- whole when it is next, with what was written behind it left to read.
pub read-write_stream_datagram :
    (stream payload later : List ℕ)
    → length payload ≤ max_datagram
    → (write_stream_datagram stream payload ≡ ok (stream ++ stream_frame payload))
      × (read_stream_datagram (stream_frame payload ++ later) ≡ ok (payload, later))
unfolding write_stream_datagram read_stream_datagram stream_frame
read-write_stream_datagram stream payload later h =
    let n = length payload in
    let all = append_assoc (be 4 (n % 4294967296)) payload later in
    let size = length_size (n % 4294967296) (payload ++ later) in
    let total = length-append payload later in
    (
      rw (write_stream_datagram, le→not_ltb 65535 n h) refl,
      rw (
        all,
        le→not_ltb (length (be 4 (n % 4294967296) ++ (payload ++ later))) 4 (omega (arith, size)),
        size_field n (payload ++ later) h,
        le→not_ltb 65535 n h,
        le→not_ltb (length (be 4 (n % 4294967296) ++ (payload ++ later))) (4 + n)
            (omega (arith, size, total)),
        drop_size (n % 4294967296) (payload ++ later),
        take_front payload later,
        drop_front payload later,
      ),
    )
