-- ===== src/Fec/Fragment.antt =====
-- src/main.rs, `Decoder::fragment`: the fragments of a datagram are put together. Time is an
-- argument, in milliseconds.
pub mod Safety
use smart_fec_tunnel.Base.{
  ℕ, suc, ◌+◌, ◌-◌, ◌%◌, ◌^◌, ◌≤◌, ◌<◌, ◌≡◌, refl, sym, subst, Bool, true, false, not, ◌||◌, ltb,
  leb, ◌==◌, if◌then◌else◌, Bool-cases, Option-cases, ◌⊎◌, inl, inr, Option, none, some, List, [],
  ◌∷◌, ◌++◌, length, get_elem?, set, take, drop, replicate, concat, arith,
}
use smart_fec_tunnel.Base.Bytes.{be, from_be, slice, from_be-be}
use smart_fec_tunnel.Base.Maps.{nat_key, get, insert, remove}
use smart_fec_tunnel.Base.Chunks.{is_complete, join, Fits, Fits-set, Fits-replicate, join-Fits}
use smart_fec_tunnel.Fec.{shard_size, fragment_header, chunk_size}

pub record Reassembly : Type 0 where
  pub created : ℕ
  pub parts : List (Option (List ℕ))

abbrev pub Packets : Type 0
Packets = List (ℕ × Reassembly)

-- The first checks of `fragment`: on the shard, then on its header.
abbrev pub bad_shard : List ℕ → Bool
bad_shard shard = ltb (length shard) fragment_header || ltb shard_size (length shard)

abbrev pub bad_header : ℕ → ℕ → ℕ → ℕ → Bool
bad_header index count len size =
    count == 0
    || (ltb 64 count
        || (leb count index || (ltb chunk_size len || ltb size (fragment_header + len))))

-- The end of `fragment`, with the entry that stands there or is made.
unfoldable pub add_part : Packets → ℕ → ℕ → ℕ → List ℕ → Reassembly → Packets × List (List ℕ)
add_part packets packet index count part r =
    if not (length r.parts == count)
    then (insert packet r packets, [])
    else (let parts = set r.parts index (some part) in
        if is_complete parts
        then (remove packet packets, join parts ∷ [])
        else (insert packet (record r { parts = parts }) packets, []))

unfoldable pub enter : Packets → ℕ → ℕ → ℕ → ℕ → List ℕ → Packets × List (List ℕ)
enter packets now packet index count part = elim (get packet packets) [
  | some r ↦ add_part packets packet index count part r
  | none ↦
      add_part packets packet index count part
        (record { created = now; parts = replicate count none })
]

-- Decoder::fragment
unfoldable pub fragment : Packets → ℕ → List ℕ → Packets × List (List ℕ)
fragment packets now shard =
    if bad_shard shard
    then (packets, [])
    else (let packet = from_be (slice 0 8 shard) in
        let index = from_be (slice 8 10 shard) in
        let count = from_be (slice 10 12 shard) in
        let len = from_be (slice 12 14 shard) in
        if bad_header index count len (length shard)
        then (packets, [])
        else enter packets now packet index count (slice 14 (14 + len) shard))
