-- ===== src/Fec.antt =====
-- src/main.rs, `Encoder` and `Decoder`: datagrams are cut into fragments, fragments are
-- the data shards of a group, and a group is closed with repair shards; the
-- receiver recovers the data shards and puts the datagrams together. The Reed-Solomon code of
-- the `reed-solomon-erasure` package is the record `ReedSolomon`.
pub mod Encoder
pub mod Fragment
pub mod Decoder
mod Tests
use smart_fec_tunnel.Base.{ℕ, ◌+◌, ◌%◌, Option, List}

abbrev pub shard_size : ℕ
shard_size = 1340

abbrev pub fragment_header : ℕ
fragment_header = 14

abbrev pub chunk_size : ℕ
chunk_size = 1326

abbrev pub data_shards : ℕ
data_shards = 10

-- `encode data parity shards` is `ReedSolomon::new(data, parity)` and `encode` on the data shards
-- followed by `parity` empty ones: the repair shards, or `none` where one of the calls fails.
-- `reconstruct data parity shards` is `new` and `reconstruct`: the shards with the missing ones
-- filled in, or `none` where a call fails, which leaves the shards as they are.
pub record ReedSolomon : Type 0 where
  pub encode : ℕ → ℕ → List (List ℕ) → Option (List (List ℕ))
  pub reconstruct : ℕ → ℕ → List (Option (List ℕ)) → Option (List (Option (List ℕ)))

-- `n += 1` on a `u64` in a release build.
abbrev pub next_u64 : ℕ → ℕ
next_u64 n = (n + 1) % 18446744073709551616
