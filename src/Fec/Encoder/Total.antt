-- ===== src/Fec/Encoder/Total.antt =====
-- The encoder succeeds on every UDP datagram, if the Reed-Solomon code accepts what it documents.
use smart_fec_tunnel.Base.{
  ℕ, zero, suc, ◌+◌, ◌-◌, ◌≤◌, ◌<◌, ◌≡◌, refl, ap, false, ◌==◌, Bool-cases, inl, inr, max, some,
  List, [], ◌∷◌, ◌++◌, length, length-append, length-replicate, replicate, Result, ok, err,
  le→not_ltb, arith,
}
use smart_fec_tunnel.Base.Chunks.{div_ceil}
use smart_fec_tunnel.Base.Bytes.{be}
use smart_fec_tunnel.Wire.{Frame}
use smart_fec_tunnel.Fec.{ReedSolomon, next_u64, data_shards, chunk_size}
use smart_fec_tunnel.Fec.Encoder.{
  Encoder, EncodeError, max_length, resize, resize_all, flush_group, flush, group_parity,
  fragment_shard, push_shard, push_chunks, datagram_chunks, encode_datagram, append_frames,
}

-- All have one length.
abbrev pub AllLength : ℕ → List (List ℕ) → Type 0
AllLength k [] = Unit {0}
AllLength k (s ∷ ss) = (length s ≡ k) × AllLength k ss

-- The package encodes a positive number of data shards of one positive length, with a positive
-- number of repair shards, up to 256 shards together.
pub record IsCode (code : ReedSolomon) : Type 0 where
  pub encodes :
      (n p k : ℕ) (ss : List (List ℕ))
      → 0 < n
      → 0 < p
      → n + p ≤ 256
      → 0 < k
      → length ss ≡ n
      → AllLength k ss
      → (repair : List (List ℕ)) × (code.encode n p ss ≡ some repair)

abbrev pub AllLong : List (List ℕ) → Type 0
AllLong [] = Unit {0}
AllLong (s ∷ ss) = (14 ≤ length s) × AllLong ss

-- Between the calls: fewer shards wait than fill a group, and each has a fragment header.
pub record IsReady (e : Encoder) : Type 0 where
  pub few : length e.shards < 10
  pub long : AllLong e.shards

-- The call has succeeded, and the encoder is ready again.
abbrev pub Done : Encoder × Result EncodeError (List Frame) → Type 0
Done (e, err x) = ⊥
Done (e, ok frames) = IsReady e

AllLong-append :
    (ss : List (List ℕ)) (s : List ℕ) → AllLong ss → 14 ≤ length s → AllLong (ss ++ s ∷ [])
AllLong-append [] s a h = (h, tt)
AllLong-append (t ∷ ss) s a h = (a.0, AllLong-append ss s a.1 h)

abbrev AllShort : ℕ → List (List ℕ) → Type 0
AllShort n [] = Unit {0}
AllShort n (s ∷ ss) = (length s ≤ n) × AllShort n ss

AllShort-mono : (n m : ℕ) (ss : List (List ℕ)) → n ≤ m → AllShort n ss → AllShort m ss
AllShort-mono n m [] l a = tt
AllShort-mono n m (s ∷ ss) l a = (omega (arith, a.0), AllShort-mono n m ss l a.1)

AllShort-max_length : (ss : List (List ℕ)) → AllShort (max_length ss) ss
unfolding max_length
AllShort-max_length [] = tt
AllShort-max_length (s ∷ ss) = (
  omega arith,
  AllShort-mono (max_length ss) (max (length s) (max_length ss)) ss (omega arith)
      (AllShort-max_length ss),
)

resize_all-AllLength : (n : ℕ) (ss : List (List ℕ)) → AllShort n ss → AllLength n (resize_all n ss)
unfolding resize_all resize
resize_all-AllLength n [] a = tt
resize_all-AllLength n (s ∷ ss) a = (
  omega (
    arith,
    length-append s (replicate (n - length s) 0),
    length-replicate {A = ℕ} (n - length s) 0,
    a.0,
  ),
  resize_all-AllLength n ss a.1,
)

length-resize_all : (n : ℕ) (ss : List (List ℕ)) → length (resize_all n ss) ≡ length ss
unfolding resize_all
length-resize_all n [] = refl
length-resize_all n (s ∷ ss) = ap suc (length-resize_all n ss)

max_length_pos : (ss : List (List ℕ)) → 0 < length ss → AllLong ss → 0 < max_length ss
unfolding max_length
max_length_pos [] p a = absurd (omega arith)
max_length_pos (s ∷ ss) p a = omega (arith, a.0)

module _ (code : ReedSolomon) (law : IsCode code) where
  flush_group-Done :
      (e : Encoder) (p : ℕ)
      → 0 < length e.shards
      → length e.shards ≤ 10
      → AllLong e.shards
      → p ≤ 4
      → Done (flush_group code e p)
  unfolding flush_group
  flush_group-Done e zero some_shard few long small = record { few = omega arith; long = tt }
  flush_group-Done e (suc p) some_shard few long small =
      let widest = max_length e.shards in
      let (repair, coded) =
        law.encodes (length e.shards) (suc p) widest (resize_all widest e.shards) some_shard
          (omega arith) (omega arith) (max_length_pos e.shards some_shard long)
          (length-resize_all widest e.shards)
          (resize_all-AllLength widest e.shards (AllShort-max_length e.shards)) in
      rw (flush_group, coded) (record { few = omega arith; long = tt })

  group_parity_le : (e : Encoder) (n : ℕ) → group_parity e n ≤ 4
  unfolding group_parity
  group_parity_le e n = omega arith

  push_shard-Done :
      (e : Encoder) (s : List ℕ) → IsReady e → 14 ≤ length s → Done (push_shard code e s)
  unfolding push_shard flush
  push_shard-Done e s r h =
      let pushed : Encoder = record e { shards = e.shards ++ s ∷ [] } in
      let size = length-append e.shards (s ∷ []) in
      let long = AllLong-append e.shards s r.long h in
      elim (Bool-cases (length pushed.shards == data_shards)) [
        | inl full ↦
            let filled : (length pushed.shards == 0) ≡ false = ground arith in
            rw (push_shard, full, flush, filled)
              (flush_group-Done pushed (group_parity pushed (length pushed.shards)) (ground arith)
                (ground arith) long (group_parity_le pushed (length pushed.shards)))
        | inr partial ↦
            rw (push_shard, partial) (record { few = ground (arith, r.few); long = long })
      ]

  append_frames-Done :
      (r q : Encoder × Result EncodeError (List Frame))
      → Done r
      → (IsReady r.0 → Done q)
      → Done (append_frames r q)
  append_frames-Done (e, err x) q d k = d
  append_frames-Done (e, ok fs) (l, err x) d k = k d
  append_frames-Done (e, ok fs) (l, ok gs) d k = k d

  length-fragment_shard : (id i count : ℕ) (c : List ℕ) → 14 ≤ length (fragment_shard id i count c)
  unfolding fragment_shard be
  length-fragment_shard id i count c = omega arith

  push_chunks-Done :
      (id count : ℕ) (cs : List (List ℕ)) (e : Encoder) (i : ℕ)
      → IsReady e
      → Done (push_chunks code e id count i cs)
  unfolding push_chunks
  push_chunks-Done id count [] e i r = r
  push_chunks-Done id count (c ∷ cs) e i r =
      let step = push_shard code e (fragment_shard id i count c) in
      append_frames-Done step (push_chunks code step.0 id count (i + 1) cs)
        (push_shard-Done e _ r (length-fragment_shard id i count c))
        (push_chunks-Done id count cs step.0 (i + 1))

-- Encoding a datagram of at most 65535 bytes succeeds, with a code that accepts what its package
-- documents, and leaves fewer than ten shards waiting, each with a fragment header.
pub encode_datagram-Done :
    (code : ReedSolomon) (e : Encoder) (payload : List ℕ)
    → IsCode code
    → IsReady e
    → length payload ≤ 65535
    → Done (encode_datagram code e payload)
unfolding encode_datagram
encode_datagram-Done code e payload law r h =
    let count = div_ceil (max (length payload) 1) chunk_size in
    let fits : count ≤ 65535 = grind arith in
    let counted : Encoder = record e { packet = next_u64 e.packet } in
    rw (encode_datagram, le→not_ltb 65535 count fits)
      (push_chunks-Done code law e.packet count (datagram_chunks payload) counted 0
        (record { few = r.few; long = r.long }))
