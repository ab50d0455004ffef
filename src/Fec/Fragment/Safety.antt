-- ===== src/Fec/Fragment/Safety.antt =====
-- Fragments never make up a datagram: what `Decoder::fragment` gives is a datagram that was sent.
use smart_fec_tunnel.Base.{
  ℕ, ◌+◌, ◌-◌, ◌%◌, ◌^◌, ◌<◌, ◌≡◌, refl, sym, ap, subst, ◌==◌, Bool-cases, Option-cases, ◌⊎◌, inl,
  inr, some, List, [], ◌∷◌, ◌++◌, length, get_elem?, set, take, replicate, concat, arith,
}
use smart_fec_tunnel.Base.Bytes.{be, from_be, slice, from_be-be}
use smart_fec_tunnel.Base.Maps.{nat_key, get, insert, remove}
use smart_fec_tunnel.Base.Chunks.{is_complete, Fits, Fits-set, Fits-replicate, join-Fits}
use smart_fec_tunnel.Fec.Encoder.{fragment_shard}
use smart_fec_tunnel.Fec.Fragment.{
  Reassembly, Packets, bad_shard, bad_header, add_part, enter, fragment,
}

-- What was sent: for each packet number its chunks.
abbrev pub Sent : Type 0
Sent = ℕ → List (List ℕ)

-- Every entry holds only chunks of its packet, each at its place.
abbrev pub IsConsistent : Sent → Packets → Type 0
IsConsistent sent [] = Unit {0}
IsConsistent sent ((m, r) ∷ ps) = Fits r.parts (sent m) × IsConsistent sent ps

insert-IsConsistent :
    (sent : Sent) (m : ℕ) (r : Reassembly) (ps : Packets)
    → Fits r.parts (sent m)
    → IsConsistent sent ps
    → IsConsistent sent (insert m r ps)
unfolding insert
insert-IsConsistent sent m r [] f k = (f, tt)
insert-IsConsistent sent m r ((n, q) ∷ ps) f k =
    ground (arith, insert-IsConsistent sent m r ps f k.1)

remove-IsConsistent :
    (sent : Sent) (m : ℕ) (ps : Packets) → IsConsistent sent ps → IsConsistent sent (remove m ps)
unfolding remove
remove-IsConsistent sent m [] k = tt
remove-IsConsistent sent m ((n, q) ∷ ps) k = ground (arith, remove-IsConsistent sent m ps k.1)

get-Fits :
    (sent : Sent) (m : ℕ) (ps : Packets) (r : Reassembly)
    → IsConsistent sent ps
    → get m ps ≡ some r
    → Fits r.parts (sent m)
unfolding get
get-Fits sent m [] r k h = absurd (ground arith)
get-Fits sent m ((n, q) ∷ ps) r k h = elim (Bool-cases (m == n)) [
  | inl here ↦
      let same : n ≡ m = ground arith in
      let this : q ≡ r = ground arith in
      subst (λ y. Fits y.parts (sent m)) this (subst (λ i. Fits q.parts (sent i)) same k.0)
  | inr other ↦ get-Fits sent m ps r k.1 (ground arith)
]

-- Nothing comes out, or the packet as it was sent, once.
abbrev pub IsSent : List (List ℕ) → List (List ℕ) → Type 0
IsSent cs out = (out ≡ []) ⊎ (out ≡ concat cs ∷ [])

add_part-IsConsistent :
    (sent : Sent) (ps : Packets) (m i count : ℕ) (part : List ℕ) (r : Reassembly)
    → IsConsistent sent ps
    → Fits r.parts (sent m)
    → get_elem? (sent m) i ≡ some part
    → let x = add_part ps m i count part r in IsConsistent sent x.0 × IsSent (sent m) x.1
add_part-IsConsistent sent ps m i count part r k f h =
    let fits = Fits-set r.parts (sent m) i part f h in
    let parts = set r.parts i (some part) in
    elim (Bool-cases (length r.parts == count)) [
      | inr differs ↦ unfold add_part in rw differs (insert-IsConsistent sent m r ps f k, inl refl)
      | inl agrees ↦ elim (Bool-cases (is_complete parts)) [
        | inl whole ↦
            unfold add_part in
            rw (agrees, whole)
              (
                remove-IsConsistent sent m ps k,
                inr (ap (λ x. x ∷ []) (join-Fits parts (sent m) fits whole)),
              )
        | inr missing ↦
            unfold add_part in
            rw (agrees, missing)
              (insert-IsConsistent sent m (record r { parts = parts }) ps fits k, inl refl)
      ]
    ]

enter-IsConsistent :
    (sent : Sent) (ps : Packets) (now m i : ℕ) (part : List ℕ)
    → IsConsistent sent ps
    → get_elem? (sent m) i ≡ some part
    → let x = enter ps now m i (length (sent m)) part in IsConsistent sent x.0 × IsSent (sent m) x.1
unfolding enter
enter-IsConsistent sent ps now m i part k h = elim (Option-cases (get m ps)) [
  | inr (r, there) ↦
      rw (enter, there)
        (add_part-IsConsistent sent ps m i (length (sent m)) part r k (get-Fits sent m ps r k there)
          h)
  | inl absent ↦
      rw (enter, absent)
        (add_part-IsConsistent sent ps m i (length (sent m)) part _ k (Fits-replicate (sent m)) h)
]

-- `fragment` of a shard is `enter` of its parts, or nothing.
fragment_cases :
    (ps : Packets) (now : ℕ) (s : List ℕ)
    → (fragment ps now s ≡ (ps, []))
      ⊎ (fragment ps now s
          ≡ enter ps now
              (from_be (slice 0 8 s))
              (from_be (slice 8 10 s))
              (from_be (slice 10 12 s))
              (slice 14 (14 + from_be (slice 12 14 s)) s))
unfolding fragment
fragment_cases ps now s = elim (Bool-cases (bad_shard s)) [
  | inl bad ↦ inl (rw (fragment, bad))
  | inr good ↦
      elim (Bool-cases (
        bad_header (from_be (slice 8 10 s)) (from_be (slice 10 12 s)) (from_be (slice 12 14 s))
          (length s))) [
            | inl wrong ↦ inl (rw (fragment, good, wrong))
            | inr right ↦ inr (rw (fragment, good, right))
          ]
]

take_prefix : (xs ys : List ℕ) → take (length xs) (xs ++ ys) ≡ xs
take_prefix [] ys = refl
take_prefix (x ∷ xs) ys = ap (◌∷◌ x) (take_prefix xs ys)

-- The header of a fragment is read back, whatever padding follows it.
module _ (m i count : ℕ) (c : List ℕ) (k : ℕ) (hm : m < 256 ^ 8) (hi : i < 65536)
    (hc : count < 65536) (hl : length c < 65536) where
  abbrev shard : List ℕ
  shard = fragment_shard m i count c ++ replicate k 0

  shard_packet : from_be (slice 0 8 shard) ≡ m
  unfolding fragment_shard be
  shard_packet = from_be-be 8 m hm

  shard_index : from_be (slice 8 10 shard) ≡ i
  unfolding fragment_shard be
  shard_index =
      let e : i % 65536 ≡ i = omega arith in
      subst (λ n. from_be (be 2 n) ≡ i) (sym e) (from_be-be 2 i hi)

  shard_count : from_be (slice 10 12 shard) ≡ count
  unfolding fragment_shard be
  shard_count =
      let e : count % 65536 ≡ count = omega arith in
      subst (λ n. from_be (be 2 n) ≡ count) (sym e) (from_be-be 2 count hc)

  shard_len : from_be (slice 12 14 shard) ≡ length c
  unfolding fragment_shard be
  shard_len =
      let e : length c % 65536 ≡ length c = omega arith in
      subst (λ n. from_be (be 2 n) ≡ length c) (sym e) (from_be-be 2 (length c) hl)

  shard_chunk : slice 14 (14 + length c) shard ≡ c
  unfolding fragment_shard be
  shard_chunk =
      let e : 14 + length c - 14 ≡ length c = omega arith in rw e (take_prefix c (replicate k 0))

-- A fragment that was sent, with any padding, whenever it comes and whatever came before, keeps
-- every entry to chunks of its own packet; and it gives nothing, or its packet as it was sent.
pub fragment-IsConsistent :
    (sent : Sent) (ps : Packets) (now m i k : ℕ) (c : List ℕ)
    → IsConsistent sent ps
    → get_elem? (sent m) i ≡ some c
    → m < 256 ^ 8
    → i < 65536
    → length (sent m) < 65536
    → length c < 65536
    → let r = fragment ps now (fragment_shard m i (length (sent m)) c ++ replicate k 0) in
      IsConsistent sent r.0 × IsSent (sent m) r.1
fragment-IsConsistent sent ps now m i k c con h hm hi hc hl =
    let n = length (sent m) in
    elim (fragment_cases ps now (fragment_shard m i n c ++ replicate k 0)) [
      | inl refused ↦ rw refused (con, inl refl)
      | inr entered ↦
          rw
            (
              entered,
              shard_packet m i n c k hm hi hc hl,
              shard_index m i n c k hm hi hc hl,
              shard_count m i n c k hm hi hc hl,
              shard_len m i n c k hm hi hc hl,
              shard_chunk m i n c k hm hi hc hl,
            )
            (enter-IsConsistent sent ps now m i c con h)
    ]
