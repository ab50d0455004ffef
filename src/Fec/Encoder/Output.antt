-- ===== src/Fec/Encoder/Output.antt =====
-- What the encoder sends: every shard once, in order, as the payload of a data frame.
use smart_fec_tunnel.Base.{
  ℕ, zero, suc, ◌+◌, ◌-◌, ◌≡◌, refl, sym, ap, subst, ◌∙◌, ◌==◌, if◌then◌else◌, Bool-cases,
  Option-cases, ◌⊎◌, inl, inr, max, List, [], ◌∷◌, ◌++◌, append_assoc, append-nil, length, concat,
  replicate, Result, ok, err, arith,
}
use smart_fec_tunnel.Base.Chunks.{div_ceil, concat-chunks, length-chunks}
use smart_fec_tunnel.Wire.{Frame, kind_data, kind_parity}
use smart_fec_tunnel.Fec.{ReedSolomon, next_u64, data_shards, chunk_size}
use smart_fec_tunnel.Fec.Encoder.{
  Encoder, EncodeError, max_length, resize, resize_all, emit, flush_group, flush, group_parity,
  fragment_shard, fragment_shards, push_shard, push_chunks, datagram_chunks, encode_datagram,
  append_frames, datagram_too_large,
}

-- The payloads of the data frames.
unfoldable pub data_payloads : List Frame → List (List ℕ)
data_payloads [] = []
data_payloads (f ∷ fs) =
    if f.kind == kind_data then f.payload ∷ data_payloads fs else data_payloads fs

-- Each is the shard at its place, with zeros behind it.
abbrev pub Padded : List (List ℕ) → List (List ℕ) → Type 0
Padded [] [] = Unit {0}
Padded [] (s ∷ ss) = ⊥
Padded (p ∷ ps) [] = ⊥
Padded (p ∷ ps) (s ∷ ss) = ((k : ℕ) × (p ≡ s ++ replicate k 0)) × Padded ps ss

Padded-refl : (ss : List (List ℕ)) → Padded ss ss
Padded-refl [] = tt
Padded-refl (s ∷ ss) = ((0, sym (append-nil s)), Padded-refl ss)

replicate-add : (j k : ℕ) → replicate {A = ℕ} k 0 ++ replicate j 0 ≡ replicate (k + j) 0
replicate-add j zero = ground arith
replicate-add j (suc k) =
    let e : suc k + j ≡ suc (k + j) = omega arith in rw e (ap (◌∷◌ 0) (replicate-add j k))

Padded-trans : (ps qs ss : List (List ℕ)) → Padded ps qs → Padded qs ss → Padded ps ss
Padded-trans [] [] [] a b = tt
Padded-trans [] [] (s ∷ ss) a b = absurd b
Padded-trans [] (q ∷ qs) ss a b = absurd a
Padded-trans (p ∷ ps) [] ss a b = absurd a
Padded-trans (p ∷ ps) (q ∷ qs) [] a b = absurd b
Padded-trans (p ∷ ps) (q ∷ qs) (s ∷ ss) ((j, e), a) ((k, f), b) = (
  (
    k + j,
    e
        ∙ ap (λ x. x ++ replicate j 0) f
        ∙ append_assoc s (replicate k 0) (replicate j 0)
        ∙ ap (◌++◌ s) (replicate-add j k),
  ),
  Padded-trans ps qs ss a b,
)

Padded-append :
    (ps qs ss ts : List (List ℕ)) → Padded ps ss → Padded qs ts → Padded (ps ++ qs) (ss ++ ts)
Padded-append [] qs [] ts a b = b
Padded-append [] qs (s ∷ ss) ts a b = absurd a
Padded-append (p ∷ ps) qs [] ts a b = absurd a
Padded-append (p ∷ ps) qs (s ∷ ss) ts a b = (a.0, Padded-append ps qs ss ts a.1 b)

Padded-resize_all : (n : ℕ) (ss : List (List ℕ)) → Padded (resize_all n ss) ss
unfolding resize_all resize
Padded-resize_all n [] = tt
Padded-resize_all n (s ∷ ss) = ((n - length s, refl), Padded-resize_all n ss)

data_payloads-append :
    (fs gs : List Frame) → data_payloads (fs ++ gs) ≡ data_payloads fs ++ data_payloads gs
unfolding data_payloads
data_payloads-append [] gs = refl
data_payloads-append (f ∷ fs) gs = ground (arith, data_payloads-append fs gs)

data_payloads-emit :
    (n p : ℕ) (ss : List (List ℕ)) (e : Encoder) (i : ℕ)
    → data_payloads (emit e kind_data n p i ss).1 ≡ ss
unfolding data_payloads emit
data_payloads-emit n p [] e i = refl
data_payloads-emit n p (s ∷ ss) e i =
    ap (◌∷◌ s) (data_payloads-emit n p ss (record e { sequence = next_u64 e.sequence }) (i + 1))

no_data-emit :
    (n p : ℕ) (ss : List (List ℕ)) (e : Encoder) (i : ℕ)
    → data_payloads (emit e kind_parity n p i ss).1 ≡ []
unfolding data_payloads emit
no_data-emit n p [] e i = refl
no_data-emit n p (s ∷ ss) e i =
    no_data-emit n p ss (record e { sequence = next_u64 e.sequence }) (i + 1)

-- What is sent and what is kept, after a successful call.
abbrev pub Outputs : Encoder × Result EncodeError (List Frame) → List (List ℕ) → Type 0
Outputs (e, err x) ss = Unit {0}
Outputs (e, ok frames) ss = Padded (data_payloads frames ++ e.shards) ss

module _ (code : ReedSolomon) where
  flush_group-Outputs : (e : Encoder) (p : ℕ) → Outputs (flush_group code e p) e.shards
  unfolding flush_group
  flush_group-Outputs e zero =
      rw (data_payloads-emit (length e.shards) 0 e.shards e 0, append-nil e.shards)
        (Padded-refl e.shards)
  flush_group-Outputs e (suc p) =
      let count = length e.shards in
      let padded : Encoder = record e { shards = resize_all (max_length e.shards) e.shards } in
      let sent = emit padded kind_data count (suc p) 0 padded.shards in
      elim (Option-cases (code.encode count (suc p) padded.shards)) [
        | inl failed ↦ rw (flush_group, failed) tt
        | inr (repair, coded) ↦
            let first = data_payloads-emit count (suc p) padded.shards padded 0 in
            let second = no_data-emit count (suc p) repair sent.0 count in
            rw
              (
                flush_group,
                coded,
                data_payloads-append sent.1 (emit sent.0 kind_parity count (suc p) count repair).1,
                first,
                second,
                append-nil padded.shards,
                append-nil padded.shards,
              )
              (Padded-resize_all (max_length e.shards) e.shards)
      ]

  flush-Outputs : (e : Encoder) → Outputs (flush code e) e.shards
  unfolding flush data_payloads
  flush-Outputs e = elim (Bool-cases (length e.shards == 0)) [
    | inl empty ↦ rw (flush, empty) (Padded-refl e.shards)
    | inr filled ↦ rw (flush, filled) (flush_group-Outputs e (group_parity e (length e.shards)))
  ]

  push_shard-Outputs :
      (e : Encoder) (s : List ℕ) → Outputs (push_shard code e s) (e.shards ++ s ∷ [])
  unfolding push_shard data_payloads
  push_shard-Outputs e s =
      let pushed : Encoder = record e { shards = e.shards ++ s ∷ [] } in
      elim (Bool-cases (length pushed.shards == data_shards)) [
        | inl full ↦ rw (push_shard, full) (flush-Outputs pushed)
        | inr open_group ↦ rw (push_shard, open_group) (Padded-refl pushed.shards)
      ]

-- Two successful calls in a row.
Outputs-seq :
    (fs gs : List Frame) (kept1 kept2 before rest : List (List ℕ)) (s : List ℕ)
    → Padded (data_payloads fs ++ kept1) (before ++ s ∷ [])
    → Padded (data_payloads gs ++ kept2) (kept1 ++ rest)
    → Padded (data_payloads (fs ++ gs) ++ kept2) (before ++ s ∷ rest)
Outputs-seq fs gs kept1 kept2 before rest s a b =
    let ps = data_payloads fs in
    let qs = data_payloads gs in
    let first = Padded-append (ps ++ kept1) rest (before ++ s ∷ []) rest a (Padded-refl rest) in
    let second = Padded-append ps (qs ++ kept2) ps (kept1 ++ rest) (Padded-refl ps) b in
    rw (data_payloads-append fs gs, append_assoc ps qs kept2)
      (Padded-trans (ps ++ (qs ++ kept2)) (ps ++ (kept1 ++ rest)) (before ++ s ∷ rest) second (
        subst (Padded (ps ++ (kept1 ++ rest))) (append_assoc before (s ∷ []) rest)
          (subst (λ x. Padded x ((before ++ s ∷ []) ++ rest)) (append_assoc ps kept1 rest) first)))

append_frames-Outputs :
    (r q : Encoder × Result EncodeError (List Frame)) (before rest : List (List ℕ)) (s : List ℕ)
    → Outputs r (before ++ s ∷ [])
    → Outputs q (r.0.shards ++ rest)
    → Outputs (append_frames r q) (before ++ s ∷ rest)
append_frames-Outputs (e, err x) q before rest s a b = tt
append_frames-Outputs (e, ok fs) (l, err x) before rest s a b = tt
append_frames-Outputs (e, ok fs) (l, ok gs) before rest s a b =
    Outputs-seq fs gs e.shards l.shards before rest s a b

module _ (code : ReedSolomon) where
  push_chunks-Outputs :
      (id count : ℕ) (cs : List (List ℕ)) (e : Encoder) (i : ℕ)
      → Outputs (push_chunks code e id count i cs) (e.shards ++ fragment_shards id count i cs)
  unfolding push_chunks data_payloads
  push_chunks-Outputs id count [] e i = rw (append-nil e.shards) (Padded-refl e.shards)
  push_chunks-Outputs id count (c ∷ cs) e i =
      let shard = fragment_shard id i count c in
      let step = push_shard code e shard in
      append_frames-Outputs step (push_chunks code step.0 id count (i + 1) cs) e.shards
        (fragment_shards id count (i + 1) cs) shard (push_shard-Outputs code e shard)
        (push_chunks-Outputs id count cs step.0 (i + 1))

  encode_inversion :
      (e : Encoder) (payload : List ℕ)
      → let r = encode_datagram code e payload in
        let count = div_ceil (max (length payload) 1) chunk_size in
        (r ≡ (record e { packet = next_u64 e.packet }, err datagram_too_large))
        ⊎ (r
            ≡ push_chunks code
                (record e { packet = next_u64 e.packet })
                e.packet
                count
                0
                (datagram_chunks payload))
  unfolding encode_datagram
  encode_inversion e payload = ground arith

concat-datagram_chunks : (payload : List ℕ) → concat (datagram_chunks payload) ≡ payload
unfolding datagram_chunks
concat-datagram_chunks [] = refl
concat-datagram_chunks (x ∷ xs) = concat-chunks chunk_size (x ∷ xs) (omega arith)

length-datagram_chunks :
    (payload : List ℕ)
    → div_ceil (max (length payload) 1) chunk_size ≡ length (datagram_chunks payload)
unfolding datagram_chunks
length-datagram_chunks [] = refl
length-datagram_chunks (x ∷ xs) =
    ap (λ k. div_ceil k chunk_size) (omega arith)
    ∙ sym (length-chunks chunk_size (x ∷ xs) (omega arith))

-- Whatever the code's repair shards are: when a datagram is encoded without an error, the payloads
-- of the data frames that are sent, and then the shards that stay for the next group, are the
-- shards that waited before and then one fragment for each chunk of the datagram, with its packet
-- number, index and count, each once and in order, up to zeros behind a sent shard; and the chunks
-- concatenate to the datagram.
pub encode_datagram-Outputs :
    (code : ReedSolomon) (e : Encoder) (payload : List ℕ)
    → let cs = datagram_chunks payload in
      Outputs
        (encode_datagram code e payload)
        (e.shards ++ fragment_shards e.packet (length cs) 0 cs)
      × (concat cs ≡ payload)
encode_datagram-Outputs code e payload =
    let cs = datagram_chunks payload in
    (
      elim (encode_inversion code e payload) [
        | inl large ↦ rw large tt
        | inr sent ↦
            rw (sent, length-datagram_chunks payload)
              (push_chunks-Outputs code e.packet (length cs) cs _ 0)
      ],
      concat-datagram_chunks payload,
    )
