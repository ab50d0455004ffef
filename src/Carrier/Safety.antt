-- ===== src/Carrier/Safety.antt =====
-- Reassembly never invents a payload: whatever frames of honest senders arrive, in any order, more
-- than once, interleaved and with losses, what comes out is a payload that was sent.
use smart_fec_tunnel.Base.{
  ℕ, ◌+◌, ◌%◌, ◌^◌, ◌≤◌, ◌<◌, ◌≡◌, refl, sym, subst, ◌∙◌, Bool, false, ◌||◌, ltb, leb, ◌==◌, ◌⊎◌,
  inl, inr, Bool-cases, le→not_ltb, Option-cases, Option, none, some, List, [], ◌∷◌, length,
  get_elem?, drop, concat, Result, ok, err, arith,
}
use smart_fec_tunnel.Base.Bytes.{be, from_be, slice, from_be-be}
use smart_fec_tunnel.Base.Maps.{nat_key, get, insert, remove, retain}
use smart_fec_tunnel.Base.Chunks.{is_complete, join, Fits, Fits-set, Fits-replicate, join-Fits}
use smart_fec_tunnel.Carrier.{
  CarrierGroup, Groups, CarrierError, short_fragment, invalid_dimensions, max_carrier_fragments,
  max_carrier_groups, prune, fill, collect, place, accept, push, carrier_frame,
}

-- What was sent: for each message number its chunks.
abbrev pub Sent : Type 0
Sent = ℕ → List (List ℕ)

-- Every group holds only chunks of its message, each at its place.
abbrev pub IsConsistent : Sent → Groups → Type 0
IsConsistent sent [] = Unit {0}
IsConsistent sent ((m, g) ∷ gs) = Fits g.parts (sent m) × IsConsistent sent gs

fill-Fits :
    (ps : List (Option (List ℕ))) (cs : List (List ℕ)) (i : ℕ) (c : List ℕ)
    → Fits ps cs
    → get_elem? cs i ≡ some c
    → Fits (fill ps i c) cs
unfolding fill
fill-Fits ps cs i c f h = ground (arith, Fits-set ps cs i c f h)

retain-IsConsistent :
    (sent : Sent) (p : CarrierGroup → Bool) (gs : Groups)
    → IsConsistent sent gs
    → IsConsistent sent (retain p gs)
unfolding retain
retain-IsConsistent sent p [] k = tt
retain-IsConsistent sent p ((m, g) ∷ gs) k = ground (arith, retain-IsConsistent sent p gs k.1)

insert-IsConsistent :
    (sent : Sent) (m : ℕ) (g : CarrierGroup) (gs : Groups)
    → Fits g.parts (sent m)
    → IsConsistent sent gs
    → IsConsistent sent (insert m g gs)
unfolding insert
insert-IsConsistent sent m g [] f k = (f, tt)
insert-IsConsistent sent m g ((n, h) ∷ gs) f k =
    ground (arith, insert-IsConsistent sent m g gs f k.1)

remove-IsConsistent :
    (sent : Sent) (m : ℕ) (gs : Groups) → IsConsistent sent gs → IsConsistent sent (remove m gs)
unfolding remove
remove-IsConsistent sent m [] k = tt
remove-IsConsistent sent m ((n, h) ∷ gs) k = ground (arith, remove-IsConsistent sent m gs k.1)

get-Fits :
    (sent : Sent) (m : ℕ) (gs : Groups) (g : CarrierGroup)
    → IsConsistent sent gs
    → get m gs ≡ some g
    → Fits g.parts (sent m)
unfolding get
get-Fits sent m [] g k h = absurd (ground arith)
get-Fits sent m ((n, x) ∷ gs) g k h = elim (Bool-cases (m == n)) [
  | inl here ↦
      let same : n ≡ m = ground arith in
      let this : x ≡ g = ground arith in
      subst (λ y. Fits y.parts (sent m)) this (subst (λ i. Fits x.parts (sent i)) same k.0)
  | inr other ↦ get-Fits sent m gs g k.1 (ground arith)
]

-- The result of `push`, if it is a payload, is the concatenation of the message's chunks.
abbrev pub IsSent : List (List ℕ) → Result CarrierError (Option (List ℕ)) → Type 0
IsSent cs (err e) = Unit {0}
IsSent cs (ok none) = Unit {0}
IsSent cs (ok (some payload)) = payload ≡ concat cs

collect-IsConsistent :
    (sent : Sent) (gs : Groups) (m : ℕ) (g : CarrierGroup)
    → IsConsistent sent gs
    → Fits g.parts (sent m)
    → IsConsistent sent (collect gs m g).0 × IsSent (sent m) (collect gs m g).1
unfolding collect
collect-IsConsistent sent gs m g k f = elim (Bool-cases (is_complete g.parts)) [
  | inr missing ↦ rw (collect, missing) (insert-IsConsistent sent m g gs f k, tt)
  | inl whole ↦ elim (Bool-cases (ltb 65535 (length (join g.parts)))) [
    | inl big ↦ rw (collect, whole, big) (remove-IsConsistent sent m gs k, tt)
    | inr fits ↦
        rw (collect, whole, fits)
          (remove-IsConsistent sent m gs k, join-Fits g.parts (sent m) f whole)
  ]
]

place-IsConsistent :
    (sent : Sent) (gs : Groups) (m i count : ℕ) (part : List ℕ) (g : CarrierGroup)
    → IsConsistent sent gs
    → Fits g.parts (sent m)
    → get_elem? (sent m) i ≡ some part
    → let r = place gs m i count part g in IsConsistent sent r.0 × IsSent (sent m) r.1
place-IsConsistent sent gs m i count part g k f h = elim (Bool-cases (length g.parts == count)) [
  | inr differs ↦ unfold place in rw differs (insert-IsConsistent sent m g gs f k, tt)
  | inl agrees ↦
      unfold place in
      rw agrees (
        collect-IsConsistent sent gs m (record g { parts = fill g.parts i part }) k
          (fill-Fits g.parts (sent m) i part f h))
]

accept-IsConsistent :
    (sent : Sent) (gs : Groups) (now m i : ℕ) (part : List ℕ)
    → IsConsistent sent gs
    → get_elem? (sent m) i ≡ some part
    → let r = accept gs now m i (length (sent m)) part in
      IsConsistent sent r.0 × IsSent (sent m) r.1
unfolding accept
accept-IsConsistent sent gs now m i part k h = elim (Option-cases (get m gs)) [
  | inr (g, there) ↦
      rw (accept, there)
        (place-IsConsistent sent gs m i (length (sent m)) part g k (get-Fits sent m gs g k there) h)
  | inl absent ↦ elim (Bool-cases (leb max_carrier_groups (length gs))) [
    | inl full ↦ rw (accept, absent, full) (k, tt)
    | inr room ↦
        rw (accept, absent, room)
          (place-IsConsistent sent gs m i (length (sent m)) part _ k (Fits-replicate (sent m)) h)
  ]
]

-- The header of a frame is read back.
module _ (m i count : ℕ) (part : List ℕ) (hm : m < 256 ^ 8) (hi : i < 65536)
    (hc : count < 65536) where
  frame_message : from_be (slice 0 8 (carrier_frame m i count part)) ≡ m
  unfolding carrier_frame be
  frame_message = from_be-be 8 m hm

  frame_index : from_be (slice 8 10 (carrier_frame m i count part)) ≡ i
  unfolding carrier_frame be
  frame_index =
      let e : i % 65536 ≡ i = omega arith in
      subst (λ n. from_be (be 2 n) ≡ i) (sym e) (from_be-be 2 i hi)

  frame_count : from_be (slice 10 12 (carrier_frame m i count part)) ≡ count
  unfolding carrier_frame be
  frame_count =
      let e : count % 65536 ≡ count = omega arith in
      subst (λ n. from_be (be 2 n) ≡ count) (sym e) (from_be-be 2 count hc)

  frame_part : drop 12 (carrier_frame m i count part) ≡ part
  unfolding carrier_frame be
  frame_part = refl

abbrev bad_dimensions : List ℕ → Bool
bad_dimensions frame =
    from_be (slice 10 12 frame) == 0
    || (ltb max_carrier_fragments (from_be (slice 10 12 frame))
        || leb (from_be (slice 10 12 frame)) (from_be (slice 8 10 frame)))

-- `push` of a frame is `accept` of its parts, or a refusal of the frame that changes nothing.
pub push_cases :
    (gs : Groups) (now : ℕ) (frame : List ℕ)
    → ((e : CarrierError) × (push gs now frame ≡ (gs, err e)))
      ⊎ (push gs now frame
          ≡ accept
              (prune now gs)
              now
              (from_be (slice 0 8 frame))
              (from_be (slice 8 10 frame))
              (from_be (slice 10 12 frame))
              (drop 12 frame))
unfolding push
push_cases gs now frame = elim (Bool-cases (ltb (length frame) 12)) [
  | inl short ↦ inl (short_fragment, rw (push, short))
  | inr long ↦ elim (Bool-cases (bad_dimensions frame)) [
    | inl bad ↦ inl (invalid_dimensions, rw (push, long, bad))
    | inr good ↦ inr (rw (push, long, good))
  ]
]

-- A frame of a sender, whenever it arrives and whatever came before, keeps every group to chunks
-- of its own message, and if it completes a payload, that payload is the message as it was sent.
pub push-IsConsistent :
    (sent : Sent) (gs : Groups) (now m i : ℕ) (part : List ℕ)
    → IsConsistent sent gs
    → get_elem? (sent m) i ≡ some part
    → m < 256 ^ 8
    → i < 65536
    → length (sent m) < 65536
    → let r = push gs now (carrier_frame m i (length (sent m)) part) in
      IsConsistent sent r.0 × IsSent (sent m) r.1
push-IsConsistent sent gs now m i part k h hm hi hc =
    elim (push_cases gs now (carrier_frame m i (length (sent m)) part)) [
      | inl (e, refused) ↦ rw refused (k, tt)
      | inr accepted ↦
          rw
            (
              accepted,
              frame_message m i (length (sent m)) part hm hi hc,
              frame_index m i (length (sent m)) part hm hi hc,
              frame_count m i (length (sent m)) part hm hi hc,
              frame_part m i (length (sent m)) part hm hi hc,
            )
            (accept-IsConsistent sent (prune now gs) now m i part
              (unfold prune in retain-IsConsistent sent _ gs k) h)
    ]

push_good :
    (gs : Groups) (now : ℕ) (frame : List ℕ)
    → 12 ≤ length frame
    → bad_dimensions frame ≡ false
    → push gs now frame
      ≡ accept
          (prune now gs)
          now
          (from_be (slice 0 8 frame))
          (from_be (slice 8 10 frame))
          (from_be (slice 10 12 frame))
          (drop 12 frame)
unfolding push
push_good gs now frame l good = rw (le→not_ltb (length frame) 12 l, good)

length-carrier_frame :
    (m i count : ℕ) (part : List ℕ) → length (carrier_frame m i count part) ≡ 12 + length part
unfolding carrier_frame be
length-carrier_frame m i count part = omega arith

good_dimensions :
    (frame : List ℕ) (i count : ℕ)
    → from_be (slice 8 10 frame) ≡ i
    → from_be (slice 10 12 frame) ≡ count
    → i < count
    → count ≤ max_carrier_fragments
    → bad_dimensions frame ≡ false
good_dimensions frame i count hi hc l h = ground arith

-- `push` of a frame with good dimensions is `accept` of what was written into it.
pub push_honest_lem :
    (gs : Groups) (now m i count : ℕ) (part : List ℕ)
    → m < 256 ^ 8
    → i < count
    → count ≤ max_carrier_fragments
    → push gs now (carrier_frame m i count part) ≡ accept (prune now gs) now m i count part
push_honest_lem gs now m i count part hm hi hc =
    let frame = carrier_frame m i count part in
    let fi = frame_index m i count part hm (omega arith) (omega arith) in
    let fc = frame_count m i count part hm (omega arith) (omega arith) in
    let fm = frame_message m i count part hm (omega arith) (omega arith) in
    let fp = frame_part m i count part hm (omega arith) (omega arith) in
    push_good gs now frame (omega (arith, length-carrier_frame m i count part))
      (good_dimensions frame i count fi fc hi hc)
    ∙ rw (fm, fi, fc, fp)

-- The arrival of chunk `index` of a message.
pub record Arrival : Type 0 where
  pub now : ℕ
  pub message : ℕ
  pub index : ℕ
  pub part : List ℕ

-- The chunk is one of those that were sent, and the header's numbers fit their fields.
pub record IsHonest (sent : Sent) (a : Arrival) : Type 0 where
  pub chunk : get_elem? (sent a.message) a.index ≡ some a.part
  pub message_range : a.message < 256 ^ 8
  pub index_range : a.index < 65536
  pub count_range : length (sent a.message) < 65536

abbrev pub AllHonest : Sent → List Arrival → Type 0
AllHonest sent [] = Unit {0}
AllHonest sent (a ∷ rest) = IsHonest sent a × AllHonest sent rest

abbrev pub arrive : Sent → Groups → Arrival → Groups × Result CarrierError (Option (List ℕ))
arrive sent gs a = push gs a.now (carrier_frame a.message a.index (length (sent a.message)) a.part)

-- Every result of a run is an error, nothing yet, or the payload of the message that arrived.
abbrev pub AllSent : Sent → Groups → List Arrival → Type 0
AllSent sent gs [] = Unit {0}
AllSent sent gs (a ∷ rest) =
    IsSent (sent a.message) (arrive sent gs a).1 × AllSent sent (arrive sent gs a).0 rest

-- Over any run of arrivals, in any order, with repetitions, losses, several messages interleaved
-- and groups that expire, every payload that comes out is the concatenation of the chunks of the
-- message whose frame completed it.
pub run-AllSent :
    (sent : Sent) (gs : Groups) (arrivals : List Arrival)
    → IsConsistent sent gs
    → AllHonest sent arrivals
    → AllSent sent gs arrivals
run-AllSent sent gs [] k h = tt
run-AllSent sent gs (a ∷ rest) k h =
    let r =
      push-IsConsistent sent gs a.now a.message a.index a.part k h.0.chunk h.0.message_range
        h.0.index_range h.0.count_range in
    (r.1, run-AllSent sent (arrive sent gs a).0 rest r.0 h.1)
