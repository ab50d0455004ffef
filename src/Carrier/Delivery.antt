-- ===== src/Carrier/Delivery.antt =====
-- Delivery: frames that all arrive, in order and in time, come out as the payload, once.
use smart_fec_tunnel.Base.{
  Result-cases, inl, inr, ℕ, suc, ◌+◌, ◌-◌, ◌^◌, ◌≤◌, ◌<◌, ◌≡◌, refl, sym, ap, subst, ◌∙◌, true,
  false, leb, ==_refl, le→not_ltb, le→leb, lt→not_leb, Option, none, some, List, [], ◌∷◌, ◌++◌,
  append_assoc, length, get_elem?, set, replicate, concat, length-append, length-replicate, Result,
  ok, err, arith,
}
use smart_fec_tunnel.Base.Maps.{
  nat_key, get, insert, remove, HasDistinctKeys, get-insert, get-retain, insert-HasDistinctKeys,
  retain-HasDistinctKeys, same_refl,
}
use smart_fec_tunnel.Base.Chunks.{is_complete, join}
use smart_fec_tunnel.Carrier.{
  CarrierGroup, Groups, CarrierError, prune, fill, collect, place, accept, push, carrier_frame,
  carrier_frames, send_carrier,
}
use smart_fec_tunnel.Carrier.Safety.{push_honest_lem}
use smart_fec_tunnel.Carrier.Send.{sent_chunks, send_carrier_chunks, sent_chunks_nonempty}

-- The parts after the chunks `done` have come and `n` are left.
abbrev progress : List (List ℕ) → ℕ → List (Option (List ℕ))
progress [] n = replicate n none
progress (c ∷ done) n = some c ∷ progress done n

length-progress : (done : List (List ℕ)) (n : ℕ) → length (progress done n) ≡ length done + n
length-progress [] n = omega (arith, length-replicate {A = Option (List ℕ)} n none)
length-progress (c ∷ done) n = omega (arith, length-progress done n)

get_elem?-progress :
    (done : List (List ℕ)) (n : ℕ) → get_elem? (progress done (suc n)) (length done) ≡ some none
get_elem?-progress [] n = refl
get_elem?-progress (d ∷ done) n = get_elem?-progress done n

set-progress :
    (done : List (List ℕ)) (n : ℕ) (c : List ℕ)
    → set (progress done (suc n)) (length done) (some c) ≡ progress (done ++ c ∷ []) n
set-progress [] n c = refl
set-progress (d ∷ done) n c = ap (◌∷◌ (some d)) (set-progress done n c)

fill-progress :
    (done : List (List ℕ)) (n : ℕ) (c : List ℕ)
    → fill (progress done (suc n)) (length done) c ≡ progress (done ++ c ∷ []) n
unfolding fill
fill-progress done n c = rw (fill, get_elem?-progress done n) (set-progress done n c)

progress-is_complete : (done : List (List ℕ)) → is_complete (progress done 0) ≡ true
unfolding is_complete
progress-is_complete [] = refl
progress-is_complete (c ∷ done) = progress-is_complete done

progress-missing : (done : List (List ℕ)) (n : ℕ) → is_complete (progress done (suc n)) ≡ false
unfolding is_complete
progress-missing [] n = refl
progress-missing (c ∷ done) n = progress-missing done n

join-progress : (done : List (List ℕ)) → join (progress done 0) ≡ concat done
unfolding join
join-progress [] = refl
join-progress (c ∷ done) = ap (◌++◌ c) (join-progress done)

-- A payload in front of those that follow.
abbrev pub attach :
    {E : Type 0} → Option (List ℕ) → Result E (List (List ℕ)) → Result E (List (List ℕ))
attach none rest = rest
attach (some p) (ok rest) = ok (p ∷ rest)
attach (some p) (err e) = err e

abbrev pub after_push :
    (Groups → Result CarrierError (List (List ℕ)))
    → Groups × Result CarrierError (Option (List ℕ))
    → Result CarrierError (List (List ℕ))
after_push k (gs, ok out) = attach out (k gs)
after_push k (gs, err e) = err e

-- The payloads that come out when frames arrive one after the other at the time `now`; the first
-- frame that is refused ends it.
unfoldable pub deliver : Groups → ℕ → List (List ℕ) → Result CarrierError (List (List ℕ))
deliver gs now [] = ok []
deliver gs now (frame ∷ frames) = after_push (λ more. deliver more now frames) (push gs now frame)

deliver-push :
    (gs more : Groups) (now : ℕ) (frame : List ℕ) (frames : List (List ℕ)) (out : Option (List ℕ))
    → push gs now frame ≡ (more, ok out)
    → deliver gs now (frame ∷ frames) ≡ attach out (deliver more now frames)
unfolding deliver
deliver-push gs more now frame frames out h = ap (after_push (λ more. deliver more now frames)) h

abbrev pub payloads : Option (List ℕ) → List (List ℕ)
payloads none = []
payloads (some p) = p ∷ []

after_push-ok :
    (k : Groups → Result CarrierError (List (List ℕ)))
    (p : Groups × Result CarrierError (Option (List ℕ))) (out : List (List ℕ))
    → after_push k p ≡ ok out
    → (more : Groups) × (o : Option (List ℕ)) × (rest : List (List ℕ)) × (p ≡ (more, ok o))
      × (k more ≡ ok rest)
      × (out ≡ payloads o ++ rest)
after_push-ok k (gs, err e) out h = cc
after_push-ok k (gs, ok none) out h = (gs, none, out, refl, h, refl)
after_push-ok k (gs, ok (some x)) out h = elim (Result-cases (k gs)) [
  | inl (rest, e) ↦ (gs, some x, rest, refl, e, ground arith)
  | inr (why, e) ↦ absurd (ground arith)
]

-- What the first frame and the others gave, when all are accepted.
pub deliver-ok :
    (gs : Groups) (now : ℕ) (frame : List ℕ) (frames out : List (List ℕ))
    → deliver gs now (frame ∷ frames) ≡ ok out
    → (more : Groups) × (o : Option (List ℕ)) × (rest : List (List ℕ)) × (push gs now frame
        ≡ (more, ok o))
      × (deliver more now frames ≡ ok rest)
      × (out ≡ payloads o ++ rest)
unfolding deliver
deliver-ok gs now frame frames out h =
    after_push-ok (λ more. deliver more now frames) (push gs now frame) out h

-- The group that has the chunks `done`.
abbrev group_at : ℕ → List (List ℕ) → ℕ → CarrierGroup
group_at t done n = record { created = t; parts = progress done n }

place_next :
    (gs : Groups) (m t count : ℕ) (done : List (List ℕ)) (n : ℕ) (c : List ℕ)
    → count ≡ length done + suc n
    → place gs m (length done) count c (group_at t done (suc n))
      ≡ collect gs m (group_at t (done ++ c ∷ []) n)
unfolding place
place_next gs m t count done n c h =
    let size : length (progress done (suc n)) ≡ count =
      omega (arith, length-progress done (suc n)) in
    rw (size, ==_refl count, fill-progress done n c)

collect_last :
    (gs : Groups) (m t : ℕ) (done : List (List ℕ))
    → length (concat done) ≤ 65535
    → collect gs m (group_at t done 0) ≡ (remove m gs, ok (some (concat done)))
unfolding collect
collect_last gs m t done h =
    rw (progress-is_complete done, join-progress done, le→not_ltb 65535 (length (concat done)) h)

collect_more :
    (gs : Groups) (m t : ℕ) (done : List (List ℕ)) (n : ℕ)
    → collect gs m (group_at t done (suc n)) ≡ (insert m (group_at t done (suc n)) gs, ok none)
unfolding collect
collect_more gs m t done n = rw (progress-missing done n)

-- A group is there with the chunks `done` and waits for `n` more, and it has not expired.
record IsWaiting (gs : Groups) (now m t : ℕ) (done : List (List ℕ)) (n : ℕ) : Type 0 where
  age : now - t ≤ 3000
  found : get m gs ≡ some (group_at t done n)
  distinct : HasDistinctKeys gs

prune-IsWaiting :
    (gs : Groups) (now m t : ℕ) (done : List (List ℕ)) (n : ℕ)
    → IsWaiting gs now m t done n
    → IsWaiting (prune now gs) now m t done n
unfolding prune
prune-IsWaiting gs now m t done n w = record {
  age = w.age;
  found =
      get-retain m (λ g. leb (now - g.created) 3000) gs w.distinct
      ∙ rw (w.found, le→leb (now - t) 3000 w.age);
  distinct = retain-HasDistinctKeys _ gs w.distinct;
}

insert-IsWaiting :
    (gs : Groups) (now m t : ℕ) (done : List (List ℕ)) (n : ℕ)
    → now - t ≤ 3000
    → HasDistinctKeys gs
    → IsWaiting (insert m (group_at t done n) gs) now m t done n
insert-IsWaiting gs now m t done n young d = record {
  age = young;
  found = get-insert m m (group_at t done n) gs ∙ rw (same_refl m);
  distinct = insert-HasDistinctKeys m (group_at t done n) gs d;
}

next_frame :
    (gs : Groups) (now m t : ℕ) (done : List (List ℕ)) (n : ℕ) (c : List ℕ)
    → IsWaiting gs now m t done (suc n)
    → m < 256 ^ 8
    → length done + suc n ≤ 128
    → push gs now (carrier_frame m (length done) (length done + suc n) c)
      ≡ collect (prune now gs) m (group_at t (done ++ c ∷ []) n)
unfolding accept
next_frame gs now m t done n c w hm small =
    rw
      (
        accept,
        push_honest_lem gs now m (length done) (length done + suc n) c hm (omega arith) small,
        (prune-IsWaiting gs now m t done (suc n) w).found,
      )
      (place_next (prune now gs) m t (length done + suc n) done n c refl)

length-snoc : (done : List (List ℕ)) (c : List ℕ) → length (done ++ c ∷ []) ≡ length done + 1
length-snoc done c = length-append done (c ∷ [])

-- The frames that are left give the payload, once the first of them has been put in its group.
deliver_rest :
    (gs pruned : Groups) (now m t count : ℕ) (done : List (List ℕ)) (c : List ℕ)
    (rest : List (List ℕ))
    → push gs now (carrier_frame m (length done) count c)
      ≡ collect pruned m (group_at t (done ++ c ∷ []) (length rest))
    → HasDistinctKeys pruned
    → now - t ≤ 3000
    → count ≡ length done + suc (length rest)
    → m < 256 ^ 8
    → count ≤ 128
    → length (concat (done ++ c ∷ rest)) ≤ 65535
    → deliver gs now (carrier_frames m count (length done) (c ∷ rest))
      ≡ ok (concat (done ++ c ∷ rest) ∷ [])
unfolding deliver carrier_frames
deliver_rest gs pruned now m t count done c [] step d young e hm small total =
    deliver-push gs _ now (carrier_frame m (length done) count c) [] _
      (step ∙ collect_last pruned m t (done ++ c ∷ []) total)
deliver_rest gs pruned now m t count done c (b ∷ rest) step d young e hm small total =
    let later = done ++ c ∷ [] in
    let gs1 = insert m (group_at t later (suc (length rest))) pruned in
    let w = insert-IsWaiting pruned now m t later (suc (length rest)) young d in
    let snoc = length-snoc done c in
    let assoc = append_assoc done (c ∷ []) (b ∷ rest) in
    let e1 : count ≡ length later + suc (length rest) = omega (arith, snoc, e) in
    let step1 =
      subst
        (λ k.
          push gs1 now (carrier_frame m (length later) k b)
          ≡ collect (prune now gs1) m (group_at t (later ++ b ∷ []) (length rest)))
        (sym e1)
        (next_frame gs1 now m t later (length rest) b w hm (subst (λ k. k ≤ 128) e1 small)) in
    let distinct = (prune-IsWaiting gs1 now m t later (suc (length rest)) w).distinct in
    deliver-push gs gs1 now (carrier_frame m (length done) count c)
      (carrier_frames m count (length done + 1) (b ∷ rest)) none
      (step ∙ collect_more pruned m t later (length rest))
    ∙ (subst
        (λ k.
          deliver gs1 now (carrier_frames m count k (b ∷ rest))
          ≡ ok (concat (done ++ c ∷ b ∷ rest) ∷ []))
        snoc
        (deliver_rest gs1 (prune now gs1) now m t count later b rest step1 distinct young e1 hm
            small (subst (λ k. length (concat k) ≤ 65535) (sym assoc) total)
          ∙ ap (λ k. ok (concat k ∷ [])) assoc))

-- There is room for the group of a new message.
pub record HasRoom (gs : Groups) (now m : ℕ) : Type 0 where
  pub distinct : HasDistinctKeys gs
  pub absent : get m gs ≡ none
  pub room : length (prune now gs) < 2048

first_frame :
    (gs : Groups) (now m n : ℕ) (c : List ℕ)
    → HasRoom gs now m
    → m < 256 ^ 8
    → suc n ≤ 128
    → push gs now (carrier_frame m 0 (suc n) c) ≡ collect (prune now gs) m (group_at now (c ∷ []) n)
unfolding accept prune
first_frame gs now m n c r hm small =
    let none_left : get m (prune now gs) ≡ none =
      get-retain m (λ g. leb (now - g.created) 3000) gs r.distinct ∙ rw (r.absent) in
    rw
      (
        accept,
        push_honest_lem gs now m 0 (suc n) c hm (omega arith) small,
        none_left,
        lt→not_leb 2048 (length (prune now gs)) r.room,
      )
      (place_next (prune now gs) m now (suc n) [] n c (omega arith))

chunks_delivered :
    (gs : Groups) (now m : ℕ) (cs : List (List ℕ))
    → 0 < length cs
    → HasRoom gs now m
    → m < 256 ^ 8
    → length cs ≤ 128
    → length (concat cs) ≤ 65535
    → deliver gs now (carrier_frames m (length cs) 0 cs) ≡ ok (concat cs ∷ [])
chunks_delivered gs now m [] p r hm small total = absurd (omega arith)
chunks_delivered gs now m (c ∷ rest) p r hm small total =
    deliver_rest gs (prune now gs) now m now (suc (length rest)) [] c rest
      (first_frame gs now m (length rest) c r hm small)
      (unfold prune in retain-HasDistinctKeys _ gs r.distinct) (omega arith) (omega arith) hm small
      total

-- What `send_carrier` puts on the connection for a payload of at most 65535 bytes, delivered to
-- `push` in order and at one time, gives that payload and nothing else, without an error, if the
-- receiver has no group of that message number and fewer than 2048 groups that have not expired.
pub deliver-send_carrier :
    (gs : Groups) (now maximum message next : ℕ) (payload : List ℕ) (frames : List (List ℕ))
    → send_carrier (some maximum) payload message ≡ ok (next, frames)
    → length payload ≤ 65535
    → HasRoom gs now next
    → deliver gs now frames ≡ ok (payload ∷ [])
deliver-send_carrier gs now maximum message next payload frames sent size r =
    let (counted, all, whole, few) = send_carrier_chunks maximum message next payload frames sent in
    let cs = sent_chunks (maximum - 12) payload in
    let total : length (concat cs) ≤ 65535 = subst (λ k. length k ≤ 65535) (sym whole) size in
    let some_chunk = sent_chunks_nonempty maximum message next payload frames sent in
    let range : next < 256 ^ 8 = omega (arith, counted) in
    rw all
      (chunks_delivered gs now next cs some_chunk r range few total ∙ ap (λ k. ok (k ∷ [])) whole)
