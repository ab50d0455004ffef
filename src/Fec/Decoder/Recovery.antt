-- ===== src/Fec/Decoder/Recovery.antt =====
-- Recovery: once enough shards of a group have come, every data shard has been delivered, once.
use smart_fec_tunnel.Base.{
  ℕ, zero, suc, ◌+◌, ◌≤◌, ◌<◌, ◌||◌, ◌≡◌, refl, sym, ap, subst, ◌∙◌, true, false, Bool-cases, inl,
  inr, none, some, List, [], ◌∷◌, ◌++◌, length, get_elem?, take, replicate, Result, ok, err, arith,
}
use smart_fec_tunnel.Base.Chunks.{Fits, Fits-replicate}
use smart_fec_tunnel.Fec.{ReedSolomon}
use smart_fec_tunnel.Fec.Decoder.{Group, DecodeError, present, any_undelivered, absorb}
use smart_fec_tunnel.Base.Chunks.{Fits-length}
use smart_fec_tunnel.Fec.Decoder.Holding.{
  IsGroupOf, IsRestoring, waiting, multiplicity, multiplicity-append, waiting_none, IsHolding,
  Absorbed, multiplicity_nil_left, multiplicity_nil, absorb-Absorbed,
}
use smart_fec_tunnel.Fec.Decoder.Stored.{
  is_there, absorb-is_there, has_come, places_from, places_from-le,
}

-- Shards of `ws` that arrive, each with its index.
abbrev pub AllOf : List (List ℕ) → List (ℕ × List ℕ) → Type 0
AllOf ws [] = Unit {0}
AllOf ws ((i, w) ∷ rest) = (get_elem? ws i ≡ some w) × AllOf ws rest

abbrev delivered_of : Result DecodeError (List (List ℕ)) → List (List ℕ)
delivered_of (err e) = []
delivered_of (ok out) = out

-- The group after the arrivals, and all that they deliver.
unfoldable pub absorb_all : ReedSolomon → Group → List (ℕ × List ℕ) → Group × List (List ℕ)
absorb_all code g [] = (g, [])
absorb_all code g ((i, w) ∷ rest) =
    let first = absorb code g i w in
    let later = absorb_all code first.0 rest in (later.0, delivered_of first.1 ++ later.1)

-- Before and after the arrivals.
abbrev Balanced : Group → ℕ → ℕ → List (List ℕ) → Group × List (List ℕ) → Type 0
Balanced g n p ws r =
    IsHolding r.0 n p ws
    × ((x : List ℕ)
        → multiplicity x r.1 + multiplicity x (waiting r.0.delivered ws)
          ≡ multiplicity x (waiting g.delivered ws))

Balanced-step :
    (g : Group) (n p : ℕ) (ws : List (List ℕ)) (r : Group × Result DecodeError (List (List ℕ)))
    (q : Group × List (List ℕ))
    → Absorbed g n p ws r
    → (IsHolding r.0 n p ws → Balanced r.0 n p ws q)
    → Balanced g n p ws (q.0, delivered_of r.1 ++ q.1)
Balanced-step g n p ws (g1, err e) q a b = absurd a
Balanced-step g n p ws (g1, ok out) q a b =
    let later = b a.0 in
    (later.0, λ x. omega (arith, multiplicity-append x out q.1, a.1 x, later.1 x))

module _ (code : ReedSolomon) (law : IsRestoring code) (n p : ℕ) (ws : List (List ℕ))
    (own : IsGroupOf code n p ws) (pos : 0 < p) where
  absorb_all-Balanced :
      (arrivals : List (ℕ × List ℕ)) (g : Group)
      → IsHolding g n p ws
      → AllOf ws arrivals
      → Balanced g n p ws (absorb_all code g arrivals)
  unfolding absorb_all
  absorb_all-Balanced [] g h all = (h, λ x. multiplicity_nil_left x (waiting g.delivered ws))
  absorb_all-Balanced ((i, w) ∷ rest) g h all =
      let first = absorb code g i w in
      Balanced-step g n p ws first (absorb_all code first.0 rest)
        (absorb-Absorbed code law n p ws own pos g i w h all.0)
        (λ k. absorb_all-Balanced rest first.0 k all.1)

Absorbed-IsHolding :
    (g : Group) (n p : ℕ) (ws : List (List ℕ)) (r : Group × Result DecodeError (List (List ℕ)))
    → Absorbed g n p ws r
    → IsHolding r.0 n p ws
Absorbed-IsHolding g n p ws (g1, err e) a = absurd a
Absorbed-IsHolding g n p ws (g1, ok out) a = a.0

module _ (code : ReedSolomon) (law : IsRestoring code) (n p : ℕ) (ws : List (List ℕ))
    (own : IsGroupOf code n p ws) (pos : 0 < p) where
  -- What arrives is stored in the end.
  absorb_all-is_there :
      (arrivals : List (ℕ × List ℕ)) (g : Group) (j : ℕ)
      → IsHolding g n p ws
      → AllOf ws arrivals
      → (has_come j arrivals || is_there g.shards j) ≡ true
      → is_there (absorb_all code g arrivals).0.shards j ≡ true
  unfolding absorb_all has_come
  absorb_all-is_there [] g j h all come = come
  absorb_all-is_there ((i, w) ∷ rest) g j h all come =
      let first = absorb code g i w in
      let next =
        Absorbed-IsHolding g n p ws first (absorb-Absorbed code law n p ws own pos g i w h all.0) in
      let one = absorb-is_there code n p ws g i j w law own pos h all.0 in
      absorb_all-is_there rest first.0 j next all.1 (elim (Bool-cases (has_come j rest)) [
        | inl later ↦ ground arith
        | inr not_later ↦ ground (arith, one (ground arith))
      ])

waiting_all : (n : ℕ) (ws : List (List ℕ)) → waiting (replicate n false) ws ≡ take n ws
unfolding waiting
waiting_all zero ws = refl
waiting_all (suc n) [] = refl
waiting_all (suc n) (w ∷ ws) = ap (◌∷◌ w) (waiting_all n ws)

-- The group that a first frame makes.
abbrev pub empty_group : ℕ → ℕ → ℕ → Group
empty_group now n p = record {
  created = now;
  data_count = n;
  parity_count = p;
  shards = replicate (n + p) none;
  delivered = replicate n false;
}

present-replicate : (k : ℕ) → present (replicate k none) ≡ 0
unfolding present
present-replicate zero = refl
present-replicate (suc k) = present-replicate k

empty_group-IsHolding :
    (now n p : ℕ) (ws : List (List ℕ))
    → 0 < n
    → length ws ≡ n + p
    → IsHolding (empty_group now n p) n p ws
empty_group-IsHolding now n p ws some_data size = record {
  data_size = refl;
  parity_size = refl;
  fits = subst (λ k. Fits (replicate k none) ws) size (Fits-replicate ws);
  recovered = ground (arith, present-replicate (n + p));
}

-- Shards of one group, which has repair shards, arrive in any order, more than once or not at all,
-- and the package keeps its promise. If shards of at least `n` of the `n + p` places are among the
-- arrivals (a place counts once, and a repair shard like a data shard), every data shard has been
-- delivered exactly as often as it is in the group: none is lost, none comes twice.
pub absorb_all-take :
    (code : ReedSolomon) (now n p : ℕ) (ws : List (List ℕ)) (arrivals : List (ℕ × List ℕ))
    → IsRestoring code
    → IsGroupOf code n p ws
    → 0 < p
    → length ws ≡ n + p
    → AllOf ws arrivals
    → n ≤ places_from 0 (n + p) arrivals
    → (x : List ℕ)
    → multiplicity x (absorb_all code (empty_group now n p) arrivals).1 ≡ multiplicity x (take n ws)
absorb_all-take code now n p ws arrivals law own pos size all come x =
    let g = empty_group now n p in
    let (holding, balance) =
      absorb_all-Balanced code law n p ws own pos arrivals g
        (empty_group-IsHolding now n p ws own.some_data size) all in
    let last = (absorb_all code g arrivals).0 in
    let stored = places_from-le last.shards 0 arrivals (λ j h.
      absorb_all-is_there code law n p ws own pos arrivals g j
        (empty_group-IsHolding now n p ws own.some_data size) all (ground (arith, h))) in
    let whole : length last.shards ≡ n + p = Fits-length last.shards ws holding.fits ∙ size in
    let many : n ≤ present last.shards =
      omega
        (arith, come, subst (λ k. places_from 0 k arrivals ≤ present last.shards) whole stored) in
    let over : any_undelivered last.delivered ≡ false =
      ground (arith, holding.recovered, holding.data_size, holding.parity_size) in
    let none_left = waiting_none last.delivered ws over in
    let all_waited = waiting_all n ws in
    let b = balance x in
    sym (multiplicity_nil x (multiplicity x (absorb_all code g arrivals).1))
    ∙ subst
        (λ z.
          multiplicity x (absorb_all code g arrivals).1 + multiplicity x z
          ≡ multiplicity x (take n ws))
        none_left (b ∙ ap (multiplicity x) all_waited)
