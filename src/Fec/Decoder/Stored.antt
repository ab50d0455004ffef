-- ===== src/Fec/Decoder/Stored.antt =====
-- Every shard that arrives is stored, and stays.
use smart_fec_tunnel.Base.{
  ℕ, zero, suc, ◌+◌, ◌≤◌, ◌<◌, ◌||◌, ◌==◌, ◌≡◌, refl, subst, Bool, true, false, if◌then◌else◌,
  Bool-cases, inl, inr, Option, none, some, List, [], ◌∷◌, map, length, get_elem?, set, arith,
}
use smart_fec_tunnel.Base.Chunks.{Fits}
use smart_fec_tunnel.Fec.{ReedSolomon}
use smart_fec_tunnel.Fec.Decoder.{Group, present, keep, mark, can_recover, absorb}
use smart_fec_tunnel.Fec.Decoder.Holding.{IsGroupOf, IsRestoring, IsHolding, keep-Fits}
use smart_fec_tunnel.Base.Chunks.{Fits-length}

-- Whether the shard of a place is there.
unfoldable pub is_there : List (Option (List ℕ)) → ℕ → Bool
is_there [] j = false
is_there (none ∷ ps) zero = false
is_there (some s ∷ ps) zero = true
is_there (p ∷ ps) (suc j) = is_there ps j

set-is_there :
    (ps : List (Option (List ℕ))) (i j : ℕ) (w : List ℕ)
    → is_there ps j ≡ true
    → is_there (set ps i (some w)) j ≡ true
unfolding is_there
set-is_there [] i j w h = cc
set-is_there (none ∷ ps) i zero w h = cc
set-is_there (some s ∷ ps) zero zero w h = refl
set-is_there (some s ∷ ps) (suc i) zero w h = refl
set-is_there (p ∷ ps) zero (suc j) w h = h
set-is_there (p ∷ ps) (suc i) (suc j) w h = set-is_there ps i j w h

keep-is_there :
    (ps : List (Option (List ℕ))) (i j : ℕ) (w : List ℕ)
    → is_there ps j ≡ true
    → is_there (keep ps i w) j ≡ true
unfolding keep
keep-is_there ps i j w h = ground (arith, set-is_there ps i j w h)

keep-is_there_self :
    (ps : List (Option (List ℕ))) (i : ℕ) (w : List ℕ)
    → i < length ps
    → is_there (keep ps i w) i ≡ true
unfolding keep is_there
keep-is_there_self [] i w h = absurd (omega arith)
keep-is_there_self (none ∷ ps) zero w h = refl
keep-is_there_self (some s ∷ ps) zero w h = refl
keep-is_there_self (p ∷ ps) (suc i) w h = ground (arith, keep-is_there_self ps i w (omega arith))

map-is_there : (ws : List (List ℕ)) (j : ℕ) → j < length ws → is_there (map some ws) j ≡ true
unfolding is_there
map-is_there [] j h = absurd (omega arith)
map-is_there (w ∷ ws) zero h = refl
map-is_there (w ∷ ws) (suc j) h = map-is_there ws j (omega arith)

is_there_below : (ps : List (Option (List ℕ))) (j : ℕ) → is_there ps j ≡ true → j < length ps
unfolding is_there
is_there_below [] j h = cc
is_there_below (none ∷ ps) zero h = cc
is_there_below (some s ∷ ps) zero h = omega arith
is_there_below (p ∷ ps) (suc j) h = omega (arith, is_there_below ps j h)

get_elem?_below :
    (ws : List (List ℕ)) (i : ℕ) (w : List ℕ) → get_elem? ws i ≡ some w → i < length ws
get_elem?_below [] i w h = absurd (ground arith)
get_elem?_below (v ∷ ws) zero w h = omega arith
get_elem?_below (v ∷ ws) (suc i) w h = omega (arith, get_elem?_below ws i w h)

-- Once a shard of this place has come, or was there.
pub absorb-is_there :
    (code : ReedSolomon) (n p : ℕ) (ws : List (List ℕ)) (g : Group) (i j : ℕ) (w : List ℕ)
    → IsRestoring code
    → IsGroupOf code n p ws
    → 0 < p
    → IsHolding g n p ws
    → get_elem? ws i ≡ some w
    → (j == i || is_there g.shards j) ≡ true
    → is_there (absorb code g i w).0.shards j ≡ true
unfolding absorb
absorb-is_there code n p ws g i j w law own pos h at come =
    let marked = mark g i w in
    let size = Fits-length g.shards ws h.fits in
    let fits : Fits marked.shards ws = unfold mark in keep-Fits g.shards ws i w h.fits at in
    let below : i < length g.shards = omega (arith, size, get_elem?_below ws i w at) in
    let stored : is_there marked.shards j ≡ true =
      unfold mark in
      elim (Bool-cases (j == i)) [
        | inl here ↦
            let e : i ≡ j = ground arith in
            subst (λ k. is_there (keep g.shards i w) k ≡ true) e
              (keep-is_there_self g.shards i w below)
        | inr other ↦ keep-is_there g.shards i j w (ground arith)
      ] in
    elim (Bool-cases (can_recover marked)) [
      | inr waits ↦ rw (absorb, waits) stored
      | inl enough ↦
          let many : n ≤ present marked.shards = unfold mark in ground (arith, h.data_size) in
          let size_after = Fits-length marked.shards ws fits in
          rw
            (
              absorb,
              enough,
              h.data_size,
              h.parity_size,
              law.restores n p ws marked.shards own pos fits many,
            )
            (map-is_there ws j (omega (arith, size_after, is_there_below marked.shards j stored)))
    ]

-- Whether a shard of this place is among the arrivals.
unfoldable pub has_come : ℕ → List (ℕ × List ℕ) → Bool
has_come j [] = false
has_come j ((i, w) ∷ rest) = j == i || has_come j rest

-- How many of the places from `first` on, `count` of them, have come: each counts once.
unfoldable pub places_from : ℕ → ℕ → List (ℕ × List ℕ) → ℕ
places_from first zero arrivals = 0
places_from first (suc count) arrivals =
    if has_come first arrivals
    then places_from (suc first) count arrivals + 1
    else places_from (suc first) count arrivals

pub places_from-le :
    (ps : List (Option (List ℕ))) (first : ℕ) (arrivals : List (ℕ × List ℕ))
    → ((j : ℕ) → has_come (first + j) arrivals ≡ true → is_there ps j ≡ true)
    → places_from first (length ps) arrivals ≤ present ps
unfolding places_from present is_there
places_from-le [] first arrivals h = omega arith
places_from-le (none ∷ ps) first arrivals h =
    let rest = places_from-le ps (suc first) arrivals (λ j come. h (suc j) (ground arith)) in
    let start : has_come first arrivals ≡ true → false ≡ true =
      λ come. h zero (ground (arith, come)) in
    elim (Bool-cases (has_come first arrivals)) [
      | inl come ↦ cc (start come)
      | inr missing ↦ rw missing rest
    ]
places_from-le (some s ∷ ps) first arrivals h =
    let rest = places_from-le ps (suc first) arrivals (λ j come. h (suc j) (ground arith)) in
    ground (arith, rest)
