-- ===== src/Fec/Decoder/Holding.antt =====
-- One frame on its group: what it delivers, and what waits.
use smart_fec_tunnel.Base.{
  ℕ, zero, suc, ◌+◌, ◌≤◌, ◌<◌, ◌≡◌, refl, ap, ◌∙◌, Bool, true, false, if◌then◌else◌, Bool-cases,
  inl, inr, Option, some, List, [], ◌∷◌, ◌++◌, map, get_elem?, set, take, drop, Result, ok, err,
  arith,
}
use smart_fec_tunnel.Base.Bytes.{bytes_eq}
use smart_fec_tunnel.Base.Chunks.{Fits, Fits-set}
use smart_fec_tunnel.Fec.{ReedSolomon}
use smart_fec_tunnel.Fec.Decoder.{
  Group, DecodeError, present, any_undelivered, undelivered, keep, is_undelivered, mark, immediate,
  can_recover, absorb,
}

-- The shards of a group: what the code makes of its first `n`, behind them.
pub record IsGroupOf (code : ReedSolomon) (n p : ℕ) (ws : List (List ℕ)) : Type 0 where
  pub some_data : 0 < n
  pub limit : n + p ≤ 256
  pub encoded : code.encode n p (take n ws) ≡ some (drop n ws)

-- The package restores a group from any `n` of its shards.
pub record IsRestoring (code : ReedSolomon) : Type 0 where
  pub restores :
      (n p : ℕ) (ws : List (List ℕ)) (parts : List (Option (List ℕ)))
      → IsGroupOf code n p ws
      → 0 < p
      → Fits parts ws
      → n ≤ present parts
      → code.reconstruct n p parts ≡ some (map some ws)

-- The data shards that are not delivered yet.
unfoldable pub waiting : List Bool → List (List ℕ) → List (List ℕ)
waiting [] ws = []
waiting (d ∷ ds) [] = []
waiting (true ∷ ds) (w ∷ ws) = waiting ds ws
waiting (false ∷ ds) (w ∷ ws) = w ∷ waiting ds ws

-- How often a shard occurs.
unfoldable pub multiplicity : List ℕ → List (List ℕ) → ℕ
multiplicity x [] = 0
multiplicity x (y ∷ ys) = if bytes_eq x y then multiplicity x ys + 1 else multiplicity x ys

pub multiplicity-append :
    (x : List ℕ) (ys zs : List (List ℕ))
    → multiplicity x (ys ++ zs) ≡ multiplicity x ys + multiplicity x zs
unfolding multiplicity
multiplicity-append x [] zs = omega arith
multiplicity-append x (y ∷ ys) zs = ground (arith, multiplicity-append x ys zs)

undelivered-map :
    (ds : List Bool) (ws : List (List ℕ)) → undelivered ds (map some ws) ≡ waiting ds ws
unfolding undelivered waiting
undelivered-map [] ws = refl
undelivered-map (true ∷ ds) [] = refl
undelivered-map (false ∷ ds) [] = refl
undelivered-map (true ∷ ds) (w ∷ ws) = undelivered-map ds ws
undelivered-map (false ∷ ds) (w ∷ ws) = ap (◌∷◌ w) (undelivered-map ds ws)

pub waiting_none :
    (ds : List Bool) (ws : List (List ℕ)) → any_undelivered ds ≡ false → waiting ds ws ≡ []
unfolding waiting any_undelivered
waiting_none [] ws h = refl
waiting_none (true ∷ ds) [] h = refl
waiting_none (true ∷ ds) (w ∷ ws) h = waiting_none ds ws h
waiting_none (false ∷ ds) ws h = absurd (ground arith)

all_delivered : (ds : List Bool) → any_undelivered (map (λ x. true) ds) ≡ false
unfolding any_undelivered
all_delivered [] = refl
all_delivered (d ∷ ds) = all_delivered ds

Fits-all : (ws : List (List ℕ)) → Fits (map some ws) ws
Fits-all [] = tt
Fits-all (w ∷ ws) = (inr refl, Fits-all ws)

pub keep-Fits :
    (ps : List (Option (List ℕ))) (ws : List (List ℕ)) (i : ℕ) (w : List ℕ)
    → Fits ps ws
    → get_elem? ws i ≡ some w
    → Fits (keep ps i w) ws
unfolding keep
keep-Fits ps ws i w f h = ground (arith, Fits-set ps ws i w f h)

-- A shard that is delivered now is one that waited.
waiting-set :
    (x : List ℕ) (ds : List Bool) (ws : List (List ℕ)) (i : ℕ) (w : List ℕ)
    → is_undelivered ds i ≡ true
    → get_elem? ws i ≡ some w
    → multiplicity x (w ∷ waiting (set ds i true) ws) ≡ multiplicity x (waiting ds ws)
unfolding waiting multiplicity is_undelivered
waiting-set x [] ws i w u h = absurd (ground arith)
waiting-set x (d ∷ ds) [] i w u h = absurd (ground arith)
waiting-set x (true ∷ ds) (v ∷ ws) zero w u h = absurd (ground arith)
waiting-set x (false ∷ ds) (v ∷ ws) zero w u h = ground arith
waiting-set x (true ∷ ds) (v ∷ ws) (suc i) w u h = waiting-set x ds ws i w u h
waiting-set x (false ∷ ds) (v ∷ ws) (suc i) w u h = ground (arith, waiting-set x ds ws i w u h)

mark-waiting :
    (x : List ℕ) (g : Group) (ws : List (List ℕ)) (i : ℕ) (w : List ℕ)
    → get_elem? ws i ≡ some w
    → multiplicity x (immediate g i w) + multiplicity x (waiting (mark g i w).delivered ws)
      ≡ multiplicity x (waiting g.delivered ws)
unfolding mark multiplicity
mark-waiting x g ws i w h = elim (Bool-cases (is_undelivered g.delivered i)) [
  | inr old ↦ rw old (omega arith)
  | inl new ↦ rw new (ground (arith, waiting-set x g.delivered ws i w new h))
]

-- The group holds shards of `ws` at their places, and has recovered if it can.
pub record IsHolding (g : Group) (n p : ℕ) (ws : List (List ℕ)) : Type 0 where
  pub data_size : g.data_count ≡ n
  pub parity_size : g.parity_count ≡ p
  pub fits : Fits g.shards ws
  pub recovered : can_recover g ≡ false

-- A call that succeeds, keeps the group, and delivers shards that waited and wait no more.
abbrev pub Absorbed :
    Group → ℕ → ℕ → List (List ℕ) → Group × Result DecodeError (List (List ℕ)) → Type 0
Absorbed g n p ws (g1, err e) = ⊥
Absorbed g n p ws (g1, ok out) =
    IsHolding g1 n p ws
    × ((x : List ℕ)
        → multiplicity x out + multiplicity x (waiting g1.delivered ws)
          ≡ multiplicity x (waiting g.delivered ws))

pub multiplicity_nil_left :
    (x : List ℕ) (ys : List (List ℕ)) → multiplicity x [] + multiplicity x ys ≡ multiplicity x ys
unfolding multiplicity
multiplicity_nil_left x ys = omega arith

pub multiplicity_nil : (x : List ℕ) (k : ℕ) → k + multiplicity x [] ≡ k
unfolding multiplicity
multiplicity_nil x k = omega arith

recovered_group :
    (g : Group) (n p : ℕ) (ws : List (List ℕ)) (i : ℕ) (w : List ℕ)
    → IsHolding g n p ws
    → get_elem? ws i ≡ some w
    → let marked = mark g i w in
      let g1 : Group = record marked {
        shards = map some ws;
        delivered = map (λ x. true) marked.delivered;
      } in
      Absorbed g n p ws (g1, ok (immediate g i w ++ undelivered marked.delivered (map some ws)))
unfolding mark
recovered_group g n p ws i w h at =
    let ds = (mark g i w).delivered in
    let none_left = all_delivered ds in
    (
      record {
        data_size = h.data_size;
        parity_size = h.parity_size;
        fits = Fits-all ws;
        recovered = ground (arith, none_left);
      },
      λ x.
          rw (undelivered-map ds ws, waiting_none (map (λ y. true) ds) ws none_left)
            (multiplicity_nil x (multiplicity x (immediate g i w ++ waiting ds ws))
              ∙ multiplicity-append x (immediate g i w) (waiting ds ws)
              ∙ mark-waiting x g ws i w at),
    )

module _ (code : ReedSolomon) (law : IsRestoring code) (n p : ℕ) (ws : List (List ℕ))
    (own : IsGroupOf code n p ws) (pos : 0 < p) where
  pub absorb-Absorbed :
      (g : Group) (i : ℕ) (w : List ℕ)
      → IsHolding g n p ws
      → get_elem? ws i ≡ some w
      → Absorbed g n p ws (absorb code g i w)
  unfolding absorb
  absorb-Absorbed g i w h at =
      let marked = mark g i w in
      let fits : Fits marked.shards ws = unfold mark in keep-Fits g.shards ws i w h.fits at in
      let same_data : marked.data_count ≡ n = unfold mark in h.data_size in
      let same_parity : marked.parity_count ≡ p = unfold mark in h.parity_size in
      elim (Bool-cases (can_recover marked)) [
        | inr waits ↦
            rw (absorb, waits)
              (
                record {
                  data_size = same_data;
                  parity_size = same_parity;
                  fits = fits;
                  recovered = waits;
                },
                λ x. mark-waiting x g ws i w at,
              )
        | inl enough ↦
            let many : n ≤ present marked.shards = ground arith in
            rw
              (
                absorb,
                enough,
                h.data_size,
                h.parity_size,
                law.restores n p ws marked.shards own pos fits many,
              )
              (recovered_group g n p ws i w h at)
      ]
