-- ===== src/Fec/Encoder/Parity.antt =====
-- How many repair shards a group gets.
use smart_fec_tunnel.Base.{ℕ, ◌*◌, ◌≤◌, ◌<◌, ◌≡◌, min, none, arith}
use smart_fec_tunnel.Base.Chunks.{div_ceil}
use smart_fec_tunnel.Adaptive.{max_parity}
use smart_fec_tunnel.Fec.Encoder.{Encoder, group_parity}

min_le : (a b c : ℕ) → a ≤ b → min a c ≤ min b c
min_le a b c h = omega arith

full_group : (p : ℕ) → p ≤ 4 → div_ceil (10 * p) 10 ≡ p
full_group p h = grind arith

-- For a controller whose parity is at most four and a group of one to ten data shards: the group
-- never has more repair shards than data shards, nor more than four; and without a forced parity a
-- controller at parity 0 adds none, a full group gets exactly the controller's parity, and a
-- partial one the controller's parity, up to the number of its data shards.
pub group_parity_exact :
    (e : Encoder) (n : ℕ)
    → e.adaptive.parity ≤ max_parity
    → 0 < n
    → n ≤ 10
    → (group_parity e n ≤ min n max_parity)
      × (e.force_parity ≡ none → group_parity e n ≡ min e.adaptive.parity n)
unfolding group_parity
group_parity_exact e n v p h = (
  ground (arith, v, full_group e.adaptive.parity v),
  ground (arith, v, full_group e.adaptive.parity v),
)
